-- ===== src/Router/Fallback.antt =====
-- crates/router-llm/src/fallback.rs, with the errors of client.rs. `none` stands for a panic: a
-- text is cut at byte 200, and that byte may lie inside a character.
pub mod Verdict
use Prim.Native.String.{◌++◌, len}
use text.Mathlib.Text.{get?}
use token_hub.Prelude.{
  ℕ, String, Bool, true, false, ◌||◌, Option, none, some, leb, ◌==◌, if◌then◌else◌, map_option,
}
use token_hub.Prelude.Text.{mentions, decimal}

pub data UpstreamError : Type 0 where
  status : (code : ℕ) (body : String) → UpstreamError
  timeout : UpstreamError
  connect other : String → UpstreamError

pub data FallbackOutcome : Type 0 where
  should_disable_and_fallback : (reason : String) → FallbackOutcome
  no_fallback : FallbackOutcome

unfoldable pub truncate : String → ℕ → Option String
truncate s max = if leb (len s) max then some s else map_option (λ t. t ++ "...") (get? s 0 max)

abbrev pub mentions_quota : String → Bool
mentions_quota body = mentions body "quota" || mentions body "billing" || mentions body "limit"

abbrev pub exhausts_quota : String → Bool
exhausts_quota body = mentions_quota body || mentions body "exceeded" || mentions body "credit"

-- The outcome whose reason ends in the body, cut.
abbrev pub with_body : String → String → Option FallbackOutcome
with_body text body =
    map_option (λ t. FallbackOutcome.should_disable_and_fallback (text ++ t)) (truncate body 200)

unfoldable pub classify : UpstreamError → Option FallbackOutcome
classify (UpstreamError.status code body) =
    if code == 402
    then with_body "payment required (402): " body
    else if code == 429
    then (if exhausts_quota body
        then with_body "quota exhausted (429): " body
        else with_body "rate limited (429): " body)
    else if code == 403
    then (if mentions_quota body
        then with_body "forbidden-quota (403): " body
        else some FallbackOutcome.no_fallback)
    else if leb 500 code
    then some (
        FallbackOutcome.should_disable_and_fallback
          ("upstream server error (" ++ decimal 5 code ++ ")"))
    else some FallbackOutcome.no_fallback
classify UpstreamError.timeout =
    some (FallbackOutcome.should_disable_and_fallback "upstream timeout")
classify (UpstreamError.connect msg) =
    some (FallbackOutcome.should_disable_and_fallback "upstream connection failed")
classify (UpstreamError.other msg) = some FallbackOutcome.no_fallback
