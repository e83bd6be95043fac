-- ===== src/Router/Fallback/Verdict.antt =====
-- crates/router-llm/src/fallback.rs: what `classify` decides, and where it panics.
use Prim.Native.String.{len}
use text.Mathlib.TextPositions.{boundary-zero}
use text.Mathlib.Text.{is_char_boundary}
use token_hub.Prelude.{
  String, Bool, true, false, ◌||◌, ◌&&◌, Option, none, some, ◌≡◌, refl, arith, leb, ◌==◌, is_some,
}
use token_hub.Router.Fallback.{UpstreamError, FallbackOutcome, truncate, mentions_quota, classify}

-- The errors by which a provider is given up: it wants money, it limits the rate, it fails, it
-- cannot be reached, or it forbids the call on account of a quota.
abbrev pub gives_up : UpstreamError → Bool
gives_up (UpstreamError.status code body) =
    code == 402 || code == 429 || leb 500 code || (code == 403 && mentions_quota body)
gives_up UpstreamError.timeout = true
gives_up (UpstreamError.connect msg) = true
gives_up (UpstreamError.other msg) = false

-- A body that can be cut at byte 200.
abbrev pub can_cut : UpstreamError → Bool
can_cut (UpstreamError.status code body) = leb (len body) 200 || is_char_boundary body 200
can_cut _ = true

-- The errors of which the body is quoted.
abbrev pub quotes_body : UpstreamError → Bool
quotes_body (UpstreamError.status code body) =
    code == 402 || code == 429 || (code == 403 && mentions_quota body)
quotes_body _ = false

disables : Option FallbackOutcome → Bool
disables (some (FallbackOutcome.should_disable_and_fallback reason)) = true
disables _ = false

reason_of :
    (o : Option FallbackOutcome)
    → disables o ≡ true
    → (reason : String) × (o ≡ some (FallbackOutcome.should_disable_and_fallback reason))
unfolding disables
reason_of none h = absurd (ground arith)
reason_of (some FallbackOutcome.no_fallback) h = absurd (ground arith)
reason_of (some (FallbackOutcome.should_disable_and_fallback reason)) h = (reason, refl)

-- A body is cut where it can be cut, and else the program panics.
truncate-cut :
    (body : String)
    → is_some (truncate body 200) ≡ (leb (len body) 200 || is_char_boundary body 200)
unfolding truncate
truncate-cut body = ground (arith, boundary-zero body)

-- Every error is decided in one of three ways. A body that is to be quoted and cannot be cut is a
-- panic. Any other error of the kinds that give a provider up disables it, with some reason. Any
-- other error is no fallback.
pub classify_verdict :
    (e : UpstreamError)
    → (quotes_body e ≡ true → can_cut e ≡ false → classify e ≡ none)
      × (can_cut e ≡ true
          → gives_up e ≡ true
          → (reason : String) × (classify e
              ≡ some (FallbackOutcome.should_disable_and_fallback reason)))
      × (gives_up e ≡ false → classify e ≡ some FallbackOutcome.no_fallback)
unfolding classify disables
classify_verdict (UpstreamError.status code body) =
    let cut = truncate-cut body in
    ((λ q c. ground arith), (λ c g. reason_of _ (ground arith)), (λ g. ground arith))
classify_verdict UpstreamError.timeout = ((λ q c. cc), (λ c g. reason_of _ refl), (λ g. cc))
classify_verdict (UpstreamError.connect msg) = ((λ q c. cc), (λ c g. reason_of _ refl), (λ g. cc))
classify_verdict (UpstreamError.other msg) = ((λ q c. cc), (λ c g. cc), (λ g. refl))
