-- ===== src/Api/Chat/Upstream.antt =====
-- crates/api/src/handlers/chat.rs: the loop over the candidates, and the errors of the upstream.
use Prim.Native.String.{◌++◌, len}
use text.Mathlib.Text.{get?}
use token_hub.Prelude.{
  ℕ, String, Option, none, some, List, [], ◌∷◌, map_option, leb, if◌then◌else◌, ◌==◌,
}
use token_hub.Prelude.Int.{ℤ}
use token_hub.Prelude.Table.{find}
use token_hub.Prelude.Text.{decimal}
use token_hub.Domain.Provider.{ModelProvider, ProviderCredential}
use token_hub.Router.Fallback.{UpstreamError, FallbackOutcome, classify}
use token_hub.Router.Selector.{RouteCandidate}
use token_hub.Storage.Provider.{Providers, set_status}
use token_hub.Api.Error.{ApiError}
use token_hub.Api.Chat.Request.{ChatRequest, ChatResponse, Reply}

-- `&body[..body.len().min(200)]` panics where byte 200 lies inside a character.
unfoldable pub map_upstream_error : UpstreamError → Option ApiError
map_upstream_error (UpstreamError.status code body) =
    map_option (λ t. ApiError.upstream ("upstream " ++ decimal 5 code ++ ": " ++ t))
      (get? body 0 (if leb (len body) 200 then len body else 200))
map_upstream_error UpstreamError.timeout = some (ApiError.upstream "upstream timeout")
map_upstream_error (UpstreamError.connect msg) = some (ApiError.upstream ("connect: " ++ msg))
map_upstream_error (UpstreamError.other msg) = some (ApiError.upstream msg)

-- How the loop ends: with an answer, with an error that is returned, with no candidate left and the
-- last error, or in a panic.
pub data Attempt : Type 0 where
  answer : (provider_id : ℕ) (upstream_model : String) (response : ChatResponse) → Attempt
  refusal : UpstreamError → Attempt
  exhausted : (last_error : Option ApiError) → Attempt
  panicked : Attempt

module _ {X : Type 0} (chat : X → (base_url api_key : String) → ChatRequest → Reply × X)
    (candidates : List (ModelProvider × ProviderCredential)) (req : ChatRequest) (now : ℤ) where
  -- One candidate, with the rest of the loop. The `ApiError` is `last_error`.
  unfoldable pub attempt :
      List RouteCandidate → Option ApiError → Providers → X → Attempt × Providers × X
  attempt [] last_error ps ext = (Attempt.exhausted last_error, ps, ext)
  attempt (c ∷ ordered) last_error ps ext =
      elim (find (λ x. (x.1).id == c.provider_id) candidates) [
        | none ↦ attempt ordered last_error ps ext
        | some x ↦
            let p = x.1 in
            let (reply, next) =
              chat ext p.base_url p.api_key_enc (record req { model = c.upstream_model }) in
            elim reply [
              | Reply.answered response ↦
                  (Attempt.answer c.provider_id c.upstream_model response, ps, next)
              | Reply.refused e ↦ elim (classify e) [
                | none ↦ (Attempt.panicked, ps, next)
                | some FallbackOutcome.no_fallback ↦ (Attempt.refusal e, ps, next)
                | some (FallbackOutcome.should_disable_and_fallback reason) ↦
                    attempt ordered (some (ApiError.upstream ("provider unavailable: " ++ reason)))
                      (set_status c.provider_id "disabled" (some reason) now ps).1 next
              ]
            ]
      ]
