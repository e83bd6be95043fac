-- ===== src/Api/Chat/Handler.antt =====
-- crates/api/src/handlers/chat.rs: `chat_completions`.
use Prim.Native.String.{◌++◌}
use token_hub.Prelude.{
  ℕ, String, Bool, false, none, some, List, [], ◌∷◌, map, ok, failed, unwrap_or, if◌then◌else◌,
}
use token_hub.Prelude.Int.{ℤ}
use token_hub.Domain.Principal.{Principal}
use token_hub.Domain.Provider.{LogicalModel, ModelProvider, ProviderCredential}
use token_hub.Billing.Estimator.{Tokenizer}
use token_hub.Credits.Hold.{place_hold}
use token_hub.Credits.Settle.{release_hold}
use token_hub.Router.Selector.{select}
use token_hub.Storage.Mapping.{list_by_logical_model}
use token_hub.Storage.Model.{get_by_name}
use token_hub.Api.Error.{ApiError}
use token_hub.Api.Chat.Request.{
  ChatCompletionsRequest, ChatRequest, Reply, Db, from_completions, prompt_text, active_candidates,
  route_candidate,
}
use token_hub.Api.Chat.Upstream.{Attempt, attempt, map_upstream_error}
use token_hub.Api.Chat.Accounting.{Outcome, Draws, est_credits, settle}

-- `unwrap_or_default` of an account that a principal has not is the empty text, which 0 stands for.
abbrev pub account_of : Principal → ℕ
account_of principal = unwrap_or principal.account_id 0

-- The state behind a failed call: the hold is given back, whatever that returns.
abbrev pub released : Draws → Db → Db
released d db = record db { ledger = (release_hold d.hold_id d.now db.ledger).1 }

-- What the end of the loop leads to.
unfoldable pub conclude :
    Tokenizer
    → Draws
    → (account_id : ℕ) → ChatCompletionsRequest
    → LogicalModel
    → Attempt
    → Db
    → Outcome × Db × Bool
conclude bpe d account_id req m (Attempt.answer provider_id upstream_model response) db =
    settle bpe d account_id req.model (prompt_text req.messages) m provider_id upstream_model
      response db
conclude bpe d account_id req m (Attempt.refusal e) db = elim (map_upstream_error e) [
  | none ↦ (Outcome.panic, released d db, false)
  | some failure ↦ (Outcome.error failure, released d db, false)
]
conclude bpe d account_id req m (Attempt.exhausted last_error) db =
    (Outcome.error (unwrap_or last_error ApiError.no_provider), released d db, false)
conclude bpe d account_id req m Attempt.panicked db = (Outcome.panic, db, false)

module _ {X S : Type 0} (chat : X → (base_url api_key : String) → ChatRequest → Reply × X)
    (gen_range : S → ℤ → ℤ × S) (bpe : Tokenizer) where
  -- With the hold in place: the order of the candidates, the loop, and its end.
  unfoldable pub serve :
      Draws
      → (account_id : ℕ) → ChatCompletionsRequest
      → LogicalModel
      → List (ModelProvider × ProviderCredential)
      → X
      → S
      → Db
      → Outcome × Db × Bool
  serve d account_id req m candidates ext rng db =
      elim (select gen_range rng (map route_candidate candidates)) [
        | none ↦ (Outcome.panic, db, false)
        | some (ordered, _) ↦
            let (end, ps, _) =
              attempt chat candidates (from_completions req) d.now ordered none db.providers ext in
            conclude bpe d account_id req m end (record db { providers = ps })
      ]

  -- The second component is the state behind the call, the third whether the administrator is
  -- notified.
  unfoldable pub chat_completions :
      Draws → Principal → ChatCompletionsRequest → X → S → Db → Outcome × Db × Bool
  chat_completions d principal req ext rng db =
      if req.stream
      then (Outcome.error (ApiError.bad_request "streaming not yet implemented"), db, false)
      else elim (get_by_name req.model db.models) [
        | none ↦ (Outcome.error (ApiError.bad_request ("unknown model: " ++ req.model)), db, false)
        | some m ↦ elim (list_by_logical_model m.id db.mappings) [
          | [] ↦ (Outcome.error ApiError.no_provider, db, false)
          | first ∷ others ↦ elim (active_candidates (first ∷ others) db.providers) [
            | [] ↦ (Outcome.error ApiError.no_provider, db, false)
            | c ∷ cs ↦
                let (r, ledger) =
                  place_hold d.hold_id (account_of principal)
                    (est_credits bpe (prompt_text req.messages) m) (some d.request_id) d.now
                    db.ledger in
                elim r [
                  | failed ↦ (Outcome.error (ApiError.internal none), db, false)
                  | ok none ↦ (Outcome.error ApiError.insufficient_credits, db, false)
                  | ok (some _) ↦
                      serve d (account_of principal) req m (c ∷ cs) ext rng
                        (record db { ledger = ledger })
                ]
          ]
        ]
      ]
