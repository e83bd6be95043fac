-- ===== src/Api/Chat/Valid.antt =====
-- crates/api/src/handlers/chat.rs: no call, however it ends, leaves the accounts in disorder.
use token_hub.Prelude.{
  ℕ, String, Option, none, some, DbResult, ok, failed, ◌≡◌, ◌⊎◌, refl, ap, inl, inr, arith,
}
use token_hub.Prelude.Int.{ℤ, pos, ◌≤ℤ◌}
use token_hub.Domain.Principal.{Principal}
use token_hub.Domain.Provider.{LogicalModel}
use token_hub.Domain.Usage.{UsageLog}
use token_hub.Billing.Estimator.{Tokenizer}
use token_hub.Credits.Invariant.{IsValid}
use token_hub.Credits.Settle.{settle_hold, release_hold}
use token_hub.Credits.Methods.{
  Keeps-IsValid, place_hold-Keeps, settle_hold-Keeps, release_hold-Keeps,
}
use token_hub.Storage.Usage.{insert_and_aggregate}
use token_hub.Api.Error.{ApiError}
use token_hub.Api.Chat.Request.{
  ChatCompletionsRequest, ChatRequest, ChatResponse, Reply, Db, prompt_text,
}
use token_hub.Api.Chat.Upstream.{Attempt, map_upstream_error}
use token_hub.Api.Chat.Accounting.{Outcome, Draws, est_credits, actual_credits, record_call, settle}
use token_hub.Api.Chat.Handler.{conclude, chat_completions, account_of, released}
use token_hub.Api.Chat.Course.{Course, course}
use token_hub.Api.Chat.Prices.{est_credits_pos, actual_credits-IsI64, actual_credits_nonneg}

-- What follows the settlement leaves the accounts alone, and ends in one of two ways.
pub record_call_lem :
    (d : Draws) (account_id : ℕ) (new_balance : ℤ) (entry : UsageLog) (provider_id : ℕ) (tokens : ℤ)
    (response : ChatResponse) (db : Db)
    → let (o, after, notified) =
        record_call d account_id new_balance entry provider_id tokens response db in
      (after.ledger ≡ db.ledger)
      × ((o ≡ Outcome.success response) ⊎ (o ≡ Outcome.error (ApiError.internal none)))
unfolding record_call
record_call_lem d account_id new_balance entry provider_id tokens response db =
    go (insert_and_aggregate entry d.period db.usage).0 refl
  where
    go :
        (r : DbResult (Unit {0}))
        → (insert_and_aggregate entry d.period db.usage).0 ≡ r
        → let (o, after, notified) =
            record_call d account_id new_balance entry provider_id tokens response db in
          (after.ledger ≡ db.ledger)
          × ((o ≡ Outcome.success response) ⊎ (o ≡ Outcome.error (ApiError.internal none)))
    go failed e = rw (e, record_call) (refl, inr refl)
    go (ok x) e = rw (e, record_call) (refl, inl refl)

settle-IsValid :
    (bpe : Tokenizer) (d : Draws) (account_id : ℕ) (model prompt : String) (m : LogicalModel)
    (provider_id : ℕ) (upstream_model : String) (response : ChatResponse) (db : Db)
    → IsValid db.ledger
    → IsValid
        (settle bpe d account_id model prompt m provider_id upstream_model response db).1.ledger
unfolding settle
settle-IsValid bpe d account_id model prompt m provider_id upstream_model response db valid =
    go (settle_hold d.tx_id d.hold_id cost d.now db.ledger).0 refl
  where
    cost : ℤ
    cost = actual_credits bpe prompt m response

    after : IsValid (settle_hold d.tx_id d.hold_id cost d.now db.ledger).1
    after = Keeps-IsValid (settle_hold d.tx_id d.hold_id cost d.now db.ledger) valid (
        settle_hold-Keeps db.ledger valid d.tx_id d.hold_id cost d.now
          (actual_credits-IsI64 bpe prompt m response)
          (actual_credits_nonneg bpe prompt m response))

    go :
        (r : DbResult (Option ℤ))
        → (settle_hold d.tx_id d.hold_id cost d.now db.ledger).0 ≡ r
        → IsValid
            (settle bpe d account_id model prompt m provider_id upstream_model response db).1.ledger
    go failed e = rw (e, settle) after
    go (ok none) e = rw (e, settle) after
    go (ok (some new)) e = rw (e, settle) (rw (record_call_lem _ _ _ _ _ _ _ _).0 after)

le_one : (z : ℤ) → pos 1 ≤ℤ z → pos 0 ≤ℤ z
le_one z h = omega arith

released-IsValid : (d : Draws) (db : Db) → IsValid db.ledger → IsValid (released d db).ledger
released-IsValid d db valid =
    Keeps-IsValid (release_hold d.hold_id d.now db.ledger) valid
      (release_hold-Keeps db.ledger valid d.hold_id d.now)

conclude-IsValid :
    (bpe : Tokenizer) (d : Draws) (a : ℕ) (req : ChatCompletionsRequest) (m : LogicalModel)
    (end : Attempt) (db : Db)
    → IsValid db.ledger
    → IsValid (conclude bpe d a req m end db).1.ledger
unfolding conclude
conclude-IsValid bpe d a req m (Attempt.answer p u response) db valid =
    settle-IsValid bpe d a req.model (prompt_text req.messages) m p u response db valid
conclude-IsValid bpe d a req m (Attempt.refusal e) db valid = go (map_upstream_error e) refl
  where
    go :
        (r : Option ApiError)
        → map_upstream_error e ≡ r
        → IsValid (conclude bpe d a req m (Attempt.refusal e) db).1.ledger
    go none h = rw (h, conclude) (released-IsValid d db valid)
    go (some x) h = rw (h, conclude) (released-IsValid d db valid)
conclude-IsValid bpe d a req m (Attempt.exhausted last) db valid = released-IsValid d db valid
conclude-IsValid bpe d a req m Attempt.panicked db valid = valid

module _ {X S : Type 0} (chat : X → (base_url api_key : String) → ChatRequest → Reply × X)
    (gen_range : S → ℤ → ℤ × S) (bpe : Tokenizer) (d : Draws) (principal : Principal)
    (req : ChatCompletionsRequest) (ext : X) (rng : S) (db : Db) where
  -- However a call ends, with an answer, with any error or in a panic, and whatever the upstream
  -- answers: if the tables of credits satisfied their invariant before, they do so after it.
  pub chat_completions-IsValid :
      IsValid db.ledger
      → IsValid (chat_completions chat gen_range bpe d principal req ext rng db).1.ledger
  chat_completions-IsValid valid = go (course chat gen_range bpe d principal req ext rng db)
    where
      go :
          Course bpe d principal req db
            (chat_completions chat gen_range bpe d principal req ext rng db)
          → IsValid (chat_completions chat gen_range bpe d principal req ext rng db).1.ledger
      go (inl (e, plain, done)) = rw done valid
      go (inr (m, x, ledger, end, ps, plain, named, held, done)) = rw done (
          conclude-IsValid bpe d (account_of principal) req m end
            (record db { ledger = ledger; providers = ps })
            (rw (ap (λ r. r.1) held) at (
              Keeps-IsValid _ valid (
                place_hold-Keeps db.ledger valid d.hold_id (account_of principal)
                  (est_credits bpe (prompt_text req.messages) m) (some d.request_id) d.now
                  (le_one _ (est_credits_pos bpe (prompt_text req.messages) m))))))
