-- ===== src/Api/Chat/Money.antt =====
-- crates/api/src/handlers/chat.rs: what a call does to the balance and the held amount of the
-- caller's account, for each way in which it can end.
use token_hub.Prelude.{ℕ, String, none, some, ◌≡◌, ◌⊎◌, Bool}
use token_hub.Prelude.Int.{ℤ, ◌+ℤ◌, ◌-ℤ◌, ◌≤ℤ◌}
use token_hub.Domain.Account.{Credits}
use token_hub.Domain.Principal.{Principal}
use token_hub.Domain.Provider.{LogicalModel}
use token_hub.Billing.Estimator.{Tokenizer}
use token_hub.Credits.Ledger.{Ledger, credits_row, hold_row, transaction_row}
use token_hub.Credits.Invariant.{IsValid}
use token_hub.Credits.Hold.{place_hold}
use token_hub.Credits.Lifecycle.{Shows}
use token_hub.Api.Error.{ApiError}
use token_hub.Api.Chat.Request.{ChatCompletionsRequest, ChatResponse, Db, prompt_text}
use token_hub.Api.Chat.Accounting.{Outcome, Draws, est_credits, actual_credits}
use token_hub.Api.Chat.Course.{Course}

-- The account is as it was.
abbrev pub Untouched : ℕ → Credits → Ledger → Type 0
Untouched a c l = Shows a c.balance c.held l

-- It has paid for an answer, and nothing is held for the call any more.
abbrev pub Charged :
    Tokenizer → String → LogicalModel → ChatResponse → ℕ → Credits → Ledger → Type 0
Charged bpe prompt m response a c l =
    Shows a (c.balance -ℤ actual_credits bpe prompt m response) c.held l

-- The estimate of the call is still held.
abbrev pub Held : Tokenizer → String → LogicalModel → ℕ → Credits → Ledger → Type 0
Held bpe prompt m a c l =
    Shows a (c.balance -ℤ est_credits bpe prompt m) (c.held +ℤ est_credits bpe prompt m) l

-- What each outcome means for the account `a`, whose row was `c`.
abbrev pub Settles : Tokenizer → String → LogicalModel → ℕ → Credits → Outcome × Db × Bool → Type 0
Settles bpe prompt m a c (Outcome.success response, db, n) =
    Charged bpe prompt m response a c db.ledger
Settles bpe prompt m a c (Outcome.error (ApiError.internal none), db, n) =
    Untouched a c db.ledger
    ⊎ ((response : ChatResponse) × Charged bpe prompt m response a c db.ledger)
Settles bpe prompt m a c (Outcome.error (ApiError.internal (some reason)), db, n) =
    Held bpe prompt m a c db.ledger
Settles bpe prompt m a c (Outcome.error e, db, n) = Untouched a c db.ledger
Settles bpe prompt m a c (Outcome.panic, db, n) =
    Untouched a c db.ledger ⊎ Held bpe prompt m a c db.ledger

module _ (bpe : Tokenizer) (d : Draws) (a : ℕ) (req : ChatCompletionsRequest) (m : LogicalModel)
    (l : Ledger) (c : Credits) (valid : IsValid l) (found : credits_row a l ≡ some c)
    (fresh : hold_row d.hold_id l ≡ none) (fresh_tx : transaction_row d.tx_id l ≡ none)
    (cover : est_credits bpe (prompt_text req.messages) m ≤ℤ c.balance) (db : Db)
    (held : db.ledger
      ≡ (place_hold d.hold_id a
          (est_credits bpe (prompt_text req.messages) m)
          (some d.request_id)
          d.now
          l).1) where
  abbrev prompt : String
  prompt = prompt_text req.messages

  abbrev amount : ℤ
  amount = est_credits bpe prompt m
