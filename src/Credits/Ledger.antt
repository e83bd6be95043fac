-- ===== src/Credits/Ledger.antt =====
-- crates/storage/src/repo/credits.rs: the three tables of the repository, `init` and `get`.
use token_hub.Prelude.{
  ℕ, Bool, true, false, Option, is_some, List, [], ◌∷◌, ◌++◌, DbResult, ok, failed, if◌then◌else◌,
  ◌==◌,
}
use token_hub.Prelude.Int.{ℤ, pos, eqb_ℤ}
use token_hub.Prelude.Table.{row}
use token_hub.Domain.Account.{Credits, CreditHold, HoldStatus, CreditTransaction}

pub record Ledger : Type 0 where
  pub credits : List Credits
  pub holds : List CreditHold
  pub transactions : List CreditTransaction

abbrev pub credits_row : ℕ → Ledger → Option Credits
credits_row account_id l = row (λ c. c.account_id) account_id l.credits

abbrev pub hold_row : ℕ → Ledger → Option CreditHold
hold_row hold_id l = row (λ h. h.id) hold_id l.holds

abbrev pub transaction_row : ℕ → Ledger → Option CreditTransaction
transaction_row id l = row (λ t. t.id) id l.transactions

-- `WHERE account_id = ? AND version = ?`.
abbrev pub at_version : ℕ → ℤ → Credits → Bool
at_version account_id version c =
    if c.account_id == account_id then eqb_ℤ c.version version else false

-- `init`: `account_exists` is the check of the foreign key.
unfoldable pub init : Bool → ℕ → ℤ → Ledger → DbResult (Unit {0}) × Ledger
init account_exists account_id now l =
    if is_some (credits_row account_id l)
    then (ok tt, l)
    else if account_exists
    then (
      ok tt,
      record l {
        credits =
            l.credits
            ++ record {
              account_id = account_id;
              balance = pos 0;
              held = pos 0;
              version = pos 0;
              updated_at = now;
            }
              ∷ [];
      },
    )
    else (failed, l)

unfoldable pub get : ℕ → Ledger → Option Credits
get account_id l = credits_row account_id l

abbrev pub is_held : HoldStatus → Bool
is_held HoldStatus.held = true
is_held _ = false
