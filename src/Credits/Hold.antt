-- ===== src/Credits/Hold.antt =====
-- crates/storage/src/repo/credits.rs: `place_hold`. The `UPDATE` computes the new balance and the
-- new held amount in the database, from the row that it finds.
use token_hub.Prelude.{
  ℕ, Option, none, some, is_some, [], ◌∷◌, ◌++◌, DbResult, ok, failed, if◌then◌else◌, ◌==◌,
}
use token_hub.Prelude.Int.{ℤ, pos, ◌+ℤ◌, ◌-ℤ◌, ltb_ℤ}
use token_hub.Prelude.I64.{add64}
use token_hub.Prelude.Table.{update_where, rows_affected}
use token_hub.Domain.Account.{CreditHold, HoldStatus}
use token_hub.Credits.Ledger.{Ledger, credits_row, hold_row, at_version}

-- The version that was read, if the account exists and its balance covers the amount.
unfoldable pub hold_read : ℕ → ℤ → Ledger → Option ℤ
hold_read account_id amount l = elim (credits_row account_id l) [
  | none ↦ none
  | some c ↦ if ltb_ℤ c.balance amount then none else some c.version
]

-- The row of the `INSERT`.
abbrev pub new_hold : (hold_id account_id : ℕ) → ℤ → Option ℕ → ℤ → CreditHold
new_hold hold_id account_id amount request_id now = record {
  id = hold_id;
  account_id = account_id;
  amount = amount;
  status = HoldStatus.held;
  request_id = request_id;
  created_at = now;
  settled_at = none;
}

-- The tables after the `UPDATE` and the `INSERT`.
abbrev pub held_back :
    (hold_id account_id : ℕ) (amount version : ℤ) (request_id : Option ℕ) → ℤ → Ledger → Ledger
held_back hold_id account_id amount version request_id now l = record l {
  credits =
      update_where (at_version account_id version)
        (λ c. record c {
          balance = c.balance -ℤ amount;
          held = c.held +ℤ amount;
          version = add64 version (pos 1);
          updated_at = now;
        })
        l.credits;
  holds = l.holds ++ new_hold hold_id account_id amount request_id now ∷ [];
}

unfoldable pub hold_write :
    (hold_id account_id : ℕ) (amount version : ℤ) (request_id : Option ℕ)
    → ℤ
    → Ledger
    → DbResult (Option (ℕ × ℤ)) × Ledger
hold_write hold_id account_id amount version request_id now l =
    if rows_affected (at_version account_id version) l.credits == 0
    then (ok none, l)
    else if is_some (hold_row hold_id l)
    then (failed, l)
    else (
      ok (some (hold_id, add64 version (pos 1))),
      held_back hold_id account_id amount version request_id now l,
    )

unfoldable pub place_hold :
    (hold_id account_id : ℕ) (amount : ℤ) (request_id : Option ℕ)
    → ℤ
    → Ledger
    → DbResult (Option (ℕ × ℤ)) × Ledger
unfolding hold_read
place_hold hold_id account_id amount request_id now l = elim (hold_read account_id amount l) [
  | none ↦ (ok none, l)
  | some version ↦ hold_write hold_id account_id amount version request_id now l
]
