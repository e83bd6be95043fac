-- ===== src/Credits/Adjust.antt =====
-- crates/storage/src/repo/credits.rs: `adjust`.
use token_hub.Prelude.{
  ℕ, String, Option, none, some, is_some, [], ◌∷◌, ◌++◌, DbResult, ok, failed, if◌then◌else◌, ◌==◌,
}
use token_hub.Prelude.Int.{ℤ, pos, ltb_ℤ}
use token_hub.Prelude.I64.{add64}
use token_hub.Prelude.Table.{update_where, rows_affected}
use token_hub.Domain.Account.{CreditTransaction}
use token_hub.Credits.Ledger.{Ledger, credits_row, transaction_row, at_version}

-- What the `SELECT` hands on: the balance and the version.
unfoldable pub adjust_read : ℕ → Ledger → Option (ℤ × ℤ)
adjust_read account_id l = elim (credits_row account_id l) [
  | none ↦ none
  | some c ↦ some (c.balance, c.version)
]

-- The row of the `INSERT`.
abbrev pub adjustment :
    (tx_id account_id : ℕ) (delta new_balance : ℤ)
    → (reason operator : Option String) → ℤ
    → CreditTransaction
adjustment tx_id account_id delta new_balance reason operator now = record {
  id = tx_id;
  account_id = account_id;
  delta = delta;
  balance_after = new_balance;
  reason = reason;
  operator = operator;
  created_at = now;
}

-- The tables after the `UPDATE` and the `INSERT`.
abbrev pub adjusted :
    (tx_id account_id : ℕ) (delta new_balance version : ℤ)
    → (reason operator : Option String) → ℤ
    → Ledger
    → Ledger
adjusted tx_id account_id delta new_balance version reason operator now l = record l {
  credits =
      update_where (at_version account_id version)
        (λ c. record c { balance = new_balance; version = add64 version (pos 1); updated_at = now })
        l.credits;
  transactions =
      l.transactions ++ adjustment tx_id account_id delta new_balance reason operator now ∷ [];
}

-- The check of the new balance, the conditional `UPDATE`, the `INSERT` and the `COMMIT`.
unfoldable pub adjust_write :
    (tx_id account_id : ℕ) (delta balance version : ℤ)
    → (reason operator : Option String) → ℤ
    → Ledger
    → DbResult (Option ℤ) × Ledger
adjust_write tx_id account_id delta balance version reason operator now l =
    let new_balance = add64 balance delta in
    if ltb_ℤ new_balance (pos 0)
    then (ok none, l)
    else if rows_affected (at_version account_id version) l.credits == 0
    then (ok none, l)
    else if is_some (transaction_row tx_id l)
    then (failed, l)
    else (
      ok (some new_balance),
      adjusted tx_id account_id delta new_balance version reason operator now l,
    )

unfoldable pub adjust :
    (tx_id account_id : ℕ) (delta : ℤ)
    → (reason operator : Option String) → ℤ
    → Ledger
    → DbResult (Option ℤ) × Ledger
unfolding adjust_read
adjust tx_id account_id delta reason operator now l = elim (adjust_read account_id l) [
  | none ↦ (ok none, l)
  | some (balance, version) ↦
      adjust_write tx_id account_id delta balance version reason operator now l
]
