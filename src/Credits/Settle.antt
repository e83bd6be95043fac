-- ===== src/Credits/Settle.antt =====
-- crates/storage/src/repo/credits.rs: `settle_hold` and `release_hold`.
use token_hub.Prelude.{
  ℕ, ◌||◌, Option, none, some, is_some, [], ◌∷◌, ◌++◌, DbResult, ok, failed, if◌then◌else◌, ◌==◌,
}
use token_hub.Prelude.Int.{ℤ, pos, ltb_ℤ}
use token_hub.Prelude.I64.{add64, sub64}
use token_hub.Prelude.Table.{update_where, rows_affected}
use token_hub.Domain.Account.{HoldStatus, CreditTransaction}
use token_hub.Credits.Ledger.{Ledger, credits_row, hold_row, transaction_row, at_version, is_held}

-- What both methods read: the account and the amount of a hold that is still held, and then the
-- row of that account.
pub record Claim : Type 0 where
  pub account_id : ℕ
  pub amount : ℤ
  pub balance : ℤ
  pub held : ℤ
  pub version : ℤ

-- `fetch_one` fails where there is no row.
unfoldable pub claim_read : ℕ → Ledger → DbResult (Option Claim)
claim_read hold_id l = elim (hold_row hold_id l) [
  | none ↦ ok none
  | some h ↦
      if is_held h.status
      then elim (credits_row h.account_id l) [
        | none ↦ failed
        | some c ↦ ok (
            some (record {
              account_id = h.account_id;
              amount = h.amount;
              balance = c.balance;
              held = c.held;
              version = c.version;
            }))
      ]
      else ok none
]

-- `UPDATE credits SET balance = ?, held = ?, version = ?, updated_at = ? WHERE …`, followed by
-- `UPDATE credit_holds SET status = ?, settled_at = ? WHERE id = ?`.
abbrev pub close_hold : ℕ → HoldStatus → Claim → (balance held now : ℤ) → Ledger → Ledger
close_hold hold_id status q balance held now l = record l {
  credits =
      update_where (at_version q.account_id q.version)
        (λ c. record c {
          balance = balance;
          held = held;
          version = add64 q.version (pos 1);
          updated_at = now;
        })
        l.credits;
  holds =
      update_where (λ h. h.id == hold_id) (λ h. record h { status = status; settled_at = some now })
        l.holds;
}

-- The row by which `settle_hold` records the charge.
abbrev pub charge : (tx_id account_id : ℕ) (actual_cost new_balance now : ℤ) → CreditTransaction
charge tx_id account_id actual_cost new_balance now = record {
  id = tx_id;
  account_id = account_id;
  delta = sub64 (pos 0) actual_cost;
  balance_after = new_balance;
  reason = some "usage";
  operator = some "system";
  created_at = now;
}

abbrev pub charged :
    (tx_id hold_id : ℕ) → Claim → (actual_cost new_balance new_held now : ℤ) → Ledger → Ledger
charged tx_id hold_id q actual_cost new_balance new_held now l =
    record (close_hold hold_id HoldStatus.settled q new_balance new_held now l) {
      transactions = l.transactions ++ charge tx_id q.account_id actual_cost new_balance now ∷ [];
    }

unfoldable pub settle_write :
    (tx_id hold_id : ℕ) → Claim → (actual_cost now : ℤ) → Ledger → DbResult (Option ℤ) × Ledger
settle_write tx_id hold_id q actual_cost now l =
    let refund = sub64 q.amount actual_cost in
    let new_held = sub64 q.held q.amount in
    let new_balance = add64 q.balance refund in
    if ltb_ℤ new_balance (pos 0) || ltb_ℤ new_held (pos 0)
    then (ok none, l)
    else if rows_affected (at_version q.account_id q.version) l.credits == 0
    then (ok none, l)
    else if is_some (transaction_row tx_id l)
    then (failed, l)
    else (ok (some new_balance), charged tx_id hold_id q actual_cost new_balance new_held now l)

unfoldable pub release_write : (hold_id : ℕ) → Claim → ℤ → Ledger → DbResult (Option ℤ) × Ledger
release_write hold_id q now l =
    if rows_affected (at_version q.account_id q.version) l.credits == 0 then (ok none, l) else (
      ok (some (add64 q.balance q.amount)),
      close_hold hold_id HoldStatus.released q (add64 q.balance q.amount) (sub64 q.held q.amount)
          now l,
    )

unfoldable pub settle_hold :
    (tx_id hold_id : ℕ) (actual_cost now : ℤ) → Ledger → DbResult (Option ℤ) × Ledger
unfolding claim_read
settle_hold tx_id hold_id actual_cost now l = elim (claim_read hold_id l) [
  | failed ↦ (failed, l)
  | ok none ↦ (ok none, l)
  | ok (some q) ↦ settle_write tx_id hold_id q actual_cost now l
]

unfoldable pub release_hold : (hold_id : ℕ) → ℤ → Ledger → DbResult (Option ℤ) × Ledger
unfolding claim_read
release_hold hold_id now l = elim (claim_read hold_id l) [
  | failed ↦ (failed, l)
  | ok none ↦ (ok none, l)
  | ok (some q) ↦ release_write hold_id q now l
]
