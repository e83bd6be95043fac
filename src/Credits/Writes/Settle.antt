-- ===== src/Credits/Writes/Settle.antt =====
-- crates/storage/src/repo/credits.rs: the second phases of `settle_hold` and `release_hold` commit
-- or change nothing, and keep the invariant.
use token_hub.Prelude.{
  ℕ, ◌||◌, true, some, ok, ◌≡◌, refl, inl, inr, arith, Bool-cases, Option-cases, is_some, ◌==◌,
}
use token_hub.Prelude.Int.{ℤ, pos, ◌≤ℤ◌, ltb_ℤ}
use token_hub.Prelude.I64.{add64, sub64}
use token_hub.Prelude.Table.{rows_affected}
use token_hub.Domain.Account.{Credits, CreditHold, HoldStatus}
use token_hub.Credits.Ledger.{Ledger, credits_row, hold_row, transaction_row, at_version, is_held}
use token_hub.Credits.Invariant.{IsValid, hit-row}
use token_hub.Credits.Settle.{Claim, claim_read, close_hold, charged, settle_write, release_write}
use token_hub.Credits.Writes.Common.{Commits, Hits}

-- What `claim_read` has found is true of the tables.
pub record IsClaim (hold_id : ℕ) (q : Claim) (l : Ledger) : Type 0 where
  pub hold : CreditHold
  pub hold_found : hold_row hold_id l ≡ some hold
  pub open_hold : is_held hold.status ≡ true
  pub same_account : hold.account_id ≡ q.account_id
  pub same_amount : hold.amount ≡ q.amount
  pub account : Credits
  pub account_found : credits_row q.account_id l ≡ some account
  pub same_balance : account.balance ≡ q.balance
  pub same_held : account.held ≡ q.held
  pub same_version : account.version ≡ q.version

pub claim_read-IsClaim :
    (hold_id : ℕ) (q : Claim) (l : Ledger)
    → claim_read hold_id l ≡ ok (some q)
    → IsClaim hold_id q l
unfolding claim_read
claim_read-IsClaim hold_id q l e = elim (Option-cases (hold_row hold_id l)) [
  | inl missing ↦ absurd (ground arith)
  | inr (h, found) ↦ elim (Option-cases (credits_row h.account_id l)) [
    | inl missing ↦ absurd (ground arith)
    | inr (c, owner) ↦ record {
      hold = h;
      hold_found = found;
      open_hold = ground arith;
      same_account = ground arith;
      same_amount = ground arith;
      account = c;
      account_found = ground arith;
      same_balance = ground arith;
      same_held = ground arith;
      same_version = ground arith;
    }
  ]
]

module _ (hold_id : ℕ) (q : Claim) (now : ℤ) (l : Ledger) (valid : IsValid l) where
  pub settle_write-Commits :
      (tx_id : ℕ) (actual_cost : ℤ)
      → Commits (settle_write tx_id hold_id q actual_cost now l) l (λ new l'.
        (c : Credits) × Hits q.account_id q.version l c
        × (new ≡ add64 q.balance (sub64 q.amount actual_cost))
        × (pos 0 ≤ℤ new)
        × (l' ≡ charged tx_id hold_id q actual_cost new (sub64 q.held q.amount) now l))
  unfolding settle_write
  settle_write-Commits tx_id actual_cost =
      let new_balance = add64 q.balance (sub64 q.amount actual_cost) in
      let new_held = sub64 q.held q.amount in
      elim (Bool-cases (ltb_ℤ new_balance (pos 0) || ltb_ℤ new_held (pos 0))) [
        | inl negative ↦ inl (rw negative)
        | inr enough ↦
            elim (Bool-cases (rows_affected (at_version q.account_id q.version) l.credits == 0)) [
              | inl lost ↦ inl (rw (enough, lost))
              | inr hit ↦ elim (Bool-cases (is_some (transaction_row tx_id l))) [
                | inl taken ↦ inr (inl (rw (enough, hit, taken)))
                | inr fresh ↦
                    let (c, found, same) = hit-row q.account_id q.version l valid hit in
                    inr (
                      inr (
                        _,
                        _,
                        rw (enough, hit, fresh),
                        (c, (found, same), refl, ground arith, refl),
                      ))
              ]
            ]
      ]

  pub release_write-Commits : Commits (release_write hold_id q now l) l (λ new l'.
      (c : Credits) × Hits q.account_id q.version l c
      × (new ≡ add64 q.balance q.amount)
      × (l' ≡ close_hold hold_id HoldStatus.released q new (sub64 q.held q.amount) now l))
  unfolding release_write
  release_write-Commits =
      elim (Bool-cases (rows_affected (at_version q.account_id q.version) l.credits == 0)) [
        | inl lost ↦ inl (rw lost)
        | inr hit ↦
            let (c, found, same) = hit-row q.account_id q.version l valid hit in
            inr (inr (_, _, rw hit, (c, (found, same), refl, refl)))
      ]
