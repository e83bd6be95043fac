-- ===== src/Credits/Writes/Close.antt =====
-- crates/storage/src/repo/credits.rs: closing a hold, by `settle_hold` or `release_hold`, computes
-- without overflow and keeps the invariant.
use token_hub.Prelude.{ℕ, ◌+◌, ◌<◌, ◌^◌, false, List, ◌≡◌, ◌≢◌, refl, arith, ◌∙◌}
use token_hub.Prelude.Int.{
  ℤ, pos, ◌+ℤ◌, ◌-ℤ◌, ◌≤ℤ◌, int_laws, int_bounds, pos_part, neg_part, parts_disjoint, +ℤ_cancel,
}
use token_hub.Prelude.I64.{IsI64, i64_max, add64, sub64, wrap64_id}
use token_hub.Prelude.Table.{update_where-Unique}
use token_hub.Domain.Account.{HoldStatus, CreditTransaction}
use token_hub.Credits.Ledger.{Ledger, is_held}
use token_hub.Credits.Sums.{
  delta_sum, held_sum-close_self, held_sum-close_ne, delta_sum-insert_self, delta_sum-insert_ne,
  IsCharge, open-le-held_sum, is_id, closed,
}
use token_hub.Credits.Invariant.{IsValid, HasOwner, written-IsValid, row-All, All-update}
use token_hub.Credits.Settle.{Claim, close_hold, charged, charge}
use token_hub.Credits.Writes.Common.{in_range}
use token_hub.Credits.Writes.Settle.{IsClaim}

-- The four amounts of a claim: none is negative, and no sum of them overflows.
pub record Amounts (q : Claim) : Type 0 where
  pub charge : neg_part q.amount ≡ 0
  pub solvent : neg_part q.balance ≡ 0
  pub covered : q.amount ≤ℤ q.held
  pub backed : neg_part q.held ≡ 0
  pub fits : pos_part q.balance + pos_part q.held < 2 ^ 63

module _ (hold_id : ℕ) (q : Claim) (l : Ledger) (valid : IsValid l)
    (claim : IsClaim hold_id q l) where
  pub amounts : Amounts q
  amounts =
      let h = claim.hold in
      let c = claim.account in
      let range = in_range q.account_id c l valid claim.account_found in
      let positive : pos 0 ≤ℤ h.amount =
        row-All (λ g. g.id) IsCharge hold_id l.holds h valid.charges claim.hold_found in
      let part =
        open-le-held_sum q.account_id hold_id h l.holds valid.charges claim.hold_found
          claim.same_account claim.open_hold in
      let backed = (valid.sound q.account_id c claim.account_found).backed in
      let disjoint = parts_disjoint h.amount in
      record {
        charge = rw (← claim.same_amount) (omega arith);
        solvent = rw (← claim.same_balance) range.solvent;
        covered = rw (← claim.same_held, ← claim.same_amount, backed) part;
        backed = rw (← claim.same_held) range.backed;
        fits = rw (← claim.same_held, ← claim.same_balance) range.fits;
      }

  pub close-IsValid :
      (status : HoldStatus) (balance held now : ℤ) (ts : List CreditTransaction)
      → is_held status ≡ false
      → pos 0 ≤ℤ balance
      → held +ℤ q.amount ≡ q.held
      → ((b : ℕ) → b ≢ q.account_id → delta_sum b ts ≡ delta_sum b l.transactions)
      → balance +ℤ held ≡ delta_sum q.account_id ts
      → balance +ℤ held ≤ℤ i64_max
      → IsValid (record (close_hold hold_id status q balance held now l) { transactions = ts })
  close-IsValid status balance held now ts done enough less kept audited fits =
      let h = claim.hold in
      let c = claim.account in
      let old = valid.sound q.account_id c claim.account_found in
      let f = closed status now in
      let self =
        held_sum-close_self q.account_id hold_id status now h l.holds done valid.hold_ids
          claim.hold_found claim.same_account claim.open_hold in
      written-IsValid q.account_id q.version _ (λ d. refl) _ ts l c valid claim.account_found
        claim.same_version
        (update_where-Unique (λ g. g.id) (is_id hold_id) f (λ g. refl) l.holds valid.hold_ids)
        (All-update {P = IsCharge} (is_id hold_id) f l.holds (λ g p. p) valid.charges)
        (All-update {P = HasOwner l.credits} (is_id hold_id) f l.holds (λ g o. o) valid.owners)
        (λ b other.
          held_sum-close_ne b hold_id status now h l.holds done valid.hold_ids claim.hold_found
            (rw claim.same_account other))
        kept
        (record {
          solvent = enough;
          backed =
              +ℤ_cancel _ _ q.amount
                (cc (self, less, old.backed, claim.same_amount, claim.same_held));
          audited = audited;
          fits = fits;
        })

  -- In a release nothing wraps around.
  pub release_exact :
      (add64 q.balance q.amount ≡ q.balance +ℤ q.amount)
      × (sub64 q.held q.amount ≡ q.held -ℤ q.amount)
  release_exact =
      let a = amounts in (wrap64_id _ (omega int_bounds), wrap64_id _ (omega int_bounds))

  -- Nor in a settlement, at a cost of at least 0.
  pub settle_exact :
      (cost : ℤ)
      → IsI64 cost
      → pos 0 ≤ℤ cost
      → (add64 q.balance (sub64 q.amount cost) ≡ q.balance +ℤ q.amount -ℤ cost)
        × (sub64 q.held q.amount ≡ q.held -ℤ q.amount)
        × (sub64 (pos 0) cost ≡ pos 0 -ℤ cost)
  settle_exact cost small positive =
      let a = amounts in
      let d = parts_disjoint cost in
      let refund : sub64 q.amount cost ≡ q.amount -ℤ cost = wrap64_id _ (omega int_bounds) in
      (
        rw refund (wrap64_id _ (omega int_bounds) ∙ omega int_laws),
        wrap64_id _ (omega int_bounds),
        wrap64_id _ (omega int_bounds),
      )

  -- A settlement at a cost that the account can bear keeps the invariant.
  pub charged-IsValid :
      (tx_id : ℕ) (cost now : ℤ)
      → IsI64 cost
      → pos 0 ≤ℤ cost
      → pos 0 ≤ℤ add64 q.balance (sub64 q.amount cost)
      → IsValid (
          charged tx_id hold_id q cost
            (add64 q.balance (sub64 q.amount cost))
            (sub64 q.held q.amount)
            now
            l)
  charged-IsValid tx_id cost now small positive enough =
      let a = amounts in
      let old = valid.sound q.account_id claim.account claim.account_found in
      let (new, rest, delta) = settle_exact cost small positive in
      let t = charge tx_id q.account_id cost (add64 q.balance (sub64 q.amount cost)) now in
      close-IsValid HoldStatus.settled _ _ now _ refl enough (rw rest (omega int_laws))
        (λ b other. delta_sum-insert_ne b t l.transactions other)
        (rw
          (
            delta_sum-insert_self q.account_id t l.transactions refl,
            ← old.audited,
            claim.same_balance,
            claim.same_held,
            new,
            rest,
            delta,
          )
          (omega int_laws))
        (rw (new, rest) (omega int_bounds))

  -- A release keeps the invariant.
  pub released-IsValid :
      (now : ℤ)
      → IsValid (
          close_hold hold_id HoldStatus.released q
            (add64 q.balance q.amount)
            (sub64 q.held q.amount)
            now
            l)
  released-IsValid now =
      let a = amounts in
      let old = valid.sound q.account_id claim.account claim.account_found in
      let (new, rest) = release_exact in
      close-IsValid HoldStatus.released _ _ now l.transactions refl (rw new (omega int_bounds))
        (rw rest (omega int_laws)) (λ b other. refl)
        (rw (← old.audited, claim.same_balance, claim.same_held, new, rest) (omega int_laws))
        (rw (new, rest) (omega int_bounds))
