-- ===== src/Credits/Writes/Common.antt =====
-- crates/storage/src/repo/credits.rs: how a transaction ends, and the range of a row's fields.
use token_hub.Prelude.{
  inl, inr, ℕ, ◌+◌, ◌^◌, ◌<◌, Option, none, some, ◌≡◌, ◌⊎◌, arith, DbResult, ok, failed,
}
use mathlib.Core.Path.{subst}
use token_hub.Prelude.Int.{ℤ, pos, ◌≤ℤ◌, int_laws, parts_disjoint, neg_part, pos_part}
use token_hub.Domain.Account.{Credits}
use token_hub.Credits.Ledger.{Ledger, credits_row}
use token_hub.Credits.Sums.{held_sum_nonneg}
use token_hub.Credits.Invariant.{IsValid}

-- No part of a sound row leaves the range of 64 bits.
pub record InRange (c : Credits) : Type 0 where
  pub solvent : neg_part c.balance ≡ 0
  pub backed : neg_part c.held ≡ 0
  pub fits : pos_part c.balance + pos_part c.held < 2 ^ 63

pub in_range : (a : ℕ) (c : Credits) (l : Ledger) → IsValid l → credits_row a l ≡ some c → InRange c
in_range a c l valid found =
    let s = valid.sound a c found in
    let held : pos 0 ≤ℤ c.held = rw s.backed (held_sum_nonneg a l.holds valid.charges) in
    let b = parts_disjoint c.balance in
    let h = parts_disjoint c.held in
    let positive = s.solvent in
    let fits = s.fits in
    record { solvent = omega arith; backed = omega arith; fits = omega int_laws }

-- All or nothing: a transaction rolls back with no result, fails and rolls back, or commits.
abbrev pub Commits :
    {A : Type 0} → DbResult (Option A) × Ledger → Ledger → (A → Ledger → Type 0) → Type 0
Commits {A} r l P =
    (r ≡ (ok none, l))
    ⊎ (r ≡ (failed, l))
    ⊎ ((x : A) × (l' : Ledger) × (r ≡ (ok (some x), l')) × P x l')

-- The row that the `UPDATE` has hit.
abbrev pub Hits : ℕ → ℤ → Ledger → Credits → Type 0
Hits a version l c = (credits_row a l ≡ some c) × (c.version ≡ version)

pub Commits-imp :
    {A : Type 0} {P Q : A → Ledger → Type 0} (r : DbResult (Option A) × Ledger) (l : Ledger)
    → ((x : A) (l' : Ledger) → P x l' → Q x l')
    → Commits r l P
    → Commits r l Q
Commits-imp r l step (inl e) = inl e
Commits-imp r l step (inr (inl e)) = inr (inl e)
Commits-imp r l step (inr (inr (x, l', e, p))) = inr (inr (x, l', e, step x l' p))

-- What a commit says, where the transaction is known to have committed.
pub Commits-inv :
    {A : Type 0} {P : A → Ledger → Type 0} (r : DbResult (Option A) × Ledger) (l : Ledger)
    → Commits r l P
    → {x : A} {l' : Ledger} → r ≡ (ok (some x), l')
    → P x l'
Commits-inv r l (inl e) h = absurd (ground (arith, e, h))
Commits-inv r l (inr (inl e)) h = absurd (ground (arith, e, h))
Commits-inv {P} r l (inr (inr (x, l', e, p))) {x = y} {l' = m} h =
    subst (λ z. P z m) (ground (arith, e, h)) (subst (P x) (ground (arith, e, h)) p)
