-- ===== src/Credits/Writes/Adjust.antt =====
-- crates/storage/src/repo/credits.rs: the second phase of `adjust` commits or changes nothing, and
-- keeps the invariant.
use token_hub.Prelude.{ℕ, String, Option, ◌≡◌, refl, inl, inr, arith, Bool-cases, is_some, ◌==◌}
use token_hub.Prelude.Int.{ℤ, pos, ◌+ℤ◌, ◌≤ℤ◌, ltb_ℤ, int_laws, +ℤ_bounds, parts_disjoint}
use token_hub.Prelude.I64.{IsI64, i64_max, wrap64_nonneg, add64}
use token_hub.Prelude.Table.{rows_affected}
use token_hub.Domain.Account.{Credits}
use token_hub.Credits.Ledger.{Ledger, transaction_row, at_version}
use token_hub.Credits.Sums.{delta_sum-insert_self, delta_sum-insert_ne}
use token_hub.Credits.Invariant.{IsValid, hit-row, written-IsValid}
use token_hub.Credits.Adjust.{adjust_write, adjusted, adjustment}
use token_hub.Credits.Writes.Common.{Commits, Hits, in_range}

module _ (tx_id a : ℕ) (delta balance version : ℤ) (reason operator : Option String) (now : ℤ)
    (l : Ledger) (valid : IsValid l) where
  pub adjust_write-Commits :
      Commits (adjust_write tx_id a delta balance version reason operator now l) l (λ new l'.
        (c : Credits) × Hits a version l c
        × (new ≡ add64 balance delta)
        × (pos 0 ≤ℤ new)
        × (l' ≡ adjusted tx_id a delta new version reason operator now l))
  unfolding adjust_write
  adjust_write-Commits = elim (Bool-cases (ltb_ℤ (add64 balance delta) (pos 0))) [
    | inl negative ↦ inl (rw negative)
    | inr enough ↦ elim (Bool-cases (rows_affected (at_version a version) l.credits == 0)) [
      | inl lost ↦ inl (rw (enough, lost))
      | inr hit ↦ elim (Bool-cases (is_some (transaction_row tx_id l))) [
        | inl taken ↦ inr (inl (rw (enough, hit, taken)))
        | inr fresh ↦
            let (c, found, same) = hit-row a version l valid hit in
            inr (inr (_, _, rw (enough, hit, fresh), (c, (found, same), refl, ground arith, refl)))
      ]
    ]
  ]

  pub adjusted-IsValid :
      (c : Credits)
      → Hits a version l c
      → IsI64 delta
      → pos 0 ≤ℤ add64 c.balance delta
      → c.balance +ℤ c.held +ℤ delta ≤ℤ i64_max
      → IsValid (adjusted tx_id a delta (add64 c.balance delta) version reason operator now l)
  adjusted-IsValid c (found, same) small enough room =
      let old = valid.sound a c found in
      let range = in_range a c l valid found in
      let bounds = +ℤ_bounds c.balance delta in
      let zero_neg = parts_disjoint (add64 c.balance delta) in
      let exact : add64 c.balance delta ≡ c.balance +ℤ delta =
        wrap64_nonneg _ (omega arith) (omega arith) (omega arith) in
      let t = adjustment tx_id a delta (add64 c.balance delta) reason operator now in
      written-IsValid a version _ (λ d. refl) l.holds _ l c valid found same valid.hold_ids
        valid.charges valid.owners (λ b other. refl)
        (λ b other. delta_sum-insert_ne b t l.transactions other)
        (record {
          solvent = enough;
          backed = old.backed;
          audited =
              rw (delta_sum-insert_self a t l.transactions refl, exact, ← old.audited)
                (omega int_laws);
          fits = rw exact (omega int_laws);
        })
