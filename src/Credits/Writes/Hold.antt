-- ===== src/Credits/Writes/Hold.antt =====
-- crates/storage/src/repo/credits.rs: the second phase of `place_hold` commits or changes nothing,
-- and keeps the invariant.
use token_hub.Prelude.{ℕ, Option, none, ◌≡◌, refl, inl, inr, arith, Bool-cases, is_some, ◌==◌}
use token_hub.Prelude.Int.{ℤ, pos, ◌≤ℤ◌, int_laws}
use token_hub.Prelude.I64.{add64}
use token_hub.Prelude.Table.{rows_affected, insert-Unique}
use token_hub.Domain.Account.{Credits}
use token_hub.Credits.Ledger.{Ledger, hold_row, at_version}
use token_hub.Credits.Sums.{held_sum-insert_self, held_sum-insert_ne, IsCharge}
use token_hub.Credits.Invariant.{IsValid, HasOwner, hit-row, written-IsValid, All-append}
use token_hub.Credits.Hold.{hold_write, held_back, new_hold}
use token_hub.Credits.Writes.Common.{Commits, Hits, in_range}

module _ (hold_id a : ℕ) (amount version : ℤ) (request_id : Option ℕ) (now : ℤ) (l : Ledger)
    (valid : IsValid l) where
  pub hold_write-Commits : Commits (hold_write hold_id a amount version request_id now l) l (λ x l'.
      (c : Credits) × Hits a version l c
      × (x ≡ (hold_id, add64 version (pos 1)))
      × (hold_row hold_id l ≡ none)
      × (l' ≡ held_back hold_id a amount version request_id now l))
  unfolding hold_write
  hold_write-Commits = elim (Bool-cases (rows_affected (at_version a version) l.credits == 0)) [
    | inl lost ↦ inl (rw lost)
    | inr hit ↦ elim (Bool-cases (is_some (hold_row hold_id l))) [
      | inl taken ↦ inr (inl (rw (hit, taken)))
      | inr fresh ↦
          let (c, found, same) = hit-row a version l valid hit in
          inr (inr (_, _, rw (hit, fresh), (c, (found, same), refl, ground arith, refl)))
    ]
  ]

  pub held_back-IsValid :
      (c : Credits)
      → Hits a version l c
      → pos 0 ≤ℤ amount
      → amount ≤ℤ c.balance
      → hold_row hold_id l ≡ none
      → IsValid (held_back hold_id a amount version request_id now l)
  held_back-IsValid c (found, same) charge cover fresh =
      let old = valid.sound a c found in
      let range = in_range a c l valid found in
      let h = new_hold hold_id a amount request_id now in
      written-IsValid a version _ (λ d. refl) _ l.transactions l c valid found same
        (insert-Unique (λ g. g.id) h l.holds fresh valid.hold_ids)
        (All-append IsCharge l.holds h valid.charges charge)
        (All-append (HasOwner l.credits) l.holds h valid.owners (rw found))
        (λ b other. held_sum-insert_ne b h l.holds other) (λ b other. refl)
        (record {
          solvent = omega int_laws;
          backed = rw (held_sum-insert_self a h l.holds refl refl, ← old.backed);
          audited = rw (← old.audited) (omega int_laws);
          fits = let fits = old.fits in omega int_laws;
        })
