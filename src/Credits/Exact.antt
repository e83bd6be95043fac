-- ===== src/Credits/Exact.antt =====
-- crates/storage/src/repo/credits.rs: which adjustments are accepted, and what they leave.
use token_hub.Prelude.{ℕ, String, Option, none, some, ok, ◌≡◌, refl, ap, arith, true}
use token_hub.Prelude.Int.{
  ℤ, pos, pos_part, ◌+ℤ◌, ◌≤ℤ◌, ◌<ℤ◌, ltb_ℤ, int_bounds, parts_disjoint, eq_of_parts,
  ltb_ℤ-zero_of_le, ltb_ℤ-zero_of_lt,
}
use token_hub.Prelude.I64.{IsI64, i64_max, add64, wrap64, wrap64_id, wrap64_over}
use token_hub.Domain.Account.{Credits}
use token_hub.Credits.Ledger.{Ledger, credits_row, transaction_row}
use token_hub.Credits.Invariant.{IsValid, row-hit, written_row_self}
use token_hub.Credits.Writes.{in_range}
use token_hub.Credits.Adjust.{adjust, adjust_write, adjusted}
use token_hub.Credits.Lifecycle.{Shows}

module _ (tx_id a : ℕ) (delta : ℤ) (reason operator : Option String) (now : ℤ) (l : Ledger)
    (c : Credits) (valid : IsValid l) (found : credits_row a l ≡ some c)
    (fresh : transaction_row tx_id l ≡ none) (small : IsI64 delta) where
  over_max : i64_max <ℤ c.balance +ℤ delta → ltb_ℤ (add64 c.balance delta) (pos 0) ≡ true
  over_max over =
      let range = in_range a c l valid found in
      let n = pos_part (c.balance +ℤ delta) in
      let d = parts_disjoint (c.balance +ℤ delta) in
      let whole : c.balance +ℤ delta ≡ pos n = eq_of_parts _ _ (omega arith) in
      rw (ap wrap64 whole) (wrap64_over n (omega arith) (omega int_bounds))

  below_zero : c.balance +ℤ delta <ℤ pos 0 → ltb_ℤ (add64 c.balance delta) (pos 0) ≡ true
  below_zero under =
      let range = in_range a c l valid found in
      let d = parts_disjoint (c.balance +ℤ delta) in
      let same : add64 c.balance delta ≡ c.balance +ℤ delta =
        wrap64_id _ (omega arith, omega int_bounds) in
      rw same (ltb_ℤ-zero_of_lt _ under)

  -- An adjustment is accepted exactly if the new balance lies between 0 and the largest number of
  -- 64 bits; the balance is then the exact sum, and the held amount is as it was. Any other, also
  -- one whose sum wraps around, changes nothing. The tables are valid, the account exists, the
  -- transaction's identifier is new, and the amount is a 64-bit number.
  pub adjust_exact :
      let (r, l') = adjust tx_id a delta reason operator now l in
      let new = c.balance +ℤ delta in
      (pos 0 ≤ℤ new → new ≤ℤ i64_max → (r ≡ ok (some new)) × Shows a new c.held l')
      × (new <ℤ pos 0 → (r ≡ ok none) × (l' ≡ l))
      × (i64_max <ℤ new → (r ≡ ok none) × (l' ≡ l))
  unfolding adjust adjust_write
  adjust_exact =
      (accepted, (λ under. refused (below_zero under)), (λ over. refused (over_max over)))
    where
      refused :
          ltb_ℤ (add64 c.balance delta) (pos 0) ≡ true
          → ((adjust tx_id a delta reason operator now l).0 ≡ ok none)
            × ((adjust tx_id a delta reason operator now l).1 ≡ l)
      refused negative = rw (found, adjust, adjust_write, negative) (refl, refl)

      accepted :
          pos 0 ≤ℤ c.balance +ℤ delta
          → c.balance +ℤ delta ≤ℤ i64_max
          → ((adjust tx_id a delta reason operator now l).0 ≡ ok (some (c.balance +ℤ delta)))
            × Shows a (c.balance +ℤ delta) c.held (adjust tx_id a delta reason operator now l).1
      accepted enough fits =
          let d = parts_disjoint (c.balance +ℤ delta) in
          let same : add64 c.balance delta ≡ c.balance +ℤ delta =
            wrap64_id _ (omega arith, omega arith) in
          let hit = row-hit a c.version l c valid found refl in
          let f : Credits → Credits = λ b. record b {
            balance = c.balance +ℤ delta;
            version = add64 c.version (pos 1);
            updated_at = now;
          } in
          rw
            (
              found,
              adjust,
              adjust_write,
              same,
              ltb_ℤ-zero_of_le (c.balance +ℤ delta) enough,
              hit,
              fresh,
            )
            (
              refl,
              (
                f c,
                written_row_self a c.version f (λ b. refl) l.holds
                    (adjusted tx_id a delta (c.balance +ℤ delta) c.version reason operator now
                      l).transactions
                    l c found refl,
                refl,
                refl,
              ),
            )
