-- ===== src/Credits/Queries.antt =====
-- crates/storage/src/repo/credits.rs: `transactions` and `active_holds`. Rows of one time stay in the
-- order in which they were inserted.
use token_hub.Prelude.{
  ℕ, Bool, false, List, [], ◌∷◌, ◌≡◌, ◌∙◌, some, refl, sym, inl, inr, keep, Bool-cases,
  if◌then◌else◌, ◌==◌,
}
use token_hub.Prelude.Int.{ℤ, pos, ◌+ℤ◌, leb_ℤ, int_laws}
use token_hub.Prelude.Page.{page}
use token_hub.Prelude.Sort.{sort_by, insert_by}
use token_hub.Domain.Account.{Credits, CreditHold, CreditTransaction}
use token_hub.Credits.Ledger.{Ledger, credits_row, is_held}
use token_hub.Credits.Sums.{held_sum}
use token_hub.Credits.Invariant.{IsValid}

unfoldable pub transactions : ℕ → (limit offset : ℤ) → Ledger → List CreditTransaction
transactions account_id limit offset l = page limit offset (
    sort_by (λ t u. leb_ℤ u.created_at t.created_at)
      (keep (λ t. t.account_id == account_id) l.transactions))

abbrev pub earlier : CreditHold → CreditHold → Bool
earlier g h = leb_ℤ g.created_at h.created_at

abbrev pub is_open : ℕ → CreditHold → Bool
is_open account_id h = if h.account_id == account_id then is_held h.status else false

unfoldable pub active_holds : ℕ → Ledger → List CreditHold
active_holds account_id l = sort_by earlier (keep (is_open account_id) l.holds)

-- What the amounts of some holds add up to.
abbrev pub amount_sum : List CreditHold → ℤ
amount_sum [] = pos 0
amount_sum (h ∷ holds) = h.amount +ℤ amount_sum holds

amount_sum-insert_by :
    (h : CreditHold) (holds : List CreditHold)
    → amount_sum (insert_by earlier h holds) ≡ h.amount +ℤ amount_sum holds
amount_sum-insert_by h [] = refl
amount_sum-insert_by h (g ∷ holds) = elim (Bool-cases (earlier h g)) [
  | inl first ↦ rw first
  | inr later ↦ rw (later, amount_sum-insert_by h holds) (omega int_laws)
]

amount_sum-sort_by :
    (holds : List CreditHold) → amount_sum (sort_by earlier holds) ≡ amount_sum holds
unfolding sort_by
amount_sum-sort_by [] = refl
amount_sum-sort_by (h ∷ holds) =
    amount_sum-insert_by h (sort_by earlier holds) ∙ rw (amount_sum-sort_by holds)

amount_sum-keep :
    (a : ℕ) (holds : List CreditHold) → amount_sum (keep (is_open a) holds) ≡ held_sum a holds
amount_sum-keep a [] = refl
amount_sum-keep a (h ∷ holds) = elim (Bool-cases (h.account_id == a)) [
  | inl here ↦ elim (Bool-cases (is_held h.status)) [
    | inl open_hold ↦ rw (here, open_hold, amount_sum-keep a holds)
    | inr over ↦ rw (here, over, amount_sum-keep a holds) (omega int_laws)
  ]
  | inr other ↦ rw (other, amount_sum-keep a holds) (omega int_laws)
]

-- What an account shows as held is what its active holds add up to, as `active_holds` lists them.
pub active_holds-held :
    (a : ℕ) (c : Credits) (l : Ledger)
    → IsValid l
    → credits_row a l ≡ some c
    → amount_sum (active_holds a l) ≡ c.held
unfolding active_holds
active_holds-held a c l valid found =
    amount_sum-sort_by (keep (is_open a) l.holds)
    ∙ amount_sum-keep a l.holds
    ∙ sym (valid.sound a c found).backed
