-- ===== src/Credits/Sums.antt =====
-- The amount that the open holds of an account add up to, and the sum of its transactions: how
-- each statement of crates/storage/src/repo/credits.rs changes them.
use token_hub.Prelude.{
  ℕ, Bool, true, false, none, some, List, [], ◌∷◌, ◌++◌, ◌≡◌, ◌≢◌, refl, arith, All, if◌then◌else◌,
  ◌==◌,
}
use token_hub.Prelude.Int.{ℤ, pos, ◌+ℤ◌, ◌≤ℤ◌, int_laws}
use token_hub.Prelude.Table.{row, update_where, Unique}
use token_hub.Domain.Account.{CreditHold, HoldStatus, CreditTransaction}
use token_hub.Credits.Ledger.{is_held}

-- What one hold counts for.
abbrev pub held_amount : ℕ → CreditHold → ℤ
held_amount a h =
    if h.account_id == a then (if is_held h.status then h.amount else pos 0) else pos 0

abbrev pub held_sum : ℕ → List CreditHold → ℤ
held_sum a [] = pos 0
held_sum a (h ∷ holds) = held_amount a h +ℤ held_sum a holds

abbrev pub delta_of : ℕ → CreditTransaction → ℤ
delta_of a t = if t.account_id == a then t.delta else pos 0

abbrev pub delta_sum : ℕ → List CreditTransaction → ℤ
delta_sum a [] = pos 0
delta_sum a (t ∷ ts) = delta_of a t +ℤ delta_sum a ts

held_sum-insert :
    (a : ℕ) (h : CreditHold) (holds : List CreditHold)
    → held_sum a (holds ++ h ∷ []) ≡ held_sum a holds +ℤ held_amount a h
held_sum-insert a h [] = omega int_laws
held_sum-insert a h (g ∷ holds) = rw (held_sum-insert a h holds) (omega int_laws)

delta_sum-insert :
    (a : ℕ) (t : CreditTransaction) (ts : List CreditTransaction)
    → delta_sum a (ts ++ t ∷ []) ≡ delta_sum a ts +ℤ delta_of a t
delta_sum-insert a t [] = omega int_laws
delta_sum-insert a t (s ∷ ts) = rw (delta_sum-insert a t ts) (omega int_laws)

-- An insertion counts for its own account, and for no other.
module _ (a : ℕ) (h : CreditHold) (holds : List CreditHold) where
  pub held_sum-insert_self :
      h.account_id ≡ a
      → is_held h.status ≡ true
      → held_sum a (holds ++ h ∷ []) ≡ held_sum a holds +ℤ h.amount
  held_sum-insert_self here open_hold = grind (int_laws, held_sum-insert a h holds)

  pub held_sum-insert_ne : a ≢ h.account_id → held_sum a (holds ++ h ∷ []) ≡ held_sum a holds
  held_sum-insert_ne other = grind (int_laws, held_sum-insert a h holds)

module _ (a : ℕ) (t : CreditTransaction) (ts : List CreditTransaction) where
  pub delta_sum-insert_self :
      t.account_id ≡ a → delta_sum a (ts ++ t ∷ []) ≡ delta_sum a ts +ℤ t.delta
  delta_sum-insert_self here = grind (int_laws, delta_sum-insert a t ts)

  pub delta_sum-insert_ne : a ≢ t.account_id → delta_sum a (ts ++ t ∷ []) ≡ delta_sum a ts
  delta_sum-insert_ne other = grind (int_laws, delta_sum-insert a t ts)

abbrev pub is_id : ℕ → CreditHold → Bool
is_id k h = h.id == k

abbrev pub closed : HoldStatus → ℤ → CreditHold → CreditHold
closed status now h = record h { status = status; settled_at = some now }

-- A hold that is not in the table is closed by nothing.
update_where_absent :
    (k : ℕ) (status : HoldStatus) (now : ℤ) (holds : List CreditHold)
    → row (λ h. h.id) k holds ≡ none
    → update_where (is_id k) (closed status now) holds ≡ holds
update_where_absent k status now [] e = refl
update_where_absent k status now (h ∷ holds) e =
    ground (arith, update_where_absent k status now holds)

-- Closing an open hold takes exactly its amount off the sum of its account, and of no other.
held_sum-close :
    (a k : ℕ) (status : HoldStatus) (now : ℤ) (h : CreditHold) (holds : List CreditHold)
    → is_held status ≡ false
    → Unique (λ g. g.id) holds
    → row (λ g. g.id) k holds ≡ some h
    → held_sum a (update_where (is_id k) (closed status now) holds) +ℤ held_amount a h
      ≡ held_sum a holds
held_sum-close a k status now h [] done u e = cc
held_sum-close a k status now h (g ∷ holds) done u e = grind (
  int_laws,
  update_where_absent k status now holds,
  held_sum-close a k status now h holds done u.1,
)

-- Closing an open hold takes its amount off its own account, and leaves the others.
module _ (a k : ℕ) (status : HoldStatus) (now : ℤ) (h : CreditHold) (holds : List CreditHold)
    (done : is_held status ≡ false) (ids : Unique (λ g. g.id) holds)
    (found : row (λ g. g.id) k holds ≡ some h) where
  pub held_sum-close_self :
      h.account_id ≡ a
      → is_held h.status ≡ true
      → held_sum a (update_where (is_id k) (closed status now) holds) +ℤ h.amount ≡ held_sum a holds
  held_sum-close_self here open_hold =
      grind (int_laws, held_sum-close a k status now h holds done ids found)

  pub held_sum-close_ne :
      a ≢ h.account_id
      → held_sum a (update_where (is_id k) (closed status now) holds) ≡ held_sum a holds
  held_sum-close_ne other = grind (int_laws, held_sum-close a k status now h holds done ids found)

abbrev pub IsCharge : CreditHold → Type 0
IsCharge h = pos 0 ≤ℤ h.amount

pub held_sum_nonneg :
    (a : ℕ) (holds : List CreditHold) → All IsCharge holds → pos 0 ≤ℤ held_sum a holds
held_sum_nonneg a [] c = omega arith
held_sum_nonneg a (h ∷ holds) c = grind (int_laws, held_sum_nonneg a holds c.1)

-- An open hold is part of the sum of its account.
amount-le-held_sum :
    (a k : ℕ) (h : CreditHold) (holds : List CreditHold)
    → All IsCharge holds
    → row (λ g. g.id) k holds ≡ some h
    → held_amount a h ≤ℤ held_sum a holds
amount-le-held_sum a k h [] c e = cc
amount-le-held_sum a k h (g ∷ holds) c e =
    grind (int_laws, held_sum_nonneg a holds c.1, amount-le-held_sum a k h holds c.1)

pub open-le-held_sum :
    (a k : ℕ) (h : CreditHold) (holds : List CreditHold)
    → All IsCharge holds
    → row (λ g. g.id) k holds ≡ some h
    → h.account_id ≡ a
    → is_held h.status ≡ true
    → h.amount ≤ℤ held_sum a holds
open-le-held_sum a k h holds c found here open_hold =
    grind (int_laws, amount-le-held_sum a k h holds c found)
