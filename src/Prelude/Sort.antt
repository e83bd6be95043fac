-- ===== src/Prelude/Sort.antt =====
-- `slice::sort_by`, the stable sort of Rust's library, by the test that an element may stand before
-- another; and lists in which every two elements are related.
use mathlib.Core.Bool.{Bool, true, false}
use mathlib.Core.Logic.{inl, inr}
use mathlib.Core.Path.{◌≡◌}
use mathlib.Core.List.{List, [], ◌∷◌, ◌++◌, Perm}
use mathlib.Core.List.Perm
use token_hub.Prelude.Tests.{if◌then◌else◌, Bool-cases}
use token_hub.Prelude.Lists.{All}

abbrev pub Pairwise {ℓ κ} : {A : Type ℓ} → (A → A → Type κ) → List A → Type κ
Pairwise R [] = Unit
Pairwise R (x ∷ xs) = All (R x) xs × Pairwise R xs

module _ {ℓ} {A : Type ℓ} where
  -- Before the first element that it may stand before.
  abbrev pub insert_by : (A → A → Bool) → A → List A → List A
  insert_by before x [] = x ∷ []
  insert_by before x (y ∷ ys) = if before x y then x ∷ y ∷ ys else y ∷ insert_by before x ys

  unfoldable pub sort_by : (A → A → Bool) → List A → List A
  sort_by before [] = []
  sort_by before (x ∷ xs) = insert_by before x (sort_by before xs)

  insert_by-perm :
      (before : A → A → Bool) (x : A) (ys : List A) → Perm (insert_by before x ys) (x ∷ ys)
  insert_by-perm before x [] = Perm.refl (x ∷ [])
  insert_by-perm before x (y ∷ ys) = elim (Bool-cases (before x y)) [
    | inl first ↦ rw first (Perm.refl (x ∷ y ∷ ys))
    | inr later ↦
        rw later (Perm.trans (Perm.cons y (insert_by-perm before x ys)) (Perm.swap x y ys))
  ]

  pub sort_by-perm : (before : A → A → Bool) (xs : List A) → Perm (sort_by before xs) xs
  unfolding sort_by
  sort_by-perm before [] = Perm.refl []
  sort_by-perm before (x ∷ xs) =
      Perm.trans (insert_by-perm before x (sort_by before xs))
        (Perm.cons x (sort_by-perm before xs))

  pub All-imp {κ} : {P Q : A → Type κ} (xs : List A) → ((x : A) → P x → Q x) → All P xs → All Q xs
  All-imp [] step h = tt
  All-imp (x ∷ xs) step h = (step x h.0, All-imp xs step h.1)

  All-insert_by {κ} :
      (P : A → Type κ) (before : A → A → Bool) (x : A) (ys : List A)
      → P x
      → All P ys
      → All P (insert_by before x ys)
  All-insert_by P before x [] p h = (p, tt)
  All-insert_by P before x (y ∷ ys) p h = elim (Bool-cases (before x y)) [
    | inl first ↦ rw first (p, h)
    | inr later ↦ rw later (h.0, All-insert_by P before x ys p h.1)
  ]

  module _ {κ} {R : A → A → Type κ} (before : A → A → Bool)
      (sound : (x y : A) → before x y ≡ true → R x y)
      (total : (x y : A) → before x y ≡ false → R y x)
      (trans : (x y z : A) → R x y → R y z → R x z) where
    insert_by-Pairwise : (x : A) (ys : List A) → Pairwise R ys → Pairwise R (insert_by before x ys)
    insert_by-Pairwise x [] h = (tt, tt)
    insert_by-Pairwise x (y ∷ ys) h = elim (Bool-cases (before x y)) [
      | inl first ↦
          let r = sound x y first in rw first ((r, All-imp ys (λ z. trans x y z r) h.0), h)
      | inr later ↦
          rw later
            (All-insert_by (R y) before x ys (total x y later) h.0, insert_by-Pairwise x ys h.1)
    ]

    pub sort_by-Pairwise : (xs : List A) → Pairwise R (sort_by before xs)
    unfolding sort_by
    sort_by-Pairwise [] = tt
    sort_by-Pairwise (x ∷ xs) = insert_by-Pairwise x (sort_by before xs) (sort_by-Pairwise xs)

  pub All-append {κ} : (P : A → Type κ) (xs ys : List A) → All P xs → All P ys → All P (xs ++ ys)
  All-append P [] ys h k = k
  All-append P (x ∷ xs) ys h k = (h.0, All-append P xs ys h.1 k)

  pub Pairwise-append {κ} :
      (R : A → A → Type κ) (xs ys : List A)
      → Pairwise R xs
      → Pairwise R ys
      → All (λ x. All (R x) ys) xs
      → Pairwise R (xs ++ ys)
  Pairwise-append R [] ys h k cross = k
  Pairwise-append R (x ∷ xs) ys h k cross =
      (All-append (R x) xs ys h.0 cross.0, Pairwise-append R xs ys h.1 k cross.1)
