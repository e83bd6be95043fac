-- ===== src/Router/Selector/Pieces.antt =====
-- crates/router-llm/src/selector.rs: what the pieces of the selection do to a list of candidates.
use token_hub.Prelude.{
  ℕ, zero, suc, ◌+◌, ◌<◌, Option, some, List, [], ◌∷◌, ◌++◌, length, All, ◌≡◌, ◌⊎◌, inl, inr, refl,
  arith, Bool-cases, ap,
}
use mathlib.Core.List.{Perm}
use mathlib.Core.List.Perm
use token_hub.Prelude.Int.{ℤ, pos, ◌≤ℤ◌, ltb_ℤ, eqb_ℤ}
use token_hub.Prelude.I64.{sub64}
use token_hub.Prelude.Sort.{Pairwise, All-imp}
use token_hub.Router.Selector.{RouteCandidate, chosen, share, remove, take_group}

abbrev pub Levels : RouteCandidate → RouteCandidate → Type 0
Levels a b = a.level ≤ℤ b.level

-- The index is 0, or that of an element.
pub chosen-lt :
    (i : ℕ) (pick : ℤ) (items : List RouteCandidate)
    → (chosen i pick items ≡ 0) ⊎ (chosen i pick items < i + length items)
chosen-lt i pick [] = inl refl
chosen-lt i pick (c ∷ items) = elim (Bool-cases (ltb_ℤ (sub64 pick (share c)) (pos 0))) [
  | inl here ↦ rw here (inr (omega arith))
  | inr later ↦ rw later (elim (chosen-lt (suc i) (sub64 pick (share c)) items) [
    | inl z ↦ inl z
    | inr lt ↦ inr (omega arith)
  ])
]

pub record Removed (P : RouteCandidate → Type 0) (i : ℕ) (items : List RouteCandidate)
    : Type 0 where
  pub item : RouteCandidate
  pub rest : List RouteCandidate
  pub done : remove i items ≡ some (item, rest)
  pub same : Perm (item ∷ rest) items
  pub less : length rest < length items
  pub good : P item
  pub others : All P rest

module _ {P : RouteCandidate → Type 0} where
  pub remove_lem :
      (i : ℕ) (items : List RouteCandidate) → i < length items → All P items → Removed P i items
  remove_lem i [] lt h = absurd (omega arith)
  remove_lem zero (c ∷ items) lt h = record {
    item = c;
    rest = items;
    done = refl;
    same = Perm.refl (c ∷ items);
    less = omega arith;
    good = h.0;
    others = h.1;
  }
  remove_lem (suc i) (c ∷ items) lt h =
      let r = remove_lem i items (omega arith) h.1 in
      record {
        item = r.item;
        rest = c ∷ r.rest;
        done = rw r.done;
        same = Perm.trans (Perm.swap c r.item r.rest) (Perm.cons c r.same);
        less = let fewer = r.less in omega arith;
        good = r.good;
        others = (h.0, r.others);
      }

pub All-and :
    (P Q : RouteCandidate → Type 0) (xs : List RouteCandidate)
    → All P xs
    → All Q xs
    → All (λ x. P x × Q x) xs
All-and P Q [] h k = tt
All-and P Q (x ∷ xs) h k = ((h.0, k.0), All-and P Q xs h.1 k.1)

pub All-unit : (xs : List RouteCandidate) → All (λ c. Unit {0}) xs
All-unit [] = tt
All-unit (x ∷ xs) = (tt, All-unit xs)

pub Pairwise-imp :
    {R Q : RouteCandidate → RouteCandidate → Type 0} (xs : List RouteCandidate)
    → ((a b : RouteCandidate) → R a b → Q a b)
    → Pairwise R xs
    → Pairwise Q xs
Pairwise-imp [] step h = tt
Pairwise-imp (x ∷ xs) step h = (All-imp xs (step x) h.0, Pairwise-imp xs step h.1)

-- A reordering, with the state of the generator after it.
pub record Reordered {S : Type 0} (P : RouteCandidate → Type 0)
    (r : Option (List RouteCandidate × S)) (items : List RouteCandidate) : Type 0 where
  pub result : List RouteCandidate
  pub last : S
  pub done : r ≡ some (result, last)
  pub same : Perm result items
  pub good : All P result

pub take_group_lem :
    (level : ℤ) (P : RouteCandidate → Type 0) (sorted : List RouteCandidate)
    → All P sorted
    → let (group, rest) = take_group level sorted in
      (group ++ rest ≡ sorted) × All (λ c. (c.level ≡ level) × P c) group × All P rest
take_group_lem level P [] h = (refl, tt, tt)
take_group_lem level P (c ∷ sorted) h =
    let (whole, good, others) = take_group_lem level P sorted h.1 in
    elim (Bool-cases (eqb_ℤ c.level level)) [
      | inl here ↦ rw here (ap (λ l. c ∷ l) whole, ((ground arith, h.0), good), others)
      | inr past ↦ rw past (refl, tt, h)
    ]

pub Pairwise-suffix :
    (xs ys : List RouteCandidate) → Pairwise Levels (xs ++ ys) → Pairwise Levels ys
Pairwise-suffix [] ys h = h
Pairwise-suffix (x ∷ xs) ys h = Pairwise-suffix xs ys h.1

-- Elements of one level are in order, however they stand.
pub level-Pairwise :
    (level : ℤ) (xs : List RouteCandidate) → All (λ c. c.level ≡ level) xs → Pairwise Levels xs
level-Pairwise level [] h = tt
level-Pairwise level (x ∷ xs) h = (
  All-imp xs (λ c (e : c.level ≡ level). rw (h.0, e) (omega arith)) h.1,
  level-Pairwise level xs h.1,
)

pub level-le :
    (level : ℤ) (xs ys : List RouteCandidate)
    → All (λ c. c.level ≡ level) xs
    → All (λ c. level ≤ℤ c.level) ys
    → All (λ x. All (Levels x) ys) xs
level-le level xs ys h k = All-imp xs (λ c e. rw e k) h
