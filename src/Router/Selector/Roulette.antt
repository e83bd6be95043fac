-- ===== src/Router/Selector/Roulette.antt =====
-- crates/router-llm/src/selector.rs: a draw picks the element in whose part of the wheel it falls.
use token_hub.Prelude.{
  ℕ, suc, ◌+◌, true, false, List, [], ◌∷◌, ◌++◌, length, ◌≡◌, ◌∙◌, refl, ap, inl, inr, arith,
  Bool-cases,
}
use token_hub.Prelude.Int.{ℤ, pos, ◌+ℤ◌, ◌-ℤ◌, ◌≤ℤ◌, ◌<ℤ◌, ltb_ℤ, int_laws, parts_disjoint}
use token_hub.Prelude.I64.{i64_max, sub64, wrap64_id}
use token_hub.Router.Selector.{RouteCandidate, share, total_share, chosen}

-- The exact sum of the shares.
abbrev pub weight_sum : List RouteCandidate → ℤ
weight_sum [] = pos 0
weight_sum (c ∷ items) = share c +ℤ weight_sum items

share_pos : (c : RouteCandidate) → pos 1 ≤ℤ share c
share_pos c = ground arith

weight_sum_nonneg : (items : List RouteCandidate) → pos 0 ≤ℤ weight_sum items
weight_sum_nonneg [] = omega arith
weight_sum_nonneg (c ∷ items) =
    let one = share_pos c in let rest = weight_sum_nonneg items in omega int_laws

-- The sum that the program computes is exact, if it fits.
pub total_share-exact :
    (items : List RouteCandidate)
    → weight_sum items ≤ℤ i64_max
    → total_share items ≡ weight_sum items
total_share-exact [] fits = refl
total_share-exact (c ∷ items) fits =
    let one = share_pos c in
    let rest = weight_sum_nonneg items in
    let d = parts_disjoint (share c +ℤ weight_sum items) in
    let fits' : weight_sum items ≤ℤ i64_max = omega int_laws in
    rw (total_share-exact items fits') (wrap64_id _ (omega int_laws, omega int_laws))

-- Where a draw falls.
abbrev pub Falls : (i : ℕ) → ℤ → List RouteCandidate → Type 0
Falls i pick items =
    (front : List RouteCandidate) × (c : RouteCandidate) × (back : List RouteCandidate) × (items
      ≡ front ++ c ∷ back)
    × (chosen i pick items ≡ i + length front)
    × (weight_sum front ≤ℤ pick)
    × (pick <ℤ weight_sum front +ℤ share c)

falls :
    (i : ℕ) (pick : ℤ) (items : List RouteCandidate)
    → weight_sum items ≤ℤ i64_max
    → pos 0 ≤ℤ pick
    → pick <ℤ weight_sum items
    → Falls i pick items
falls i pick [] fits low high = absurd (omega arith)
falls i pick (c ∷ items) fits low high =
    let one = share_pos c in
    let rest = weight_sum_nonneg items in
    let s = parts_disjoint (share c) in
    let p = parts_disjoint pick in
    let d = parts_disjoint (pick -ℤ share c) in
    let exact : sub64 pick (share c) ≡ pick -ℤ share c =
      wrap64_id _ (omega int_laws, omega int_laws) in
    elim (Bool-cases (ltb_ℤ (sub64 pick (share c)) (pos 0))) [
      | inl here ↦
          let under : pick -ℤ share c <ℤ pos 0 = rw exact at (below (sub64 pick (share c)) here) in
          ([], c, items, refl, rw here (omega arith), low, omega int_laws)
      | inr later ↦
          let over : pos 0 ≤ℤ pick -ℤ share c = rw exact at (above (sub64 pick (share c)) later) in
          let (front, x, back, whole, index, after, before) =
            falls (suc i) (pick -ℤ share c) items (omega int_laws) over (omega int_laws) in
          (
            c ∷ front,
            x,
            back,
            ap (λ l. c ∷ l) whole,
            rw later (ap (λ z. chosen (suc i) z items) exact ∙ index ∙ omega arith),
            omega int_laws,
            omega int_laws,
          )
    ]
  where
    below : (z : ℤ) → ltb_ℤ z (pos 0) ≡ true → z <ℤ pos 0
    below z h = ground arith

    above : (z : ℤ) → ltb_ℤ z (pos 0) ≡ false → pos 0 ≤ℤ z
    above z h = ground arith

-- If the shares (each weight, and at least 1) add up to a 64-bit number, a draw between 0 and the
-- sum that the program computes picks the element in whose part of the wheel it falls: the shares
-- before that element add up to at most the draw, and with its own share to more.
pub roulette :
    (pick : ℤ) (items : List RouteCandidate)
    → weight_sum items ≤ℤ i64_max
    → pos 0 ≤ℤ pick
    → pick <ℤ total_share items
    → (front : List RouteCandidate) × (c : RouteCandidate) × (back : List RouteCandidate) × (items
        ≡ front ++ c ∷ back)
      × (chosen 0 pick items ≡ length front)
      × (weight_sum front ≤ℤ pick)
      × (pick <ℤ weight_sum front +ℤ share c)
roulette pick items fits low high =
    let (front, c, back, whole, index, after, before) =
      falls 0 pick items fits low (rw (total_share-exact items fits) at high) in
    (front, c, back, whole, index ∙ omega arith, after, before)
