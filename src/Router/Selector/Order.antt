-- ===== src/Router/Selector/Order.antt =====
-- crates/router-llm/src/selector.rs: the selection never panics, loses no candidate and invents
-- none, and keeps the levels in order.
use token_hub.Prelude.{
  ℕ, zero, suc, ◌<◌, ◌≤◌, true, false, Option, some, List, [], ◌∷◌, ◌++◌, length, All, ◌≡◌, ◌⊎◌,
  inl, inr, refl, arith, ap, length-append,
}
use mathlib.Core.List.{Perm}
use mathlib.Core.List.Perm
use token_hub.Prelude.Int.{ℤ, pos, ◌≤ℤ◌, ◌<ℤ◌, eqb_ℤ, max_ℤ}
use token_hub.Prelude.Sort.{
  Pairwise, sort_by, sort_by-perm, sort_by-Pairwise, All-imp, All-append, Pairwise-append,
}
use token_hub.Domain.Provider.{RoutingStrategy}
use token_hub.Router.Selector.{
  RouteCandidate, level_first, level_then_weight, chosen, total_share, take_group, weighted_shuffle,
  random_loop, random_order, sequential_order, select,
}
use token_hub.Router.Selector.Pieces.{
  Levels, chosen-lt, remove_lem, All-and, All-unit, Pairwise-imp, Reordered, take_group_lem,
  Pairwise-suffix, level-Pairwise, level-le,
}

module _ {S : Type 0} (gen_range : S → ℤ → ℤ × S) where
  weighted_shuffle_lem :
      (P : RouteCandidate → Type 0) (fuel : ℕ) (rng : S) (items : List RouteCandidate)
      → length items ≤ fuel
      → All P items
      → Reordered P (weighted_shuffle gen_range fuel rng items) items
  unfolding weighted_shuffle
  weighted_shuffle_lem P zero rng [] le h = record {
    result = [];
    last = rng;
    done = refl;
    same = Perm.refl [];
    good = tt;
  }
  weighted_shuffle_lem P (suc fuel) rng [] le h = record {
    result = [];
    last = rng;
    done = refl;
    same = Perm.refl [];
    good = tt;
  }
  weighted_shuffle_lem P zero rng (c ∷ items) le h = absurd (omega arith)
  weighted_shuffle_lem P (suc fuel) rng (c ∷ items) le h =
      let drawn = gen_range rng (max_ℤ (total_share (c ∷ items)) (pos 1)) in
      let i = chosen 0 drawn.0 (c ∷ items) in
      let inside : i < length (c ∷ items) = elim (chosen-lt 0 drawn.0 (c ∷ items)) [
        | inl e ↦ rw e (omega arith)
        | inr lt ↦ omega arith
      ] in
      let r = remove_lem {P = P} i (c ∷ items) inside h in
      let fewer = r.less in
      let s = weighted_shuffle_lem P fuel drawn.1 r.rest (omega arith) r.others in
      record {
        result = r.item ∷ s.result;
        last = s.last;
        done = rw (r.done, weighted_shuffle, s.done);
        same = Perm.trans (Perm.cons r.item s.same) r.same;
        good = (r.good, s.good);
      }

  record Grouped (P : RouteCandidate → Type 0) (r : Option (List RouteCandidate × S))
      (items : List RouteCandidate) : Type 0 where
    order : Reordered P r items
    levels : Pairwise Levels order.result

  random_loop_step :
      (fuel : ℕ) (rng next last : S) (c : RouteCandidate)
      (sorted group rest shuffled result : List RouteCandidate)
      → take_group c.level (c ∷ sorted) ≡ (group, rest)
      → weighted_shuffle gen_range (length group) rng group ≡ some (shuffled, next)
      → random_loop gen_range fuel next rest ≡ some (result, last)
      → random_loop gen_range (suc fuel) rng (c ∷ sorted) ≡ some (shuffled ++ result, last)
  unfolding random_loop
  random_loop_step fuel rng next last c sorted group rest shuffled result g s r =
      let g0 : (take_group c.level (c ∷ sorted)).0 ≡ group = ap (λ x. x.0) g in
      let g1 : (take_group c.level (c ∷ sorted)).1 ≡ rest = ap (λ x. x.1) g in
      simp (random_loop, g0, g1, s, r)

  random_loop_lem :
      (P : RouteCandidate → Type 0) (fuel : ℕ) (rng : S) (sorted : List RouteCandidate)
      → length sorted ≤ fuel
      → Pairwise Levels sorted
      → All P sorted
      → Grouped P (random_loop gen_range fuel rng sorted) sorted
  unfolding random_loop
  random_loop_lem P zero rng [] le ascend h = record {
    order = record { result = []; last = rng; done = refl; same = Perm.refl []; good = tt };
    levels = tt;
  }
  random_loop_lem P (suc fuel) rng [] le ascend h = record {
    order = record { result = []; last = rng; done = refl; same = Perm.refl []; good = tt };
    levels = tt;
  }
  random_loop_lem P zero rng (c ∷ sorted) le ascend h = absurd (omega arith)
  random_loop_lem P (suc fuel) rng (c ∷ sorted) le ascend h =
      let self : eqb_ℤ c.level c.level ≡ true = ground arith in
      let Q : RouteCandidate → Type 0 = λ d. P d × (c.level ≤ℤ d.level) in
      let above : All Q sorted = All-and P (Levels c) sorted h.1 ascend.0 in
      let (whole, good, others) = take_group_lem c.level Q sorted above in
      let (group, rest) = take_group c.level sorted in
      let fewer : length rest ≤ fuel =
        omega (arith, ap length whole, length-append {0} {A = RouteCandidate} group rest) in
      let s =
        weighted_shuffle_lem (λ d. (d.level ≡ c.level) × Q d) (length (c ∷ group)) rng (c ∷ group)
          (omega arith) ((refl, (h.0, omega arith)), good) in
      let r =
        random_loop_lem Q fuel s.last rest fewer (Pairwise-suffix group rest (rw whole ascend.1))
          others in
      let here : All (λ d. d.level ≡ c.level) s.result = All-imp s.result (λ d g. g.0) s.good in
      record {
        order = record {
          result = s.result ++ r.order.result;
          last = r.order.last;
          done =
              random_loop_step fuel rng s.last r.order.last c sorted (c ∷ group) rest s.result
                r.order.result (rw self) s.done r.order.done;
          same =
              Perm.trans (Perm.append s.same r.order.same)
                (rw (ap (λ l. c ∷ l) whole) (Perm.refl (c ∷ sorted)));
          good =
              All-append P s.result r.order.result (All-imp s.result (λ d g. g.1.0) s.good)
                (All-imp r.order.result (λ d g. g.0) r.order.good);
        };
        levels =
            Pairwise-append Levels s.result r.order.result (level-Pairwise c.level s.result here)
              r.levels
              (level-le c.level s.result r.order.result here
                (All-imp r.order.result (λ d g. g.1) r.order.good));
      }

  level_first_sorted :
      (candidates : List RouteCandidate) → Pairwise Levels (sort_by level_first candidates)
  level_first_sorted =
      sort_by-Pairwise {R = Levels} level_first (λ x y e. ground arith) (λ x y e. ground arith)
        (λ x y z h k. omega arith)

  random_order_lem :
      (rng : S) (candidates : List RouteCandidate)
      → (ordered : List RouteCandidate) × (last : S) × (random_order gen_range rng candidates
          ≡ some (ordered, last))
        × Perm ordered candidates
        × Pairwise Levels ordered
  unfolding random_order
  random_order_lem rng candidates =
      let sorted = sort_by level_first candidates in
      let g =
        random_loop_lem (λ c. Unit {0}) (length sorted) rng sorted (omega arith)
          (level_first_sorted candidates) (All-unit sorted) in
      (
        g.order.result,
        g.order.last,
        g.order.done,
        Perm.trans g.order.same (sort_by-perm level_first candidates),
        g.levels,
      )

-- A candidate of a lower level stands first, and among those of one level the heavier one.
abbrev pub Heavier : RouteCandidate → RouteCandidate → Type 0
Heavier a b = (a.level <ℤ b.level) ⊎ ((a.level ≡ b.level) × (b.weight ≤ℤ a.weight))

-- The sequential order is a rearrangement of the candidates in which each stands before those of a
-- higher level, and before those of its level that are not heavier.
pub sequential_order_lem :
    (candidates : List RouteCandidate)
    → Perm (sequential_order candidates) candidates × Pairwise Heavier (sequential_order candidates)
unfolding sequential_order
sequential_order_lem candidates = (
  sort_by-perm level_then_weight candidates,
  sort_by-Pairwise {R = Heavier} level_then_weight sound total trans candidates,
)
  where
    sound : (a b : RouteCandidate) → level_then_weight a b ≡ true → Heavier a b
    sound a b e = ground arith

    total : (a b : RouteCandidate) → level_then_weight a b ≡ false → Heavier b a
    total a b e = ground arith

    trans : (a b c : RouteCandidate) → Heavier a b → Heavier b c → Heavier a c
    trans a b c h k = ground arith

module _ {S : Type 0} (gen_range : S → ℤ → ℤ × S) where
  -- Whatever the generator draws, also outside the range that it was asked for: the selection does
  -- not panic, it contains each candidate as often as the list that it was given, and no candidate
  -- stands behind one of a higher level.
  pub select_total :
      (rng : S) (candidates : List RouteCandidate)
      → (ordered : List RouteCandidate) × (last : S) × (select gen_range rng candidates
          ≡ some (ordered, last))
        × Perm ordered candidates
        × Pairwise Levels ordered
  unfolding select
  select_total rng [] = ([], rng, refl, Perm.refl [], tt)
  select_total rng (c ∷ candidates) = go c.strategy refl
    where
      go :
          (s : RoutingStrategy)
          → c.strategy ≡ s
          → (ordered : List RouteCandidate) × (last : S) × (select gen_range rng (c ∷ candidates)
              ≡ some (ordered, last))
            × Perm ordered (c ∷ candidates)
            × Pairwise Levels ordered
      go RoutingStrategy.sequential e =
          let (same, heavier) = sequential_order_lem (c ∷ candidates) in
          (
            sequential_order (c ∷ candidates),
            rng,
            ground arith,
            same,
            Pairwise-imp _ (λ a b h. ground arith) heavier,
          )
      go RoutingStrategy.random e =
          let (ordered, last, done, same, levels) =
            random_order_lem gen_range rng (c ∷ candidates) in
          (ordered, last, ground (arith, done), same, levels)
