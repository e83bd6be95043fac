-- ===== src/Agent/Tunnel/Processes.antt =====
-- crates/agent: how many frpc processes may run, and how many of them are beyond the one that the open
-- tunnel is for.
use token_hub.Prelude.{
  ℕ, ◌+◌, ◌≤◌, Bool, true, false, Option, none, some, List, [], ◌∷◌, ◌≡◌, inl, inr, arith, ◌==◌,
  if◌then◌else◌, Bool-cases, Option-cases, refl,
}
use token_hub.Prelude.Table.{Unique, row}
use token_hub.Agent.Frpc.{Task, Phase}
use token_hub.Agent.Tunnel.{System}

-- The processes of a task that may run: its child, and those that it has given up.
abbrev processes_of : Option Task → ℕ
processes_of none = 0
processes_of (some t) = (if t.child then 1 else 0) + t.strays

abbrev unfinished : Task → ℕ
unfinished t = elim t.phase [ Phase.returned ↦ 0 | _ ↦ 1 ]

-- The task that is not yet to be given up: the open one, or the one for which a `close` waits.
abbrev pub current : System → Option ℕ
current s = elim s.closing [ none ↦ s.tun.task_handle | some k ↦ some k ]

abbrev pub is_current : Option ℕ → ℕ → Bool
is_current none k = false
is_current (some j) k = j == k

-- What a task may run beyond the one child of the current task.
abbrev pub excess_of : Bool → Option Task → ℕ
excess_of now none = 0
excess_of now (some t) = t.strays + (if now then 0 else unfinished t)

abbrev sum_of : (ℕ → ℕ) → List ℕ → ℕ
sum_of f [] = 0
sum_of f (k ∷ ks) = f k + sum_of f ks

abbrev pub Distinct : List ℕ → Type 0
Distinct ks = Unique (λ k. k) ks

-- The processes of these tasks that may run.
abbrev pub processes : List ℕ → System → ℕ
processes ks s = sum_of (λ k. processes_of (s.tasks k)) ks

abbrev pub excess : List ℕ → System → ℕ
excess ks s = sum_of (λ k. excess_of (is_current (current s) k) (s.tasks k)) ks

pub sum_bound : (f g : ℕ → ℕ) → ((k : ℕ) → f k ≤ g k) → (ks : List ℕ) → sum_of f ks ≤ sum_of g ks
sum_bound f g below [] = omega arith
sum_bound f g below (k ∷ ks) = omega (arith, below k, sum_bound f g below ks)

-- The number `j` is not among these.
sum_absent :
    (f g : ℕ → ℕ) (j : ℕ)
    → ((k : ℕ) → (j == k) ≡ false → f k ≤ g k)
    → (ks : List ℕ) → row (λ k. k) j ks ≡ none
    → sum_of f ks ≤ sum_of g ks
sum_absent f g j below [] absent = omega arith
sum_absent f g j below (k ∷ ks) absent = elim (Bool-cases (k == j)) [
  | inl same ↦ absurd (ground (arith, absent, same))
  | inr other ↦
      let here = below k (ground (arith, other)) in
      let rest = sum_absent f g j below ks (ground (arith, absent, other)) in omega arith
]

-- Where only `j` may grow, and by no more than `d`, the sum grows by no more than `d`.
pub sum_pivot :
    (f g : ℕ → ℕ) (j d : ℕ)
    → ((k : ℕ) → (j == k) ≡ false → f k ≤ g k)
    → f j ≤ g j + d
    → (ks : List ℕ) → Distinct ks
    → sum_of f ks ≤ sum_of g ks + d
sum_pivot f g j d below pivot [] u = omega arith
sum_pivot f g j d below pivot (k ∷ ks) u = elim (Bool-cases (j == k)) [
  | inl same ↦
      let e : j ≡ k = ground (arith, same) in
      let rest = sum_absent f g j below ks (rw e (u.0)) in
      let here : f k ≤ g k + d = rw (← e) pivot in omega arith
  | inr other ↦
      let rest = sum_pivot f g j d below pivot ks u.1 in let here = below k other in omega arith
]

abbrev pub HasChild : Task → Type 0
HasChild t = t.child ≡ true → t.phase ≡ Phase.watching

processes_of-bound : (t : Task) → HasChild t → processes_of (some t) ≤ excess_of false (some t)
processes_of-bound t h = elim (Bool-cases t.child) [
  | inl child ↦ let watching = h child in rw (child, watching) (omega arith)
  | inr childless ↦ rw childless (omega arith)
]

of_task :
    (o : Option Task) → ((t : Task) → o ≡ some t → HasChild t) → processes_of o ≤ excess_of false o
of_task none h = omega arith
of_task (some t) h = processes_of-bound t (h t refl)

-- At most the one child of the current task runs beyond the excess.
pub processes-bound :
    (s : System)
    → ((k : ℕ) (t : Task) → s.tasks k ≡ some t → HasChild t)
    → (ks : List ℕ) → Distinct ks
    → processes ks s ≤ excess ks s + 1
processes-bound s children ks u = elim (Option-cases (current s)) [
  | inl idle ↦
      let sum =
        sum_bound (λ k. processes_of (s.tasks k))
          (λ k. excess_of (is_current (current s) k) (s.tasks k))
          (λ k. rw idle (of_task (s.tasks k) (λ t e. children k t e))) ks in
      omega arith
  | inr (j, that) ↦
      sum_pivot (λ k. processes_of (s.tasks k))
        (λ k. excess_of (is_current (current s) k) (s.tasks k)) j 1
        (λ k other. rw (that, other) (of_task (s.tasks k) (λ t e. children k t e)))
        (rw that (rw (same j) (of_current (s.tasks j)))) ks u
]
  where
    same : (k : ℕ) → (k == k) ≡ true
    same k = ground arith

    of_current : (o : Option Task) → processes_of o ≤ excess_of true o + 1
    of_current none = omega arith
    of_current (some t) = elim (Bool-cases t.child) [
      | inl child ↦ rw child (omega arith)
      | inr childless ↦ rw childless (omega arith)
    ]

-- Without a current task there is nothing but the excess.
pub processes-idle :
    (s : System)
    → ((k : ℕ) (t : Task) → s.tasks k ≡ some t → HasChild t)
    → current s ≡ none
    → (ks : List ℕ) → processes ks s ≤ excess ks s
processes-idle s children idle ks =
    sum_bound (λ k. processes_of (s.tasks k))
      (λ k. excess_of (is_current (current s) k) (s.tasks k))
      (λ k. rw idle (of_task (s.tasks k) (λ t e. children k t e))) ks
