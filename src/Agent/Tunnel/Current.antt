-- ===== src/Agent/Tunnel/Current.antt =====
-- crates/agent/src/tun_controller.rs: what beyond the current task's child may run was left by a mishap,
-- in every order of the calls and of what the tasks meet.
use token_hub.Prelude.{
  ℕ, ◌+◌, ◌<◌, ◌≤◌, true, false, none, some, is_some, List, [], ◌∷◌, ◌≡◌, refl, inl, inr, arith,
  ◌==◌, if◌then◌else◌, Bool-cases, Option-cases, Bool,
}
use token_hub.Agent.Frpc.{Task, Happening, supervise}
use token_hub.Agent.Tunnel.{System, initial, set_task, Action, act}
use token_hub.Agent.Tunnel.Processes.{
  HasChild, Distinct, excess, excess_of, is_current, current, sum_bound, sum_pivot,
}

-- Waiting for a process fails, or killing one does, or a `close` is dropped while it waits.
abbrev pub mishap : Action → ℕ
mishap Action.cancels = 1
mishap (Action.works k Happening.wait_failed) = 1
mishap (Action.works k (Happening.shutdown killed)) = if killed then 0 else 1
mishap _ = 0

abbrev pub mishaps : List Action → ℕ
mishaps [] = 0
mishaps (a ∷ actions) = mishap a + mishaps actions

pub record IsCounted (m : ℕ) (s : System) : Type 0 where
  pub bound : (ks : List ℕ) → Distinct ks → excess ks s ≤ m
  pub children : (k : ℕ) (t : Task) → s.tasks k ≡ some t → HasChild t
  pub agree : s.tun.shutdown_tx ≡ s.tun.task_handle
  pub named : s.closing ≡ none → is_some s.tun.shutdown_tx ≡ true → is_some s.tun.service_id ≡ true
  pub left : s.closing ≡ none → s.tun.shutdown_tx ≡ none → is_some s.tun.service_id ≡ true → 0 < m
  pub exclusive : is_some s.closing ≡ true → s.tun.task_handle ≡ none

pub initial-IsCounted : IsCounted 0 initial
initial-IsCounted = record {
  bound = λ ks u. nothing ks;
  children = λ k t e. cc;
  agree = refl;
  named = λ f e. cc;
  left = λ f e g. cc;
  exclusive = λ e. refl;
}
  where
    nothing : (ks : List ℕ) → excess ks initial ≤ 0
    nothing [] = omega arith
    nothing (k ∷ ks) = omega (arith, nothing ks)

-- A step of a task adds to what it may run beside its child only by a mishap.
supervise_bound :
    (k : ℕ) (h : Happening) (t t' : Task)
    → supervise h t ≡ some t'
    → HasChild t
    → HasChild t'
      × ((now : Bool)
          → excess_of now (some t') ≤ excess_of now (some t) + mishap (Action.works k h))
unfolding supervise
supervise_bound k Happening.started t t' e c = (ground (arith, e, c), (λ now. ground (arith, e)))
supervise_bound k Happening.start_failed t t' e c =
    (ground (arith, e, c), (λ now. ground (arith, e)))
supervise_bound k Happening.exited t t' e c = (ground (arith, e, c), (λ now. ground (arith, e)))
supervise_bound k Happening.wait_failed t t' e c =
    (ground (arith, e, c), (λ now. ground (arith, e)))
supervise_bound k (Happening.shutdown killed) t t' e c =
    (ground (arith, e, c), (λ now. ground (arith, e)))
supervise_bound k Happening.slept t t' e c = (ground (arith, e, c), (λ now. ground (arith, e)))

pub works-IsCounted :
    (k : ℕ) (h : Happening) (m : ℕ) (s s' : System)
    → IsCounted m s
    → act (Action.works k h) s ≡ some s'
    → IsCounted (m + mishap (Action.works k h)) s'
unfolding act
works-IsCounted k h m s s' inv e = elim (Option-cases (s.tasks k)) [
  | inl missing ↦ absurd (ground (arith, missing, e))
  | inr (t, found) ↦ elim (Option-cases (supervise h t)) [
    | inl stuck ↦ absurd (ground (arith, found, stuck, e))
    | inr (t', step) ↦
        let (child, grows) = supervise_bound k h t t' step (inv.children k t found) in
        let after : set_task k t' s ≡ s' = ground (arith, found, step, e) in
        rw (← after) (record {
          bound = λ ks u.
              let before = inv.bound ks u in
              let sum =
                sum_pivot (λ i. excess_of (is_current (current s) i) ((set_task k t' s).tasks i))
                  (λ i. excess_of (is_current (current s) i) (s.tasks i)) k
                  (mishap (Action.works k h))
                  (λ i other.
                    let away : (i == k) ≡ false = ground (arith, other) in rw away (omega arith))
                  (let self : (k == k) ≡ true = ground arith in
                    rw (self, found) (grows (is_current (current s) k)))
                  ks u in
              omega arith;
          children = λ i u at. elim (Bool-cases (i == k)) [
            | inl self ↦ let new : t' ≡ u = ground (arith, at, self) in rw (← new) child
            | inr away ↦ inv.children i u (ground (arith, at, away))
          ];
          agree = inv.agree;
          named = inv.named;
          left = λ f idle g. omega (arith, inv.left f idle g);
          exclusive = inv.exclusive;
        })
  ]
]

-- Where no task may run more than before, beside the child of the current one, the bound is kept.
pub excess-imp :
    (m : ℕ) (s s' : System)
    → ((i : ℕ)
        → excess_of (is_current (current s') i) (s'.tasks i)
          ≤ excess_of (is_current (current s) i) (s.tasks i))
    → ((ks : List ℕ) → Distinct ks → excess ks s ≤ m)
    → (ks : List ℕ) → Distinct ks
    → excess ks s' ≤ m
excess-imp m s s' below bound ks u =
    let sum =
      sum_bound (λ i. excess_of (is_current (current s') i) (s'.tasks i))
        (λ i. excess_of (is_current (current s) i) (s.tasks i)) below ks in
    let before = bound ks u in omega arith
