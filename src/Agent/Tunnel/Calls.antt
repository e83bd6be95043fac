-- ===== src/Agent/Tunnel/Calls.antt =====
-- crates/agent/src/tun_controller.rs: each call, and each run of calls and tasks, keeps the count of what
-- mishaps have left.
use token_hub.Prelude.{
  ℕ, ◌+◌, ◌≤◌, String, true, false, none, some, is_some, map_option, Option, List, [], ◌∷◌, ◌≡◌,
  ◌∙◌, refl, sym, inl, inr, arith, ◌==◌, if◌then◌else◌, Bool-cases, Option-cases, Bool,
}
use token_hub.Agent.Frpc.{Task, new_task}
use token_hub.Agent.Tunnel.{
  System, set_task, signal, open_tun, close_tun, closed, cancelled, Action, act, run, has_returned,
}
use token_hub.Agent.Tunnel.Processes.{excess_of, is_current, current, sum_pivot}
use token_hub.Agent.Tunnel.Current.{mishap, mishaps, IsCounted, works-IsCounted, excess-imp}

opens-IsCounted :
    (k : ℕ) (service_id : String) (m : ℕ) (s s' : System)
    → IsCounted m s
    → act (Action.opens k service_id) s ≡ some s'
    → IsCounted m s'
unfolding act open_tun
opens-IsCounted k service_id m s s' inv e = elim (Option-cases s.closing) [
  | inr (j, busy) ↦ absurd (ground (arith, busy, e))
  | inl free ↦ elim (Bool-cases (is_some (s.tasks k))) [
    | inl taken ↦ absurd (ground (arith, free, taken, e))
    | inr fresh ↦ elim (Option-cases s.tun.shutdown_tx) [
      | inr (j, active) ↦
          let same : s ≡ s' = ground (arith, free, fresh, active, e) in rw (← same) inv
      | inl idle ↦
          let after : open_tun k service_id s ≡ s' = ground (arith, free, fresh, e) in
          let none_open : s.tun.task_handle ≡ none = sym inv.agree ∙ idle in
          rw (← after) (
            rw idle (record {
              bound =
                  excess-imp m s
                    (set_task k new_task (record s {
                      tun = record {
                        service_id = some service_id;
                        shutdown_tx = some k;
                        task_handle = some k;
                      };
                    }))
                    (λ i. elim (Bool-cases (i == k)) [
                      | inl self ↦
                          let same : (k == i) ≡ true = ground (arith, self) in
                          rw (self, free, same) (omega arith)
                      | inr away ↦
                          let other : (k == i) ≡ false = ground (arith, away) in
                          rw (away, free, other, none_open) (omega arith)
                    ])
                    inv.bound;
              children = λ i u at. elim (Bool-cases (i == k)) [
                | inl self ↦
                    let new : new_task ≡ u = ground (arith, at, self) in
                    rw (← new) (λ running. ground (arith, running))
                | inr away ↦ inv.children i u (ground (arith, at, away))
              ];
              agree = refl;
              named = λ f g. refl;
              left = λ f g. cc;
              exclusive = λ f. absurd (ground (arith, free, f));
            }))
    ]
  ]
]

signal-excess :
    (now : Bool) (o : Option Task) → excess_of now (map_option signal o) ≡ excess_of now o
signal-excess now none = refl
signal-excess now (some t) = refl

closes-IsCounted :
    (m : ℕ) (s s' : System) → IsCounted m s → act Action.closes s ≡ some s' → IsCounted m s'
unfolding act close_tun
closes-IsCounted m s s' inv e = elim (Option-cases s.closing) [
  | inr (j, busy) ↦ absurd (ground (arith, busy, e))
  | inl free ↦
      let after : close_tun s ≡ s' = ground (arith, free, e) in
      elim (Option-cases s.tun.task_handle) [
        | inl idle ↦
            let quiet : s.tun.shutdown_tx ≡ none = inv.agree ∙ idle in
            rw (← after) (
              rw (idle, quiet)
                (record {
                  bound =
                      excess-imp m s
                        (record s {
                          tun = record {
                            service_id = none;
                            shutdown_tx = none;
                            task_handle = none;
                          };
                        })
                        (λ i. rw (free, idle) (omega arith)) inv.bound;
                  children = inv.children;
                  agree = refl;
                  named = λ f g. cc;
                  left = λ f g h. cc;
                  exclusive = λ f. refl;
                }))
        | inr (k, active) ↦
            let sender : s.tun.shutdown_tx ≡ some k = inv.agree ∙ active in
            rw (← after) (
              rw (active, sender)
                (record {
                  bound =
                      excess-imp m s
                        (record {
                          tun = record {
                            service_id = s.tun.service_id;
                            shutdown_tx = none;
                            task_handle = none;
                          };
                          closing = some k;
                          tasks = λ x. if x == k then map_option signal (s.tasks x) else s.tasks x;
                        })
                        (λ i. elim (Bool-cases (i == k)) [
                          | inl self ↦
                              rw (self, free, active)
                                (omega (arith, signal-excess (k == i) (s.tasks i)))
                          | inr away ↦ rw (away, free, active) (omega arith)
                        ])
                        inv.bound;
                  children = λ i u at. elim (Bool-cases (i == k)) [
                    | inl self ↦ elim (Option-cases (s.tasks i)) [
                      | inl missing ↦ absurd (ground (arith, at, self, missing))
                      | inr (t, there) ↦
                          let new : signal t ≡ u = ground (arith, at, self, there) in
                          rw (← new) (inv.children i t there)
                    ]
                    | inr away ↦ inv.children i u (ground (arith, at, away))
                  ];
                  agree = refl;
                  named = λ f. cc;
                  left = λ f. cc;
                  exclusive = λ f. refl;
                }))
      ]
]

-- A task that has returned runs no child.
returned-excess : (o : Option Task) → has_returned o ≡ true → excess_of false o ≤ excess_of true o
returned-excess none e = omega arith
returned-excess (some t) e = ground (arith, e)

ends-IsCounted :
    (m : ℕ) (s s' : System) → IsCounted m s → act Action.ends s ≡ some s' → IsCounted m s'
unfolding act closed
ends-IsCounted m s s' inv e = elim (Option-cases s.closing) [
  | inl free ↦ absurd (ground (arith, free, e))
  | inr (k, busy) ↦ elim (Bool-cases (has_returned (s.tasks k))) [
    | inr waits ↦ absurd (ground (arith, busy, waits, e))
    | inl done ↦
        let after : closed s ≡ s' = ground (arith, busy, done, e) in
        let idle = inv.exclusive (ground (arith, busy)) in
        rw (← after) (record {
          bound =
              excess-imp m s (closed s)
                (λ i. elim (Bool-cases (k == i)) [
                  | inl self ↦
                      let same : k ≡ i = ground arith in
                      rw (busy, idle, self) (returned-excess (s.tasks i) (rw same at done))
                  | inr away ↦ rw (busy, idle, away) (omega arith)
                ])
                inv.bound;
          children = inv.children;
          agree = inv.agree;
          named = λ f g. absurd (ground (arith, inv.agree, idle, g));
          left = λ f g h. cc;
          exclusive = λ f. cc;
        })
  ]
]

cancels-IsCounted :
    (m : ℕ) (s s' : System) → IsCounted m s → act Action.cancels s ≡ some s' → IsCounted (m + 1) s'
unfolding act cancelled
cancels-IsCounted m s s' inv e = elim (Option-cases s.closing) [
  | inl free ↦ absurd (ground (arith, free, e))
  | inr (k, busy) ↦
      let after : cancelled s ≡ s' = ground (arith, busy, e) in
      let idle = inv.exclusive (ground (arith, busy)) in
      rw (← after) (record {
        bound = λ ks u.
            let before = inv.bound ks u in
            let sum =
              sum_pivot (λ i. excess_of (is_current (current (cancelled s)) i) (s.tasks i))
                (λ i. excess_of (is_current (current s) i) (s.tasks i)) k 1
                (λ i other. rw (busy, idle, other) (omega arith))
                (let self : (k == k) ≡ true = ground arith in
                  rw (busy, idle, self) (one_more (s.tasks k)))
                ks u in
            omega arith;
        children = inv.children;
        agree = inv.agree;
        named = λ f g. absurd (ground (arith, inv.agree, idle, g));
        left = λ f g h. omega arith;
        exclusive = λ f. cc;
      })
]
  where
    one_more : (o : Option Task) → excess_of false o ≤ excess_of true o + 1
    one_more none = omega arith
    one_more (some t) = ground arith

plus_none : (m : ℕ) → m + 0 ≡ m
plus_none m = omega arith

act-IsCounted :
    (a : Action) (m : ℕ) (s s' : System)
    → IsCounted m s
    → act a s ≡ some s'
    → IsCounted (m + mishap a) s'
act-IsCounted (Action.opens k service_id) m s s' inv e =
    rw (plus_none m) (opens-IsCounted k service_id m s s' inv e)
act-IsCounted Action.closes m s s' inv e = rw (plus_none m) (closes-IsCounted m s s' inv e)
act-IsCounted Action.ends m s s' inv e = rw (plus_none m) (ends-IsCounted m s s' inv e)
act-IsCounted Action.cancels m s s' inv e = cancels-IsCounted m s s' inv e
act-IsCounted (Action.works k h) m s s' inv e = works-IsCounted k h m s s' inv e

pub run-IsCounted :
    (actions : List Action) (m : ℕ) (s s' : System)
    → IsCounted m s
    → run actions s ≡ some s'
    → IsCounted (m + mishaps actions) s'
unfolding run
run-IsCounted [] m s s' inv e =
    let same : s ≡ s' = ground (arith, e) in rw (← same) (rw (plus_none m) inv)
run-IsCounted (a ∷ actions) m s s' inv e = elim (Option-cases (act a s)) [
  | inl stuck ↦ absurd (ground (arith, stuck, e))
  | inr (t, step) ↦
      let parts : m + (mishap a + mishaps actions) ≡ m + mishap a + mishaps actions = omega arith in
      rw parts (
        run-IsCounted actions (m + mishap a) t s' (act-IsCounted a m s t inv step)
          (ground (arith, step, e)))
]
