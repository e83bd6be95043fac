-- ===== src/Agent/Tunnel/Single.antt =====
-- crates/agent/src/tun_controller.rs: how many frpc run, whatever the order of the calls and of what the
-- tasks meet.
use token_hub.Prelude.{
  ℕ, ◌+◌, ◌≤◌, ◌<◌, true, false, none, some, is_some, List, ◌≡◌, ◌∙◌, sym, arith,
}
use token_hub.Agent.Frpc.{FrpcConfig}
use token_hub.Agent.Tunnel.{System, initial, status_locked, Action, run}
use token_hub.Agent.Tunnel.Processes.{Distinct, processes, current, processes-bound, processes-idle}
use token_hub.Agent.Tunnel.Current.{mishaps, initial-IsCounted}
use token_hub.Agent.Tunnel.Calls.{run-IsCounted}

-- Whatever calls come in and whatever the tasks meet, from the start on and in any order: of all
-- processes at most one may run, and one more for each mishap: that waiting for a process failed, that
-- killing one failed, or that a `close` was dropped while it waited. While the mutex is free: if the
-- status shows the tunnel as inactive, no process may run but for the mishaps; if it shows it as
-- active, it has a service id; and if it is inactive and has a service id, there was a mishap.
pub run_single :
    (cfg : FrpcConfig) (actions : List Action) (s : System) (ks : List ℕ)
    → run actions initial ≡ some s
    → Distinct ks
    → (processes ks s ≤ mishaps actions + 1)
      × (s.closing ≡ none
          → ((status_locked cfg s.tun).active ≡ false → processes ks s ≤ mishaps actions)
            × ((status_locked cfg s.tun).active ≡ true
                → is_some (status_locked cfg s.tun).service_id ≡ true)
            × ((status_locked cfg s.tun).active ≡ false
                → is_some (status_locked cfg s.tun).service_id ≡ true
                → 0 < mishaps actions))
unfolding status_locked
run_single cfg actions s ks e distinct =
    let inv = run-IsCounted actions 0 initial s initial-IsCounted e in
    let beyond = inv.bound ks distinct in
    let all = processes-bound s inv.children ks distinct in
    (
      omega arith,
      (λ free. (
        (λ inactive.
            let idle : s.tun.shutdown_tx ≡ none = ground (arith, inactive) in
            let nobody : current s ≡ none = ground (arith, free, sym inv.agree ∙ idle) in
            let only = processes-idle s inv.children nobody ks in omega arith),
        (λ active. inv.named free active),
        (λ inactive named. omega (arith, inv.left free (ground (arith, inactive)) named)),
      )),
    )
