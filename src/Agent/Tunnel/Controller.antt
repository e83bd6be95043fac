-- ===== src/Agent/Tunnel/Controller.antt =====
-- crates/agent/src/tun_controller.rs: `impl api::TunControl for TunController`, for calls that run alone
-- and are not dropped; the process ends when it is killed.
-- The number and the service id of the next task are arguments.
use token_hub.Prelude.{
  ℕ, String, false, none, some, map_option, ok, inl, inr, arith, ◌==◌, if◌then◌else◌, Option-cases,
}
use token_hub.Api.Tun.{TunControl}
use token_hub.Api.Tun.Toggle.{IsTunControl}
use token_hub.Agent.Frpc.{FrpcConfig, Task, Phase}
use token_hub.Agent.Tunnel.{System, status_locked, open_tun, close_tun, closed}

-- The end of the task for which a `close` waits: its child was killed.
abbrev ended : Task → Task
ended t = record t { phase = Phase.returned; child = false }

abbrev pub wait : System → System
wait s = elim s.closing [
  | none ↦ s
  | some k ↦
      closed (record s { tasks = λ i. if i == k then map_option ended (s.tasks i) else s.tasks i })
]

module _ (cfg : FrpcConfig) (k : ℕ) (service_id : String) where
  unfoldable pub controller : TunControl System
  unfolding open_tun close_tun closed
  controller = record {
    open_tun = λ s. let s' = open_tun k service_id s in (ok (status_locked cfg s'.tun), s');
    close_tun = λ s. (ok tt, wait (close_tun s));
    status = λ s. status_locked cfg s.tun;
  }

  -- The controller keeps the promises of the trait.
  pub controller-IsTunControl : IsTunControl controller
  unfolding controller open_tun close_tun closed status_locked
  controller-IsTunControl = record {
    closes = λ s s' e. elim (Option-cases s.tun.task_handle) [
      | inl idle ↦ ground (arith, idle, e)
      | inr (j, active) ↦ ground (arith, active, e)
    ];
    opens = λ s s' status e. elim (Option-cases s.tun.shutdown_tx) [
      | inl idle ↦ ground (arith, idle, e)
      | inr (j, active) ↦ ground (arith, active, e)
    ];
  }
