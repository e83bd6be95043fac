-- ===== src/Agent/Tunnel.antt =====
-- crates/agent/src/tun_controller.rs, over the tasks of frpc.rs. The mutex is free, or the one call that
-- holds it across a wait, `close`, waits for its task to end.
pub mod Processes
pub mod Current
pub mod Calls
pub mod Single
pub mod Controller
use token_hub.Prelude.{
  ℕ, String, Bool, true, false, not, Option, none, some, is_some, map_option, List, [], ◌∷◌,
  if◌then◌else◌, ◌==◌,
}
use Prim.Native.String.{◌++◌}
use token_hub.Prelude.Text.{decimal}
use token_hub.Api.Tun.{TunStatus}
use token_hub.Agent.Frpc.{TunnelMode, FrpcConfig, Task, Phase, Happening, new_task, supervise}

-- A signal's sender and a task's handle are named by the number of their task.
pub record TunState : Type 0 where
  pub service_id : Option String
  pub shutdown_tx : Option ℕ
  pub task_handle : Option ℕ

-- `closing`: the task for whose end a `close` waits.
pub record System : Type 0 where
  pub tun : TunState
  pub closing : Option ℕ
  pub tasks : ℕ → Option Task

abbrev pub set_task : ℕ → Task → System → System
set_task k t s = record s { tasks = λ i. if i == k then some t else s.tasks i }

abbrev pub initial : System
initial = record {
  tun = record { service_id = none; shutdown_tx = none; task_handle = none };
  closing = none;
  tasks = λ i. none;
}

abbrev url_of : FrpcConfig → String → TunnelMode → String
url_of cfg sid TunnelMode.http_subdomain = sid ++ "." ++ cfg.subdomain_host
url_of cfg sid (TunnelMode.tcp remote_port) = cfg.server ++ ":" ++ decimal 5 remote_port

abbrev mode_text : TunnelMode → String
mode_text TunnelMode.http_subdomain = "http_subdomain"
mode_text (TunnelMode.tcp remote_port) = "tcp"

unfoldable pub status_locked : FrpcConfig → TunState → TunStatus
status_locked cfg state = record {
  active = is_some state.shutdown_tx;
  service_id = state.service_id;
  url = map_option (λ sid. url_of cfg sid cfg.mode) state.service_id;
  mode = mode_text cfg.mode;
}

-- With a new task's number and its service id.
unfoldable pub open_tun : ℕ → String → System → System
open_tun k service_id s =
    if is_some s.tun.shutdown_tx
    then s
    else set_task k new_task (record s {
      tun = record { service_id = some service_id; shutdown_tx = some k; task_handle = some k };
    })

abbrev pub signal : Task → Task
signal t = record t { signalled = true }

-- `close` up to its wait: the signal is sent.
unfoldable pub close_tun : System → System
close_tun s =
    let signalled : System = elim s.tun.shutdown_tx [
      | none ↦ s
      | some k ↦ record s {
        tasks = λ i. if i == k then map_option signal (s.tasks i) else s.tasks i;
      }
    ] in
    elim s.tun.task_handle [
      | none ↦ record signalled {
        tun = record { service_id = none; shutdown_tx = none; task_handle = none };
      }
      | some k ↦ record signalled {
        tun = record { service_id = s.tun.service_id; shutdown_tx = none; task_handle = none };
        closing = some k;
      }
    ]

abbrev pub has_returned : Option Task → Bool
has_returned none = false
has_returned (some t) = elim t.phase [ Phase.returned ↦ true | _ ↦ false ]

-- `close` is dropped while it waits: the mutex is freed, the service id stays, and the task, which has
-- been signalled, runs on by itself.
unfoldable pub cancelled : System → System
cancelled s = record s { closing = none }

-- The rest of it, once the task has returned.
unfoldable pub closed : System → System
closed s = record s { tun = record (s.tun) { service_id = none }; closing = none }

-- One step of a call or of a task. A call begins only while the mutex is free.
pub data Action : Type 0 where
  opens : (k : ℕ) (service_id : String) → Action
  closes : Action
  ends : Action
  cancels : Action
  works : (k : ℕ) → Happening → Action

unfoldable pub act : Action → System → Option System
unfolding open_tun close_tun closed cancelled supervise
act (Action.opens k service_id) s =
    if is_some s.closing
    then none
    else if is_some (s.tasks k)
    then none
    else some (open_tun k service_id s)
act Action.closes s = if is_some s.closing then none else some (close_tun s)
act Action.ends s = elim s.closing [
  | none ↦ none
  | some k ↦ if has_returned (s.tasks k) then some (closed s) else none
]
act Action.cancels s = if is_some s.closing then some (cancelled s) else none
act (Action.works k h) s = elim (s.tasks k) [
  | none ↦ none
  | some t ↦ map_option (λ t'. set_task k t' s) (supervise h t)
]

unfoldable pub run : List Action → System → Option System
unfolding act
run [] s = some s
run (a ∷ actions) s = elim (act a s) [ none ↦ none | some s' ↦ run actions s' ]
