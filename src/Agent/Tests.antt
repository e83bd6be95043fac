-- ===== src/Agent/Tests.antt =====
-- crates/agent: the theorems on the tunnel at a few runs, and the texts at a configuration.
use token_hub.Prelude.{
  ℕ, ◌≤◌, ◌<◌, ◌%◌, ◌+◌, true, false, not, none, some, is_some, List, [], ◌∷◌, ◌++◌, ◌≡◌, refl,
}
use token_hub.Prelude.Int.{pos}
use token_hub.Prelude.Text.{decimal}
use token_hub.Domain.Principal.{Principal, PrincipalKind, Scope, has_scope, is_super_admin}
use token_hub.Storage.AuditLog.{AuditLogRecord, insert}
use token_hub.Api.Admin.State.{AdminState, Call}
use token_hub.Api.Tun.{TunStatus, tun_toggle}
use token_hub.Api.Tun.Toggle.{action_of, toggle_lem}
use token_hub.Agent.Frpc.{
  TunnelMode, FrpcConfig, Happening, generate_service_id, generate_frpc_toml, supervise,
}
use token_hub.Agent.Tunnel.{
  System, Action, initial, open_tun, close_tun, closed, cancelled, act, run, status_locked,
}
use token_hub.Agent.Tunnel.Processes.{processes}
use token_hub.Agent.Tunnel.Current.{mishaps}
use token_hub.Agent.Tunnel.Single.{run_single}
use token_hub.Agent.Tunnel.Controller.{controller, controller-IsTunControl}

abbrev config : FrpcConfig
config = record {
  server = "frp.alius.tech";
  port = 7000;
  token = some "secret";
  subdomain_host = "tun.alius.tech";
  local_addr = "127.0.0.1";
  local_port = 8081;
  frpc_binary = "frpc";
  mode = TunnelMode.tcp 6001;
}

abbrev counting : ℕ → ℕ → ℕ × ℕ
counting rng n = (rng % n, rng + 7)

service_id_of : (generate_service_id counting 3).0 ≡ some "dmu3ah"
unfolding generate_service_id
service_id_of = refl

toml_of :
    generate_frpc_toml config "a3k9x2"
    ≡ "# TokenHub 远程管理接入配置（自动生成，请勿手动修改）\nserverAddr = \"frp.alius.tech\"\nserverPort = 7000\nauth.token = \"secret\"\n\n[[proxies]]\nname = \"tokenhub-a3k9x2\"\ntype = \"tcp\"\nlocalIP = \"127.0.0.1\"\nlocalPort = 8081\nremotePort = 6001\n"
unfolding generate_frpc_toml decimal
toml_of = refl

-- The tunnel is opened, its frpc starts and ends, and a call closes it.
abbrev calls : List Action
calls =
    Action.opens 1 "a3k9x2"
    ∷ Action.works 1 Happening.started
    ∷ Action.works 1 Happening.exited
    ∷ Action.closes
    ∷ []

abbrev reopened : List Action
reopened =
    calls
    ++ Action.works 1 (Happening.shutdown true)
      ∷ Action.ends
      ∷ Action.opens 2 "b7m2p8"
      ∷ Action.works 2 Happening.started
      ∷ []

abbrev reached : List Action → System
reached actions = elim (run actions initial) [ none ↦ initial | some s ↦ s ]

abbrev left : List Action
left =
    Action.opens 1 "a3k9x2" ∷ Action.works 1 Happening.started ∷ Action.closes ∷ Action.cancels ∷ []

abbrev dropped : List Action
dropped = left ++ Action.opens 2 "b7m2p8" ∷ Action.works 2 Happening.started ∷ []

-- The `close` is dropped while it waits, and the tunnel is opened again before the first task takes its
-- signal.
run_single_example :
    (processes (1 ∷ 2 ∷ []) (reached dropped) ≤ mishaps dropped + 1)
    × ((reached dropped).closing ≡ none
        → ((status_locked config (reached dropped).tun).active ≡ false
            → processes (1 ∷ 2 ∷ []) (reached dropped) ≤ mishaps dropped)
          × ((status_locked config (reached dropped).tun).active ≡ true
              → is_some (status_locked config (reached dropped).tun).service_id ≡ true)
          × ((status_locked config (reached dropped).tun).active ≡ false
              → is_some (status_locked config (reached dropped).tun).service_id ≡ true
              → 0 < mishaps dropped))
unfolding run act open_tun close_tun cancelled supervise
run_single_example =
    run_single config dropped (reached dropped) (1 ∷ 2 ∷ []) refl (refl, (refl, tt))

-- Two processes run.
two_run : processes (1 ∷ 2 ∷ []) (reached dropped) ≡ 2
unfolding run act open_tun close_tun cancelled supervise
two_run = refl

-- A run without a mishap, in which a tunnel is closed and opened again: one process.
one_runs : (mishaps reopened ≡ 0) × (processes (1 ∷ 2 ∷ []) (reached reopened) ≡ 1)
unfolding run act open_tun close_tun closed supervise
one_runs = (refl, refl)

-- After a `close` that was dropped the status has a service id, and is not active.
half_closed :
    let status = status_locked config (reached left).tun in
    (status.active ≡ false) × (status.service_id ≡ some "a3k9x2")
unfolding run act open_tun close_tun cancelled supervise status_locked
half_closed = (refl, refl)

abbrev chief : Principal
chief = record {
  kind = PrincipalKind.admin;
  id = 1;
  account_id = none;
  scopes = Scope.admin_write ∷ [];
}

abbrev call : Call
call = record { id = 8; audit_id = 80; now = pos 9 }

abbrev no_rows : AdminState
no_rows = record {
  accounts = [];
  ledger = record { credits = []; holds = []; transactions = [] };
  tokens = [];
  policies = [];
  services = [];
  providers = [];
  mappings = [];
  models = [];
  usage = record { logs = []; accounts = []; providers = [] };
  devices = [];
  audits = [];
}

abbrev opened_status : TunStatus
opened_status = record {
  active = true;
  service_id = some "a3k9x2";
  url = some "frp.alius.tech:6001";
  mode = "tcp";
}

toggle_lem_example :
    let control = controller config 1 "a3k9x2" in
    let after = tun_toggle (some control) chief call initial no_rows in
    (is_super_admin chief ≡ true)
    × ((control.status after.1).active ≡ not (control.status initial).active)
    × (opened_status.active ≡ not (control.status initial).active)
    × (r : AuditLogRecord) × (after.2 ≡ record no_rows { audits = [] ++ r ∷ [] })
    × (r.actor_id ≡ some chief.id)
    × (r.action ≡ action_of (control.status initial).active)
unfolding tun_toggle controller open_tun status_locked insert has_scope is_super_admin decimal
toggle_lem_example =
    toggle_lem (controller config 1 "a3k9x2") (controller-IsTunControl config 1 "a3k9x2") chief call
      initial no_rows opened_status refl refl
