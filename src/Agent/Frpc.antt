-- ===== src/Agent/Frpc.antt =====
-- crates/agent/src/frpc.rs. `gen_range rng n` is the generator of the rand crate: a number below `n`.
-- A process is started and killed by the operating system; here it runs, or it does not, or it may still
-- run because waiting for it or killing it has failed.
use token_hub.Prelude.{
  ℕ, zero, suc, ◌+◌, String, Bool, true, false, Option, none, some, if◌then◌else◌, str_eq,
}
use Prim.Native.Char.{Char}
use Prim.Native.String.{◌++◌, len}
use token_hub.Prelude.Text.{decimal}

pub data TunnelMode : Type 0 where
  http_subdomain : TunnelMode
  tcp : (remote_port : ℕ) → TunnelMode

pub record FrpcConfig : Type 0 where
  pub server : String
  pub port : ℕ
  pub token : Option String
  pub subdomain_host : String
  pub local_addr : String
  pub local_port : ℕ
  pub frpc_binary : String
  pub mode : TunnelMode

abbrev pub service_id_chars : String
service_id_chars = "abcdefghjkmnpqrstuvwxyz23456789"

abbrev pub service_id_len : ℕ
service_id_len = 6

abbrev pub nth : String → ℕ → Option Char
nth String.[] i = none
nth (String.◌∷◌ c s) zero = some c
nth (String.◌∷◌ c s) (suc i) = nth s i

-- `none` is the panic of an index out of range.
module _ {ℓ} {R : Type ℓ} (gen_range : R → ℕ → ℕ × R) where
  abbrev pub draw_chars : (count : ℕ) → R → Option String × R
  draw_chars zero rng = (some "", rng)
  draw_chars (suc n) rng =
      let (idx, rng1) = gen_range rng (len service_id_chars) in
      let (rest, rng2) = draw_chars n rng1 in
      (
        elim (nth service_id_chars idx) [
          | none ↦ none
          | some c ↦ elim rest [ none ↦ none | some s ↦ some (String.◌∷◌ c s) ]
        ],
        rng2,
      )

  unfoldable pub generate_service_id : R → Option String × R
  generate_service_id rng = draw_chars service_id_len rng

-- A `u16` in decimal.
abbrev port_text : ℕ → String
port_text n = decimal 5 n

abbrev line : String → String
line text = text ++ "\n"

abbrev auth_line : Option String → String
auth_line none = ""
auth_line (some token) = if str_eq token "" then "" else line ("auth.token = \"" ++ token ++ "\"")

abbrev mode_lines : FrpcConfig → String → TunnelMode → String
mode_lines cfg service_id TunnelMode.http_subdomain =
    line "type = \"http\""
    ++ line ("localIP = \"" ++ cfg.local_addr ++ "\"")
    ++ line ("localPort = " ++ port_text cfg.local_port)
    ++ line ("subdomain = \"" ++ service_id ++ "\"")
mode_lines cfg service_id (TunnelMode.tcp remote_port) =
    line "type = \"tcp\""
    ++ line ("localIP = \"" ++ cfg.local_addr ++ "\"")
    ++ line ("localPort = " ++ port_text cfg.local_port)
    ++ line ("remotePort = " ++ port_text remote_port)

unfoldable pub generate_frpc_toml : FrpcConfig → String → String
generate_frpc_toml cfg service_id =
    line "# TokenHub 远程管理接入配置（自动生成，请勿手动修改）"
    ++ line ("serverAddr = \"" ++ cfg.server ++ "\"")
    ++ line ("serverPort = " ++ port_text cfg.port)
    ++ auth_line cfg.token
    ++ line ""
    ++ line "[[proxies]]"
    ++ line ("name = \"tokenhub-" ++ service_id ++ "\"")
    ++ mode_lines cfg service_id cfg.mode

-- Where `supervise_frpc` stands: before it starts frpc, beside the running child, in the pause before
-- the next start, or at its end.
pub data Phase : Type 0 where
  starting watching waiting returned : Phase

-- A task of `supervise_frpc`: whether it was signalled to end, whether its child runs, and how many
-- processes it has given up that may still run: a `Child` that is dropped is not killed.
pub record Task : Type 0 where
  pub phase : Phase
  pub signalled : Bool
  pub child : Bool
  pub strays : ℕ

-- What the task meets: `start_frpc` succeeds or fails, the child ends by itself, `wait` fails, the signal
-- is received (beside a child: `kill` succeeds or fails), the five seconds are over.
pub data Happening : Type 0 where
  started start_failed exited wait_failed : Happening
  shutdown : (killed : Bool) → Happening
  slept : Happening

abbrev pub new_task : Task
new_task = record { phase = Phase.starting; signalled = false; child = false; strays = 0 }

-- `none`: this cannot happen there.
unfoldable pub supervise : Happening → Task → Option Task
supervise Happening.started t = elim t.phase [
  | Phase.starting ↦ some (record t { phase = Phase.watching; child = true })
  | _ ↦ none
]
supervise Happening.start_failed t = elim t.phase [
  | Phase.starting ↦ some (record t { phase = Phase.waiting })
  | _ ↦ none
]
supervise Happening.exited t = elim t.phase [
  | Phase.watching ↦ some (record t { phase = Phase.waiting; child = false })
  | _ ↦ none
]
supervise Happening.wait_failed t = elim t.phase [
  | Phase.watching ↦ some (record t { phase = Phase.waiting; child = false; strays = t.strays + 1 })
  | _ ↦ none
]
supervise (Happening.shutdown killed) t =
    if t.signalled
    then elim t.phase [
      | Phase.watching ↦ some (record t {
        phase = Phase.returned;
        child = false;
        strays = if killed then t.strays else t.strays + 1;
      })
      | Phase.waiting ↦ some (record t { phase = Phase.returned })
      | _ ↦ none
    ]
    else none
supervise Happening.slept t = elim t.phase [
  | Phase.waiting ↦ some (record t { phase = Phase.starting })
  | _ ↦ none
]
