-- ===== src/Api/Chat/Request.antt =====
-- crates/api/src/handlers/chat.rs and crates/router-llm/src/client.rs: what a caller sends, what an
-- upstream is sent and answers, and the state that the handler works on.
use Prim.Native.String.{◌++◌}
use token_hub.Prelude.{ℕ, String, Bool, true, Option, none, some, List, [], ◌∷◌, map, if◌then◌else◌}
use token_hub.Prelude.Int.{ℤ}
use token_hub.Prelude.Text.{join}
use token_hub.Domain.Provider.{ModelProvider, ProviderCredential, ProviderStatus}
use token_hub.Credits.Ledger.{Ledger}
use token_hub.Router.Fallback.{UpstreamError}
use token_hub.Router.Selector.{RouteCandidate}
use token_hub.Storage.Provider.{Providers}
use token_hub.Storage.Provider as ProviderRepo
use token_hub.Storage.Mapping.{Mappings}
use token_hub.Storage.Model.{Models}
use token_hub.Storage.Usage.{UsageTables}

pub record ChatMessage : Type 0 where
  pub role : String
  pub content : String

pub record ChatCompletionsRequest : Type 0 where
  pub model : String
  pub messages : List ChatMessage
  pub stream : Bool
  pub temperature : Option ℕ
  pub max_tokens : Option ℤ

pub record ChatRequest : Type 0 where
  pub model : String
  pub messages : List ChatMessage
  pub stream : Option Bool
  pub temperature : Option ℕ
  pub max_tokens : Option ℤ

-- `From<ChatCompletionsRequest>`.
unfoldable pub from_completions : ChatCompletionsRequest → ChatRequest
from_completions r = record {
  model = r.model;
  messages = r.messages;
  stream = if r.stream then some true else none;
  temperature = r.temperature;
  max_tokens = r.max_tokens;
}

pub record ResponseUsage : Type 0 where
  pub prompt_tokens : ℤ
  pub completion_tokens : ℤ
  pub total_tokens : ℤ

pub record ChatChoice : Type 0 where
  pub index : ℤ
  pub message : Option ChatMessage
  pub finish_reason : Option String

pub record ChatResponse : Type 0 where
  pub id : String
  pub choices : List ChatChoice
  pub usage : Option ResponseUsage

pub data Reply : Type 0 where
  answered : ChatResponse → Reply
  refused : UpstreamError → Reply

-- The tables that the handler reads and writes, and the cache of balances.
pub record Db : Type 0 where
  pub ledger : Ledger
  pub models : Models
  pub mappings : Mappings
  pub providers : Providers
  pub usage : UsageTables
  pub balances : ℕ → Option ℤ

-- The text of which the tokens are estimated.
abbrev pub prompt_text : List ChatMessage → String
prompt_text messages = join "\n" (map (λ m. m.role ++ ": " ++ m.content) messages)

-- The choices that have a message, of which the contents are joined.
abbrev pub contents : List ChatChoice → List String
contents [] = []
contents (c ∷ choices) = elim c.message [
  | none ↦ contents choices
  | some m ↦ m.content ∷ contents choices
]

abbrev pub completion_text : ChatResponse → String
completion_text response = join "\n" (contents response.choices)

-- The mappings whose provider is there and active, each with its provider.
unfoldable pub active_candidates : Mappings → Providers → List (ModelProvider × ProviderCredential)
unfolding ProviderRepo.get
active_candidates [] ps = []
active_candidates (m ∷ mappings) ps = elim (ProviderRepo.get m.provider_id ps) [
  | none ↦ active_candidates mappings ps
  | some p ↦ elim p.status [
    | ProviderStatus.active ↦ (m, p) ∷ active_candidates mappings ps
    | ProviderStatus.disabled ↦ active_candidates mappings ps
  ]
]

abbrev pub route_candidate : ModelProvider × ProviderCredential → RouteCandidate
route_candidate (m, p) = record {
  mapping_id = m.id;
  provider_id = m.provider_id;
  upstream_model = m.upstream_model;
  level = m.level;
  weight = m.weight;
  strategy = m.strategy;
}
