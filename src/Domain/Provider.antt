-- ===== src/Domain/Provider.antt =====
-- crates/domain/src/{model,provider,policy}.rs: logical models, providers and their mappings.
use token_hub.Prelude.{ℕ, String, Bool, List, Option}
use token_hub.Prelude.Int.{ℤ}

pub record LogicalModel : Type 0 where
  pub id : ℕ
  pub logical_name : String
  pub description : Option String
  pub input_rate_per_1k : ℤ
  pub output_rate_per_1k : ℤ
  pub status : String
  pub created_at : ℤ
  pub updated_at : ℤ

pub data RoutingStrategy : Type 0 where
  sequential random : RoutingStrategy

pub record ModelProvider : Type 0 where
  pub id : ℕ
  pub logical_model_id : ℕ
  pub provider_id : ℕ
  pub upstream_model : String
  pub level : ℤ
  pub weight : ℤ
  pub strategy : RoutingStrategy
  pub enabled : Bool
  pub created_at : ℤ

pub data ProviderStatus : Type 0 where
  active disabled : ProviderStatus

pub record ProviderCredential : Type 0 where
  pub id : ℕ
  pub name : String
  pub provider_type : String
  pub base_url : String
  pub api_key_enc : String
  pub status : ProviderStatus
  pub disabled_reason : Option String
  pub disabled_at : Option ℤ
  pub quota_limit : Option ℤ
  pub quota_used : ℤ
  pub quota_threshold : ℤ
  pub quota_alert_sent : Bool
  pub quota_synced_at : Option ℤ
  pub created_at : ℤ
  pub updated_at : ℤ

pub record Policy : Type 0 where
  pub id : ℕ
  pub name : String
  pub allowed_models : List String
  pub monthly_credit_cap : Option ℤ
  pub description : Option String
  pub created_at : ℤ
  pub updated_at : ℤ
