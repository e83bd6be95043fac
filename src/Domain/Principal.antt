-- ===== src/Domain/Principal.antt =====
-- crates/domain/src/principal.rs: the kinds of caller, the scopes and their texts, and a principal.
pub mod Texts
use token_hub.Prelude.{
  ℕ, String, Bool, true, false, ◌&&◌, List, Option, none, some, if◌then◌else◌, str_eq, any, ◌==◌,
}

pub data PrincipalKind : Type 0 where
  admin service api_user : PrincipalKind

pub data Scope : Type 0 where
  admin_read admin_write accounts_read accounts_write tokens_read tokens_write : Scope
  credits_read credits_write credits_admin models_read models_write : Scope
  providers_read providers_write services_read services_write : Scope
  policies_read policies_write reports_read audit_read : Scope

unfoldable pub as_str : Scope → String
as_str Scope.admin_read = "admin.read"
as_str Scope.admin_write = "admin.write"
as_str Scope.accounts_read = "accounts.read"
as_str Scope.accounts_write = "accounts.write"
as_str Scope.tokens_read = "tokens.read"
as_str Scope.tokens_write = "tokens.write"
as_str Scope.credits_read = "credits.read"
as_str Scope.credits_write = "credits.write"
as_str Scope.credits_admin = "credits.admin"
as_str Scope.models_read = "models.read"
as_str Scope.models_write = "models.write"
as_str Scope.providers_read = "providers.read"
as_str Scope.providers_write = "providers.write"
as_str Scope.services_read = "services.read"
as_str Scope.services_write = "services.write"
as_str Scope.policies_read = "policies.read"
as_str Scope.policies_write = "policies.write"
as_str Scope.reports_read = "reports.read"
as_str Scope.audit_read = "audit.read"

-- A `match` on a text is a ladder of tests in the order of its arms.
unfoldable pub from_str_lossy : String → Option Scope
from_str_lossy s =
    if str_eq s "admin.read"
    then some Scope.admin_read
    else if str_eq s "admin.write"
    then some Scope.admin_write
    else if str_eq s "accounts.read"
    then some Scope.accounts_read
    else if str_eq s "accounts.write"
    then some Scope.accounts_write
    else if str_eq s "tokens.read"
    then some Scope.tokens_read
    else if str_eq s "tokens.write"
    then some Scope.tokens_write
    else if str_eq s "credits.read"
    then some Scope.credits_read
    else if str_eq s "credits.write"
    then some Scope.credits_write
    else if str_eq s "credits.admin"
    then some Scope.credits_admin
    else if str_eq s "models.read"
    then some Scope.models_read
    else if str_eq s "models.write"
    then some Scope.models_write
    else if str_eq s "providers.read"
    then some Scope.providers_read
    else if str_eq s "providers.write"
    then some Scope.providers_write
    else if str_eq s "services.read"
    then some Scope.services_read
    else if str_eq s "services.write"
    then some Scope.services_write
    else if str_eq s "policies.read"
    then some Scope.policies_read
    else if str_eq s "policies.write"
    then some Scope.policies_write
    else if str_eq s "reports.read"
    then some Scope.reports_read
    else if str_eq s "audit.read"
    then some Scope.audit_read
    else none

pub record Principal : Type 0 where
  pub kind : PrincipalKind
  pub id : ℕ
  pub account_id : Option ℕ
  pub scopes : List Scope

-- The derived comparisons of the two enumerations compare their discriminants.
abbrev pub discriminant : Scope → ℕ
discriminant Scope.admin_read = 0
discriminant Scope.admin_write = 1
discriminant Scope.accounts_read = 2
discriminant Scope.accounts_write = 3
discriminant Scope.tokens_read = 4
discriminant Scope.tokens_write = 5
discriminant Scope.credits_read = 6
discriminant Scope.credits_write = 7
discriminant Scope.credits_admin = 8
discriminant Scope.models_read = 9
discriminant Scope.models_write = 10
discriminant Scope.providers_read = 11
discriminant Scope.providers_write = 12
discriminant Scope.services_read = 13
discriminant Scope.services_write = 14
discriminant Scope.policies_read = 15
discriminant Scope.policies_write = 16
discriminant Scope.reports_read = 17
discriminant Scope.audit_read = 18

abbrev pub is_admin : PrincipalKind → Bool
is_admin PrincipalKind.admin = true
is_admin _ = false

unfoldable pub has_scope : Principal → Scope → Bool
has_scope p scope = any (λ s. discriminant s == discriminant scope) p.scopes

unfoldable pub is_super_admin : Principal → Bool
unfolding has_scope
is_super_admin p = is_admin p.kind && has_scope p Scope.admin_write
