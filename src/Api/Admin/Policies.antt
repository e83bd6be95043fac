-- ===== src/Api/Admin/Policies.antt =====
-- crates/api/src/handlers/admin/policies.rs.
use token_hub.Prelude.{
  ℕ, String, Bool, false, not, Option, none, some, List, any, ok, failed, if◌then◌else◌, ◌==◌,
}
use token_hub.Prelude.Int.{ℤ}
use token_hub.Domain.Principal.{Principal, Scope}
use token_hub.Domain.Provider.{Policy}
use token_hub.Storage.Account.{AccountRow}
use token_hub.Storage.Policy as PolicyRepo
use token_hub.Api.Error.{ApiError}
use token_hub.Api.Auth.Token.{ApiResult}
use token_hub.Api.Admin.Credits.{may}
use token_hub.Api.Admin.State.{AdminState, Call, refuse, database_error}

pub record PolicyReq : Type 0 where
  pub name : String
  pub allowed_models : List String
  pub monthly_credit_cap : Option ℤ
  pub description : Option String

unfoldable pub list_policies : Principal → AdminState → ApiResult (List Policy)
list_policies principal s =
    if not (may principal Scope.policies_read)
    then ApiResult.denied ApiError.forbidden
    else ApiResult.granted (PolicyRepo.list s.policies)

unfoldable pub create_policy :
    Principal → PolicyReq → Call → AdminState → ApiResult Policy × AdminState
unfolding PolicyRepo.create
create_policy principal req call s =
    if not (may principal Scope.policies_write)
    then refuse ApiError.forbidden s
    else (let (made, policies) =
          PolicyRepo.create call.id req.name req.allowed_models req.monthly_credit_cap
            req.description call.now s.policies in
        elim made [
          | failed ↦ refuse database_error (record s { policies = policies })
          | ok policy ↦ (ApiResult.granted policy, record s { policies = policies })
        ])

-- Whether there is such a policy is not looked at.
unfoldable pub update_policy :
    Principal → ℕ → PolicyReq → Call → AdminState → ApiResult (Unit {0}) × AdminState
unfolding PolicyRepo.update
update_policy principal id req call s =
    if not (may principal Scope.policies_write)
    then refuse ApiError.forbidden s
    else (let (r, policies) =
          PolicyRepo.update id req.name req.allowed_models req.monthly_credit_cap req.description
            call.now s.policies in
        elim r [
          | failed ↦ refuse database_error (record s { policies = policies })
          | ok _ ↦ (ApiResult.granted tt, record s { policies = policies })
        ])

-- An account names the policy.
abbrev is_bound : ℕ → AccountRow → Bool
is_bound id a = elim a.policy_id [ none ↦ false | some p ↦ p == id ]

unfoldable pub delete_policy : Principal → ℕ → AdminState → ApiResult (Unit {0}) × AdminState
unfolding PolicyRepo.delete
delete_policy principal id s =
    if not (may principal Scope.policies_write)
    then refuse ApiError.forbidden s
    else (let (r, policies) = PolicyRepo.delete (any (is_bound id) s.accounts) id s.policies in
        elim r [
          | failed ↦ refuse database_error (record s { policies = policies })
          | ok _ ↦ (ApiResult.granted tt, record s { policies = policies })
        ])
