-- ===== src/Api/Admin/Accounts.antt =====
-- crates/api/src/handlers/admin/accounts.rs, and `bind_account_policy` of policies.rs.
pub mod Opened
use token_hub.Prelude.{
  ℕ, String, Bool, true, false, not, Option, none, some, is_some, List, ok, failed, if◌then◌else◌,
}
use Prim.Native.String.{◌++◌ as text_append}
use token_hub.Prelude.Int.{ℤ}
use token_hub.Domain.Account.{Account}
use token_hub.Domain.Principal.{Principal, Scope}
use token_hub.Credits.Ledger as CreditsRepo
use token_hub.Storage.Account as AccountRepo
use token_hub.Storage.Policy.{policy_row}
use token_hub.Api.Error.{ApiError}
use token_hub.Api.Auth.Token.{ApiResult}
use token_hub.Api.Admin.Credits.{may}
use token_hub.Api.Admin.State.{AdminState, Call, refuse, database_error, found_or}

unfoldable pub list_accounts :
    Principal → (status : Option String) (limit offset : ℤ) → AdminState → ApiResult (List Account)
list_accounts principal status limit offset s =
    if not (may principal Scope.accounts_read)
    then ApiResult.denied ApiError.forbidden
    else ApiResult.granted (AccountRepo.list status limit offset s.accounts)

pub record CreateAccount : Type 0 where
  pub external_id : Option ℕ
  pub template : Option String
  pub note : Option String

-- `format!("{n} [template={t}]")`.
abbrev pub note_of : Option String → Option String → Option String
note_of (some n) (some t) = some (text_append n (text_append " [template=" (text_append t "]")))
note_of (some n) none = some n
note_of none (some t) = some (text_append "[template=" (text_append t "]"))
note_of none none = none

unfoldable pub create_account :
    Principal → CreateAccount → Call → AdminState → ApiResult Account × AdminState
unfolding AccountRepo.create CreditsRepo.init
create_account principal req call s =
    if not (may principal Scope.accounts_write)
    then refuse ApiError.forbidden s
    else (let (made, accounts) =
          AccountRepo.create true call.id req.external_id none (note_of req.note req.template)
            call.now s.accounts in
        elim made [
          | failed ↦ refuse database_error (record s { accounts = accounts })
          | ok account ↦
              let (opened, ledger) =
                CreditsRepo.init (is_some (AccountRepo.account_row account.id accounts)) account.id
                  call.now s.ledger in
              elim opened [
                | failed ↦ refuse database_error (record s { accounts = accounts; ledger = ledger })
                | ok _ ↦
                    (ApiResult.granted account, record s { accounts = accounts; ledger = ledger })
              ]
        ])

-- The end of two handlers: the account, or not found.
abbrev pub the_account : ℕ → AdminState → ApiResult Account
the_account id s = elim (AccountRepo.get id s.accounts) [
  | none ↦ ApiResult.denied ApiError.not_found
  | some account ↦ ApiResult.granted account
]

unfoldable pub get_account : Principal → ℕ → AdminState → ApiResult Account
unfolding AccountRepo.get
get_account principal id s =
    if not (may principal Scope.accounts_read)
    then ApiResult.denied ApiError.forbidden
    else the_account id s

-- A new note is ignored.
unfoldable pub update_account :
    Principal
    → (id : ℕ) (status note : Option String) → Call
    → AdminState
    → ApiResult Account × AdminState
unfolding AccountRepo.get AccountRepo.set_status
update_account principal id status _ call s =
    if not (may principal Scope.accounts_write)
    then refuse ApiError.forbidden s
    else (let s' : AdminState = elim status [
      | none ↦ s
      | some st ↦
          let (_, accounts) = AccountRepo.set_status id st call.now s.accounts in
          record s { accounts = accounts }
    ] in
        (the_account id s', s'))

unfoldable pub delete_account :
    Principal → ℕ → Call → AdminState → ApiResult (Unit {0}) × AdminState
unfolding AccountRepo.set_status
delete_account principal id call s =
    if not (may principal Scope.accounts_write)
    then refuse ApiError.forbidden s
    else (let (updated, accounts) = AccountRepo.set_status id "disabled" call.now s.accounts in
        (found_or updated tt, record s { accounts = accounts }))

unfoldable pub bind_account_policy :
    Principal → (account_id policy_id : ℕ) → Call → AdminState → ApiResult (Unit {0}) × AdminState
unfolding AccountRepo.set_policy
bind_account_policy principal account_id policy_id call s =
    if not (may principal Scope.policies_write)
    then refuse ApiError.forbidden s
    else (let (r, accounts) =
          AccountRepo.set_policy (is_some (policy_row policy_id s.policies)) account_id
            (some policy_id) call.now s.accounts in
        elim r [
          | failed ↦ refuse database_error (record s { accounts = accounts })
          | ok updated ↦ (found_or updated tt, record s { accounts = accounts })
        ])
