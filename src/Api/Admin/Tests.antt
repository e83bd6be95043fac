-- ===== src/Api/Admin/Tests.antt =====
-- crates/api/src/handlers/admin: the theorems at small tables.
use token_hub.Prelude.{
  ℕ, String, true, false, none, some, is_some, [], ◌∷◌, ◌≡◌, ◌≢◌, refl, arith, str_eq,
}
use Prim.Native.String.{len}
use token_hub.Prelude.Int.{ℤ, pos, ltb_ℤ}
use token_hub.Prelude.I64.{add64}
use token_hub.Domain.Principal.{Principal, PrincipalKind, has_scope, is_super_admin}
use token_hub.Domain.Account.{Account, AccountStatus}
use token_hub.Credits.Ledger.{credits_row}
use token_hub.Credits.Invariant.{IsValid}
use token_hub.Credits.Samples.{funded, funded-IsValid}
use token_hub.Storage.Account as AccountRepo
use token_hub.Storage.Token as TokenRepo
use token_hub.Storage.AdminUser.{
  AdminUserRecord, AccessTokenRecord, RefreshToken, AdminTables, find_by_phone,
}
use token_hub.Storage.AdminUser as AdminUserRepo
use token_hub.Api.Error.{ApiError}
use token_hub.Api.Auth.Token.{ApiResult, api_user, authenticate_api_token}
use token_hub.Api.Auth.Admin.{administrator, authenticate_session}
use token_hub.Api.Admin.State.{AdminState, Call}
use token_hub.Api.Admin.Accounts.{CreateAccount, note_of, create_account}
use token_hub.Api.Admin.Accounts.Opened.{opened_row, create_account-init}
use token_hub.Api.Admin.Tokens.{display_prefix, create_token}
use token_hub.Api.Admin.Tokens.Issued.{create_token-authenticate}
use token_hub.Api.Admin.Models.{Detail}
use token_hub.Api.Admin.Session.{
  LoginRequest, TokenResponse, issue, login, refresh, logout, unauthorized,
}
use token_hub.Api.Admin.Session.Revoked.{Step, Later}
use token_hub.Api.Admin.Session.Once.{refresh_once, logout_lem}
use token_hub.Api.Admin.Session.Login.{login_lem}
use token_hub.Api.Admin.Routes.{Request, handle}
use token_hub.Api.Admin.Routes.Forbidden.{handle-forbidden}
use token_hub.Api.Admin.Routes.Atomic.{handle-atomic}

-- Texts of different lengths have different hashes here.
abbrev hash : String → ℕ
hash text = len text

abbrev chief : AdminUserRecord
chief = record {
  id = 1;
  phone = "555";
  password_hash = "secret";
  totp_secret = "seed";
  roles = "super_admin" ∷ [];
  status = "active";
  created_at = pos 0;
  last_login_at = none;
}

abbrev old_access : AccessTokenRecord
old_access = record { admin_id = 1; expires_at = pos 3600; revoked = false }

abbrev old_refresh : RefreshToken
old_refresh = record {
  token_hash = 2;
  admin_id = 1;
  access_token_hash = 1;
  expires_at = pos 604800;
  revoked = false;
}

abbrev tables : AdminTables
tables = record {
  users = chief ∷ [];
  accesses = (1, old_access) ∷ [];
  refreshes = old_refresh ∷ [];
}

abbrev response : String → String → TokenResponse
response access refresh = record {
  access_token = access;
  refresh_token = refresh;
  expires_in = pos 3600;
  token_type = "Bearer";
}

abbrev attempt : LoginRequest
attempt = record { phone = "555"; password = "secret"; totp_code = "seed" }

login_lem_example :
    (admin : AdminUserRecord) × (find_by_phone "555" tables ≡ some admin)
    × (str_eq admin.status "active" ≡ true)
    × (str_eq "secret" admin.password_hash ≡ true)
    × (str_eq admin.totp_secret "seed" ≡ true)
    × (response "aaa" "bbbb" ≡ record {
      access_token = "aaa";
      refresh_token = "bbbb";
      expires_in = pos 3600;
      token_type = "Bearer";
    })
    × ((when : ℤ)
        → ltb_ℤ (add64 (pos 9) (pos 3600)) when ≡ false
        → authenticate_session
            (login str_eq str_eq hash attempt "aaa" "bbbb" (pos 9) tables).1
            (hash "aaa")
            when
          ≡ ApiResult.granted (administrator admin))
    × (AdminUserRepo.find_refresh_token
          (hash "bbbb")
          (login str_eq str_eq hash attempt "aaa" "bbbb" (pos 9) tables).1
        ≡ some (admin.id, hash "aaa", add64 (pos 9) (pos 604800), false))
unfolding login issue AdminUserRepo.find_by_phone AdminUserRepo.update_last_login
    AdminUserRepo.create_access_token AdminUserRepo.create_refresh_token
login_lem_example =
    login_lem str_eq str_eq hash attempt "aaa" "bbbb" (pos 9) tables (response "aaa" "bbbb")
      (refl, tt) refl

-- After a refresh somebody logs in.
refresh_once_example :
    let after = (refresh hash "rr" "aaa" "bbbb" (pos 9) (pos 9) tables).1 in
    let later = (login str_eq str_eq hash attempt "ccccc" "dddddd" (pos 10) after).1 in
    ((refresh hash "rr" "eeeeeee" "ffffffff" (pos 20) (pos 20) later).0
      ≡ unauthorized "refresh token expired or revoked")
    × (authenticate_session later 1 (pos 20) ≡ unauthorized "token revoked")
unfolding refresh issue AdminUserRepo.find_refresh_token AdminUserRepo.revoke_access_token
    AdminUserRepo.revoke_refresh_token AdminUserRepo.create_access_token
    AdminUserRepo.create_refresh_token
refresh_once_example =
    let after : AdminTables = (refresh hash "rr" "aaa" "bbbb" (pos 9) (pos 9) tables).1 in
    let later : AdminTables =
      (login str_eq str_eq hash attempt "ccccc" "dddddd" (pos 10) after).1 in
    refresh_once str_eq str_eq hash "rr" "aaa" "bbbb" (pos 9) (pos 9) tables later
      (response "aaa" "bbbb") old_refresh (1, old_access) refl refl refl
      (Later.after Later.now (Step.logs_in attempt "ccccc" "dddddd" (pos 10) refl)) "eeeeeee"
      "ffffffff" (pos 20)

logout_lem_example :
    authenticate_session (logout hash (ApiResult.granted "x") tables).1 1 (pos 20)
    ≡ unauthorized "token revoked"
logout_lem_example =
    logout_lem str_eq str_eq hash "x" (1, old_access) tables
      (logout hash (ApiResult.granted "x") tables).1 refl Later.now (pos 20)

abbrev empty : AdminState
empty = record {
  accounts = [];
  ledger = funded;
  tokens = [];
  policies = [];
  services = [];
  providers = [];
  mappings = [];
  models = [];
  usage = record { logs = []; accounts = []; providers = [] };
  devices = [];
  audits = [];
}

abbrev first_call : Call
first_call = record { id = 8; audit_id = 80; now = pos 9 }

abbrev newcomer : CreateAccount
newcomer = record { external_id = some 3; template = some "trial"; note = none }

abbrev new_account : Account
new_account = record {
  id = 8;
  external_id = some 3;
  status = AccountStatus.active;
  policy_id = none;
  note = some "[template=trial]";
  created_at = pos 9;
  updated_at = pos 9;
}

create_account-init_example :
    let after = (create_account (administrator chief) newcomer first_call empty).1 in
    (AccountRepo.get 8 empty.accounts ≡ none)
    × (AccountRepo.get 8 after.accounts ≡ some new_account)
    × (new_account.status ≡ AccountStatus.active)
    × (new_account.external_id ≡ newcomer.external_id)
    × (new_account.note ≡ note_of newcomer.note newcomer.template)
    × (credits_row 8 after.ledger ≡ some (opened_row 8 (pos 9)))
    × IsValid after.ledger
unfolding create_account has_scope is_super_admin AccountRepo.create
create_account-init_example =
    create_account-init (administrator chief) newcomer first_call empty new_account funded-IsValid
      refl ((λ e. ground (arith, e)), tt) refl

abbrev staffed : AdminState
staffed = (create_account (administrator chief) newcomer first_call empty).1

abbrev second_call : Call
second_call = record { id = 9; audit_id = 81; now = pos 10 }

create_token-authenticate_example :
    let after =
      (create_token hash (administrator chief) 8 none "th_live_abcdefgh" second_call staffed).1 in
    (◌≡◌ {A = ℕ × String × ℕ × String}
      (9, "th_live_abcdefgh", 8, "th_live_")
      (second_call.id, "th_live_abcdefgh", 8, display_prefix "th_live_abcdefgh"))
    × (is_some (AccountRepo.get 8 staffed.accounts) ≡ true)
    × ((authenticate_api_token
          (hash "th_live_abcdefgh")
          (pos 11)
          (record { tokens = after.tokens; cache = λ h. none })).0
        ≡ ApiResult.granted (api_user 8))
    × ((h : ℕ)
        → h ≢ hash "th_live_abcdefgh"
        → (authenticate_api_token h
            (pos 11)
            (record { tokens = after.tokens; cache = λ k. none })).0
          ≡ (authenticate_api_token h
              (pos 11)
              (record { tokens = staffed.tokens; cache = λ k. none })).0)
unfolding create_token create_account has_scope is_super_admin AccountRepo.create AccountRepo.get
    TokenRepo.create
create_token-authenticate_example =
    create_token-authenticate hash (administrator chief) 8 none "th_live_abcdefgh" second_call
      staffed (9, "th_live_abcdefgh", 8, "th_live_") refl (λ h. none) (pos 11) refl

abbrev nobody : Principal
nobody = record { kind = PrincipalKind.service; id = 5; account_id = none; scopes = [] }

abbrev no_detail : Detail → String
no_detail d = ""

handle-forbidden_example :
    handle hash no_detail nobody (Request.remove_provider 1) first_call empty
    ≡ (some ApiError.forbidden, empty)
unfolding has_scope is_super_admin
handle-forbidden_example =
    handle-forbidden hash no_detail nobody (Request.remove_provider 1) first_call empty refl

-- A token for an account that does not exist.
handle-atomic_example :
    (handle hash no_detail
      (administrator chief)
      (Request.post_token 4 none "abc")
      first_call
      empty).1
    ≡ empty
unfolding handle create_token has_scope is_super_admin AccountRepo.get
handle-atomic_example =
    handle-atomic hash no_detail (administrator chief) (Request.post_token 4 none "abc") first_call
      empty (ApiError.bad_request "account not found") refl
