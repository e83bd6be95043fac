-- ===== src/Storage/AdminUser.antt =====
-- crates/storage/src/repo/admin_user.rs: AdminUserRepo over the tables admin_users,
-- admin_access_tokens and admin_refresh_tokens. The times at which tokens were made are never read.
use token_hub.Prelude.{
  ℕ, String, Bool, true, false, not, ◌||◌, Option, none, some, is_some, map_option, List, [], ◌∷◌,
  ◌++◌, DbResult, ok, failed, if◌then◌else◌, ◌==◌, str_eq,
}
use token_hub.Prelude.Int.{ℤ}
use token_hub.Prelude.Table.{find, row, update_where, rows_affected}

pub record AdminUserRecord : Type 0 where
  pub id : ℕ
  pub phone : String
  pub password_hash : String
  pub totp_secret : String
  pub roles : List String
  pub status : String
  pub created_at : ℤ
  pub last_login_at : Option ℤ

pub record AccessTokenRecord : Type 0 where
  pub admin_id : ℕ
  pub expires_at : ℤ
  pub revoked : Bool

-- A row of admin_refresh_tokens.
pub record RefreshToken : Type 0 where
  pub token_hash : ℕ
  pub admin_id : ℕ
  pub access_token_hash : ℕ
  pub expires_at : ℤ
  pub revoked : Bool

-- An access token stands under its hash.
pub record AdminTables : Type 0 where
  pub users : List AdminUserRecord
  pub accesses : List (ℕ × AccessTokenRecord)
  pub refreshes : List RefreshToken

abbrev pub user_row : ℕ → AdminTables → Option AdminUserRecord
user_row id t = row (λ u. u.id) id t.users

abbrev pub access_row : ℕ → AdminTables → Option (ℕ × AccessTokenRecord)
access_row token_hash t = row (λ a. a.0) token_hash t.accesses

abbrev pub refresh_row : ℕ → AdminTables → Option RefreshToken
refresh_row token_hash t = row (λ r. r.token_hash) token_hash t.refreshes

unfoldable pub find_by_phone : String → AdminTables → Option AdminUserRecord
find_by_phone phone t = find (λ u. str_eq u.phone phone) t.users

unfoldable pub find_by_id : ℕ → AdminTables → Option AdminUserRecord
find_by_id id t = user_row id t

unfoldable pub create :
    (id : ℕ) (phone password_hash totp_secret : String) (roles : List String) (now : ℤ)
    → AdminTables
    → DbResult (Unit {0}) × AdminTables
unfolding find_by_phone
create id phone password_hash totp_secret roles now t =
    if is_some (user_row id t) || is_some (find_by_phone phone t) then (failed, t) else (
      ok tt,
      record t {
        users =
            t.users
            ++ record {
              id = id;
              phone = phone;
              password_hash = password_hash;
              totp_secret = totp_secret;
              roles = roles;
              status = "active";
              created_at = now;
              last_login_at = none;
            }
              ∷ [];
      },
    )

abbrev pub is_user : ℕ → AdminUserRecord → Bool
is_user id u = u.id == id

unfoldable pub update_last_login : ℕ → ℤ → AdminTables → AdminTables
update_last_login id now t = record t {
  users = update_where (is_user id) (λ u. record u { last_login_at = some now }) t.users;
}

unfoldable pub set_status : ℕ → String → AdminTables → Bool × AdminTables
set_status id status t = (
  not (rows_affected (is_user id) t.users == 0),
  record t { users = update_where (is_user id) (λ u. record u { status = status }) t.users },
)

unfoldable pub reset_totp : ℕ → String → AdminTables → Bool × AdminTables
reset_totp id new_secret t = (
  not (rows_affected (is_user id) t.users == 0),
  record t {
    users = update_where (is_user id) (λ u. record u { totp_secret = new_secret }) t.users;
  },
)

-- The hash is the key, and the foreign key wants the administrator.
unfoldable pub create_access_token :
    (token_hash admin_id : ℕ) (expires_at : ℤ) → AdminTables → DbResult (Unit {0}) × AdminTables
create_access_token token_hash admin_id expires_at t =
    if is_some (access_row token_hash t) || not (is_some (user_row admin_id t))
    then (failed, t)
    else (
      ok tt,
      record t {
        accesses =
            t.accesses
            ++ (
              token_hash,
              record { admin_id = admin_id; expires_at = expires_at; revoked = false },
            )
              ∷ [];
      },
    )

unfoldable pub find_access_token : ℕ → AdminTables → Option AccessTokenRecord
find_access_token token_hash t = map_option (λ a. a.1) (access_row token_hash t)

abbrev pub has_hash : ℕ → ℕ × AccessTokenRecord → Bool
has_hash token_hash a = a.0 == token_hash

abbrev pub revoked_access : ℕ × AccessTokenRecord → ℕ × AccessTokenRecord
revoked_access a = (a.0, record (a.1) { revoked = true })

unfoldable pub revoke_access_token : ℕ → AdminTables → AdminTables
revoke_access_token token_hash t = record t {
  accesses = update_where (has_hash token_hash) revoked_access t.accesses;
}

unfoldable pub revoke_all_access_tokens : ℕ → AdminTables → AdminTables
revoke_all_access_tokens admin_id t = record t {
  accesses = update_where (λ a. a.1.admin_id == admin_id) revoked_access t.accesses;
}

unfoldable pub create_refresh_token :
    (token_hash admin_id access_token_hash : ℕ) (expires_at : ℤ)
    → AdminTables
    → DbResult (Unit {0}) × AdminTables
create_refresh_token token_hash admin_id access_token_hash expires_at t =
    if is_some (refresh_row token_hash t) || not (is_some (user_row admin_id t))
    then (failed, t)
    else (
      ok tt,
      record t {
        refreshes =
            t.refreshes
            ++ record {
              token_hash = token_hash;
              admin_id = admin_id;
              access_token_hash = access_token_hash;
              expires_at = expires_at;
              revoked = false;
            }
              ∷ [];
      },
    )

unfoldable pub find_refresh_token : ℕ → AdminTables → Option (ℕ × ℕ × ℤ × Bool)
find_refresh_token token_hash t =
    map_option (λ r. (r.admin_id, r.access_token_hash, r.expires_at, r.revoked))
      (refresh_row token_hash t)

unfoldable pub revoke_refresh_token : ℕ → AdminTables → AdminTables
revoke_refresh_token token_hash t = record t {
  refreshes =
      update_where (λ r. r.token_hash == token_hash) (λ r. record r { revoked = true }) t.refreshes;
}
