-- ===== src/Storage/ServiceAccount.antt =====
-- crates/storage/src/repo/service_account.rs: ServiceAccountRepo over the table service_accounts, of
-- which the client's identifier is unique.
use token_hub.Prelude.{
  ℕ, String, Bool, not, ◌||◌, Option, none, is_some, map_option, List, [], ◌∷◌, ◌++◌, map, DbResult,
  ok, failed, if◌then◌else◌, ◌==◌,
}
use token_hub.Prelude.Int.{ℤ, leb_ℤ}
use token_hub.Prelude.Table.{row, update_where, rows_affected}
use token_hub.Prelude.Page.{page}
use token_hub.Prelude.Sort.{sort_by}

pub record ServiceAccountRecord : Type 0 where
  pub id : ℕ
  pub client_id : ℕ
  pub name : String
  pub scopes : List String
  pub ip_whitelist : Option (List String)
  pub public_key : Option String
  pub status : String
  pub created_at : ℤ
  pub updated_at : ℤ

-- A row has the hash of the secret besides what `map_service_account` reads.
pub record ServiceRow : Type 0 where
  pub account : ServiceAccountRecord
  pub client_secret_hash : ℕ

abbrev pub Services : Type 0
Services = List ServiceRow

abbrev pub service_row : ℕ → Services → Option ServiceRow
service_row id ss = row (λ s. s.account.id) id ss

abbrev pub client_row : ℕ → Services → Option ServiceRow
client_row client_id ss = row (λ s. s.account.client_id) client_id ss

unfoldable pub create :
    (id client_id client_secret_hash : ℕ) (name : String) (scopes : List String)
    → Option (List String)
    → (now : ℤ) → Services
    → DbResult ServiceAccountRecord × Services
create id client_id client_secret_hash name scopes ip_whitelist now ss =
    let r : ServiceAccountRecord = record {
      id = id;
      client_id = client_id;
      name = name;
      scopes = scopes;
      ip_whitelist = ip_whitelist;
      public_key = none;
      status = "active";
      created_at = now;
      updated_at = now;
    } in
    if is_some (service_row id ss) || is_some (client_row client_id ss)
    then (failed, ss)
    else (ok r, ss ++ record { account = r; client_secret_hash = client_secret_hash } ∷ [])

-- The identifier, the hash of the secret, the scopes and the status.
unfoldable pub find_auth : ℕ → Services → Option (ℕ × ℕ × List String × String)
find_auth client_id ss =
    map_option (λ s. (s.account.id, s.client_secret_hash, s.account.scopes, s.account.status))
      (client_row client_id ss)

unfoldable pub find_by_client_id : ℕ → Services → Option ServiceAccountRecord
find_by_client_id client_id ss = map_option (λ s. s.account) (client_row client_id ss)

unfoldable pub find_by_id : ℕ → Services → Option ServiceAccountRecord
find_by_id id ss = map_option (λ s. s.account) (service_row id ss)

unfoldable pub list : (limit offset : ℤ) → Services → List ServiceAccountRecord
list limit offset ss =
    map (λ s. s.account)
      (page limit offset (sort_by (λ s u. leb_ℤ u.account.created_at s.account.created_at) ss))

-- `UPDATE … WHERE id = ?`, with `rows_affected() > 0`.
abbrev pub change : ℕ → (ServiceRow → ServiceRow) → Services → Bool × Services
change id f ss = (
  not (rows_affected (λ s. s.account.id == id) ss == 0),
  update_where (λ s. s.account.id == id) f ss,
)

unfoldable pub update_scopes_ips :
    (id : ℕ) (scopes : List String) → Option (List String) → (now : ℤ) → Services → Bool × Services
update_scopes_ips id scopes ip_whitelist now = change id (λ s. record s {
  account = record (s.account) { scopes = scopes; ip_whitelist = ip_whitelist; updated_at = now };
})

unfoldable pub reset_secret : (id new_secret_hash : ℕ) (now : ℤ) → Services → Bool × Services
reset_secret id new_secret_hash now = change id (λ s. record s {
  account = record (s.account) { updated_at = now };
  client_secret_hash = new_secret_hash;
})

unfoldable pub set_status : (id : ℕ) (status : String) (now : ℤ) → Services → Bool × Services
set_status id status now =
    change id (λ s. record s { account = record (s.account) { status = status; updated_at = now } })
