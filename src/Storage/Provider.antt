-- ===== src/Storage/Provider.antt =====
-- crates/storage/src/repo/provider.rs: ProviderRepo and ProviderQuotaRepo over the table
-- provider_credentials. A text of the column `status` is kept as what `map_provider` reads in it.
pub mod Effects
use token_hub.Prelude.{
  ℕ, String, Bool, true, false, not, Option, none, some, is_some, map_option, List, [], ◌∷◌, ◌++◌,
  DbResult, ok, failed, if◌then◌else◌, ◌==◌, str_eq, unwrap_or,
}
use token_hub.Prelude.Int.{ℤ, pos, ◌+ℤ◌, leb_ℤ}
use token_hub.Prelude.Table.{row, update_where, rows_affected, delete_where}
use token_hub.Prelude.Sort.{sort_by}
use token_hub.Domain.Provider.{ProviderCredential, ProviderStatus}

abbrev pub Providers : Type 0
Providers = List ProviderCredential

abbrev pub provider_row : ℕ → Providers → Option ProviderCredential
provider_row id ps = row (λ p. p.id) id ps

-- `WHERE id = ?`.
abbrev pub has_id : ℕ → ProviderCredential → Bool
has_id id p = p.id == id

unfoldable pub create :
    (id : ℕ) (name provider_type base_url api_key_enc : String)
    → Option ℤ
    → (quota_threshold now : ℤ) → Providers
    → DbResult ProviderCredential × Providers
create id name provider_type base_url api_key_enc quota_limit quota_threshold now ps =
    let p : ProviderCredential = record {
      id = id;
      name = name;
      provider_type = provider_type;
      base_url = base_url;
      api_key_enc = api_key_enc;
      status = ProviderStatus.active;
      disabled_reason = none;
      disabled_at = none;
      quota_limit = quota_limit;
      quota_used = pos 0;
      quota_threshold = quota_threshold;
      quota_alert_sent = false;
      quota_synced_at = none;
      created_at = now;
      updated_at = now;
    } in
    if is_some (provider_row id ps) then (failed, ps) else (ok p, ps ++ p ∷ [])

unfoldable pub get : ℕ → Providers → Option ProviderCredential
get id ps = provider_row id ps

-- Rows of one time stay in the order in which they were inserted.
unfoldable pub list : Providers → List ProviderCredential
list ps = sort_by (λ p q. leb_ℤ p.created_at q.created_at) ps

-- `UPDATE … WHERE id = ?`, with `rows_affected() > 0`.
abbrev pub change : ℕ → (ProviderCredential → ProviderCredential) → Providers → Bool × Providers
change id f ps = (not (rows_affected (has_id id) ps == 0), update_where (has_id id) f ps)

unfoldable pub update :
    (id : ℕ) (name base_url : String)
    → (api_key_enc : Option String) (quota_limit : Option ℤ) (quota_threshold now : ℤ) → Providers
    → Bool × Providers
update id name base_url api_key_enc quota_limit quota_threshold now = change id (λ p. record p {
  name = name;
  base_url = base_url;
  api_key_enc = unwrap_or api_key_enc p.api_key_enc;
  quota_limit = quota_limit;
  quota_threshold = quota_threshold;
  updated_at = now;
})

-- `referenced`: a mapping or an upstream model names the provider, and its foreign key forbids the
-- deletion.
unfoldable pub delete : (referenced : Bool) → ℕ → Providers → DbResult Bool × Providers
delete referenced id ps =
    if referenced
    then (failed, ps)
    else (ok (not (rows_affected (has_id id) ps == 0)), delete_where (has_id id) ps)

unfoldable pub set_status :
    (id : ℕ) (status : String) (reason : Option String) (now : ℤ) → Providers → Bool × Providers
set_status id status reason now =
    if str_eq status "active"
    then change id (λ p. record p {
      status = ProviderStatus.active;
      disabled_reason = none;
      disabled_at = none;
      updated_at = now;
    })
    else change id (λ p. record p {
      status = ProviderStatus.disabled;
      disabled_reason = reason;
      disabled_at = some now;
      updated_at = now;
    })

-- What `add_usage` and `get_quota` return: used, limit, threshold, alert_sent.
abbrev pub Quota : Type 0
Quota = ℤ × Option ℤ × ℤ × Bool

abbrev pub quota_of : ProviderCredential → Quota
quota_of p = (p.quota_used, p.quota_limit, p.quota_threshold, p.quota_alert_sent)

-- `fetch_one` fails where the `UPDATE` returns no row. The sum is the exact one: a sum out of the range
-- of 64 bits, which SQLite would store as a REAL, is not modelled.
unfoldable pub add_usage :
    (provider_id : ℕ) (tokens now : ℤ) → Providers → DbResult Quota × Providers
add_usage provider_id tokens now ps =
    let after =
      update_where (has_id provider_id)
        (λ p. record p { quota_used = p.quota_used +ℤ tokens; updated_at = now }) ps in
    elim (provider_row provider_id after) [
      | none ↦ (failed, after)
      | some p ↦ (ok (quota_of p), after)
    ]

unfoldable pub mark_alert_sent : (provider_id : ℕ) (now : ℤ) → Providers → Providers
mark_alert_sent provider_id now =
    update_where (has_id provider_id) (λ p. record p { quota_alert_sent = true; updated_at = now })

unfoldable pub sync_quota : (provider_id : ℕ) (official_used now : ℤ) → Providers → Providers
sync_quota provider_id official_used now = update_where (has_id provider_id) (λ p. record p {
  quota_used = official_used;
  quota_synced_at = some now;
  quota_alert_sent = false;
  updated_at = now;
})

unfoldable pub get_quota : ℕ → Providers → Option Quota
get_quota provider_id ps = map_option quota_of (provider_row provider_id ps)
