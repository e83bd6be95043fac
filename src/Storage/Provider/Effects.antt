-- ===== src/Storage/Provider/Effects.antt =====
-- crates/storage/src/repo/provider.rs: what disabling a provider and counting its usage do.
use token_hub.Prelude.{
  ℕ, String, true, false, Option, none, some, ok, ◌≡◌, ◌≢◌, refl, arith, inl, inr, Bool-cases,
  Option-cases, if◌then◌else◌, str_eq,
}
use token_hub.Prelude.Int.{ℤ, ◌+ℤ◌}
use token_hub.Prelude.Table.{update_where, row-update_where, key-row}
use token_hub.Domain.Provider.{ProviderCredential, ProviderStatus}
use token_hub.Storage.Provider.{
  Providers, provider_row, has_id, get, set_status, add_usage, get_quota, Quota, mark_alert_sent,
  sync_quota,
}

module _ (id : ℕ) (f : ProviderCredential → ProviderCredential)
    (kept : (p : ProviderCredential) → (f p).id ≡ p.id) (ps : Providers) where
  changed_self :
      (p : ProviderCredential)
      → provider_row id ps ≡ some p
      → provider_row id (update_where (has_id id) f ps) ≡ some (f p)
  changed_self p found = ground (
    arith,
    row-update_where (λ q. q.id) (has_id id) f kept id ps,
    key-row (λ q. q.id) id ps p found,
  )

  changed_ne : (j : ℕ) → j ≢ id → provider_row j (update_where (has_id id) f ps) ≡ provider_row j ps
  changed_ne j away = elim (Option-cases (provider_row j ps)) [
    | inl missing ↦ ground (arith, row-update_where (λ q. q.id) (has_id id) f kept j ps)
    | inr (p, found) ↦ ground (
      arith,
      row-update_where (λ q. q.id) (has_id id) f kept j ps,
      key-row (λ q. q.id) j ps p found,
    )
  ]

-- A provider as `set_status` leaves it.
abbrev pub with_status :
    (status : String) (reason : Option String) → ℤ → ProviderCredential → ProviderCredential
with_status status reason now p =
    if str_eq status "active"
    then record p {
      status = ProviderStatus.active;
      disabled_reason = none;
      disabled_at = none;
      updated_at = now;
    }
    else record p {
      status = ProviderStatus.disabled;
      disabled_reason = reason;
      disabled_at = some now;
      updated_at = now;
    }

-- `set_status` changes the one provider that it names: the status "active" enables it and forgets
-- why and when it was disabled, any other status disables it and keeps the reason and the time.
-- Every other provider stays as it was.
pub get-set_status :
    (id : ℕ) (status : String) (reason : Option String) (now : ℤ) (ps : Providers)
    (p : ProviderCredential)
    → get id ps ≡ some p
    → let after = (set_status id status reason now ps).1 in
      (get id after ≡ some (with_status status reason now p))
      × ((j : ℕ) → j ≢ id → get j after ≡ get j ps)
unfolding get set_status
get-set_status id status reason now ps p found = elim (Bool-cases (str_eq status "active")) [
  | inl enable ↦
      rw enable
        (changed_self id _ (λ q. refl) ps p found, λ j away. changed_ne id _ (λ q. refl) ps j away)
  | inr disable ↦
      rw disable
        (changed_self id _ (λ q. refl) ps p found, λ j away. changed_ne id _ (λ q. refl) ps j away)
]

-- The usage of a provider grows by the tokens of the call; the caller is told the new sum, which is
-- also what `get_quota` reads afterwards, and whether an alert was sent; every other provider stays
-- as it was.
pub add_usage_lem :
    (id : ℕ) (tokens now : ℤ) (ps : Providers) (p : ProviderCredential)
    → get id ps ≡ some p
    → let (r, after) = add_usage id tokens now ps in
      let quota : Quota =
        (p.quota_used +ℤ tokens, p.quota_limit, p.quota_threshold, p.quota_alert_sent) in
      (r ≡ ok quota)
      × (get_quota id after ≡ some quota)
      × ((j : ℕ) → j ≢ id → get j after ≡ get j ps)
unfolding get add_usage get_quota
add_usage_lem id tokens now ps p found =
    let f : ProviderCredential → ProviderCredential =
      λ q. record q { quota_used = q.quota_used +ℤ tokens; updated_at = now } in
    let self = changed_self id f (λ q. refl) ps p found in
    (
      rw (self, add_usage),
      ground (arith, self),
      λ j away. rw (self, add_usage) (changed_ne id f (λ q. refl) ps j away),
    )

-- An alert that was sent is remembered: until the quota is synchronised, no later usage reports it
-- as unsent, however much is added; and a synchronisation, which sets the usage, arms it again.
pub alert_once :
    (id : ℕ) (sent tokens later : ℤ) (ps : Providers) (p : ProviderCredential)
    → get id ps ≡ some p
    → let marked = mark_alert_sent id sent ps in
      ((add_usage id tokens later marked).0
        ≡ ok (p.quota_used +ℤ tokens, p.quota_limit, p.quota_threshold, true))
      × ((used : ℤ)
          → get_quota id (sync_quota id used later marked)
            ≡ some (used, p.quota_limit, p.quota_threshold, false))
unfolding get mark_alert_sent sync_quota get_quota
alert_once id sent tokens later ps p found =
    let f : ProviderCredential → ProviderCredential =
      λ q. record q { quota_alert_sent = true; updated_at = sent } in
    let self = changed_self id f (λ q. refl) ps p found in
    (
      (add_usage_lem id tokens later (update_where (has_id id) f ps) (f p) (unfold get in self)).0,
      λ used.
          let g : ProviderCredential → ProviderCredential = λ q. record q {
            quota_used = used;
            quota_synced_at = some later;
            quota_alert_sent = false;
            updated_at = later;
          } in
          rw (changed_self id g (λ q. refl) (update_where (has_id id) f ps) (f p) self, get_quota),
    )
