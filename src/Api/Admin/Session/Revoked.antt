-- ===== src/Api/Admin/Session/Revoked.antt =====
-- crates/api/src/handlers/admin/auth.rs: a refresh token is good once, and what is revoked stays so.
use token_hub.Prelude.{
  ◌≢◌, ◌⊎◌, str_eq, DbResult-cases, ℕ, String, Bool, not, false, some, ◌≡◌, refl, inl, inr, arith,
  ◌||◌, Bool-cases, Option-cases,
}
use token_hub.Prelude.Int.{ℤ, ltb_ℤ}
use token_hub.Prelude.I64.{add64}
use token_hub.Storage.AdminUser.{
  RefreshToken, AdminTables, refresh_row, find_by_phone, update_last_login, create_access_token,
  create_refresh_token, find_refresh_token, revoke_access_token, revoke_refresh_token,
}
use token_hub.Api.Auth.Token.{ApiResult}
use token_hub.Api.Admin.Session.{
  access_token_ttl_secs, refresh_token_ttl_secs, LoginRequest, TokenResponse, issue, login, refresh,
  logout,
}
use token_hub.Api.Admin.Session.Keeps.{
  Keeps, Keeps-trans, revoke_access-Keeps, revoke_refresh-Keeps, create_access-Keeps,
  create_refresh-Keeps,
}

module _ (verify_password verify_totp : String → String → Bool) (hash : String → ℕ) where
  pub issue-Keeps :
      (access_plain refresh_plain : String) (admin : ℕ) (now : ℤ) (t : AdminTables)
      → Keeps t (issue hash access_plain refresh_plain admin now t).1
  unfolding issue
  issue-Keeps access_plain refresh_plain admin now t =
      let made =
        create_access_token (hash access_plain) admin (add64 now access_token_ttl_secs) t in
      let paired =
        create_refresh_token (hash refresh_plain) admin (hash access_plain)
          (add64 now refresh_token_ttl_secs) made.1 in
      let first =
        create_access-Keeps t (hash access_plain) admin (add64 now access_token_ttl_secs) in
      let second =
        create_refresh-Keeps made.1 (hash refresh_plain) admin (hash access_plain)
          (add64 now refresh_token_ttl_secs) in
      let both = Keeps-trans t made.1 paired.1 first second in
      elim (DbResult-cases made.0) [
        | inl e ↦ rw (e, issue) first
        | inr (u, e) ↦
            rw (e, issue)
              (elim (DbResult-cases paired.0) [ inl f ↦ rw f both | inr (v, f) ↦ rw f both ])
      ]

  update_last_login-Keeps :
      (id : ℕ) (now : ℤ) (t : AdminTables) → Keeps t (update_last_login id now t)
  unfolding update_last_login
  update_last_login-Keeps id now t = ((λ h r. r), (λ h a. a))

  login_state :
      (req : LoginRequest) (access_plain refresh_plain : String) (now : ℤ) (t : AdminTables)
      → ((login verify_password verify_totp hash req access_plain refresh_plain now t).1 ≡ t)
        ⊎ ((admin : ℕ) × ((login verify_password verify_totp hash req access_plain refresh_plain now
                t).1
              ≡ (issue hash access_plain refresh_plain admin now
                  (update_last_login admin now t)).1))
  unfolding login
  login_state req access_plain refresh_plain now t =
      elim (Option-cases (find_by_phone req.phone t)) [
        | inl missing ↦ inl (ground (arith, missing))
        | inr (admin, found) ↦ elim (Bool-cases (not (str_eq admin.status "active"))) [
          | inl disabled ↦ inl (ground (arith, found))
          | inr active ↦
              elim (Bool-cases (not (verify_password req.password admin.password_hash))) [
                | inl wrong ↦ inl (ground (arith, found))
                | inr right ↦
                    elim (Bool-cases (not (verify_totp admin.totp_secret req.totp_code))) [
                      | inl late ↦ inl (ground (arith, found))
                      | inr valid ↦ inr (admin.id, ground (arith, found))
                    ]
              ]
        ]
      ]

  login-Keeps :
      (req : LoginRequest) (access_plain refresh_plain : String) (now : ℤ) (t : AdminTables)
      → Keeps t (login verify_password verify_totp hash req access_plain refresh_plain now t).1
  login-Keeps req access_plain refresh_plain now t =
      elim (login_state req access_plain refresh_plain now t) [
        | inl same ↦ rw same ((λ h r. r), (λ h a. a))
        | inr (admin, e) ↦ rw e (
            Keeps-trans t (update_last_login admin now t)
              (issue hash access_plain refresh_plain admin now (update_last_login admin now t)).1
              (update_last_login-Keeps admin now t)
              (issue-Keeps access_plain refresh_plain admin now (update_last_login admin now t)))
      ]

-- What a refresh with a good token does before it makes new tokens.
abbrev pub spent : (refresh_hash access_hash : ℕ) → AdminTables → AdminTables
spent refresh_hash access_hash t =
    revoke_access_token access_hash (revoke_refresh_token refresh_hash t)

module _ (hash : String → ℕ) (token access_plain refresh_plain : String) (checked now : ℤ)
    (t : AdminTables) where
  abbrev pub refreshed : ApiResult TokenResponse × AdminTables
  refreshed = refresh hash token access_plain refresh_plain checked now t

  -- It is refused and changes nothing, or the token stands in the table, good, and is spent.
  pub refresh_state :
      ((refreshed.1 ≡ t) × ((r : TokenResponse) → refreshed.0 ≢ ApiResult.granted r))
      ⊎ ((r : RefreshToken) × (refresh_row (hash token) t ≡ some r)
          × (r.revoked ≡ false)
          × (ltb_ℤ r.expires_at checked ≡ false)
          × (refreshed
              ≡ issue hash access_plain refresh_plain r.admin_id now
                  (spent (hash token) r.access_token_hash t)))
  unfolding refresh find_refresh_token
  refresh_state = elim (Option-cases (refresh_row (hash token) t)) [
    | inl missing ↦ inl (ground (arith, missing), λ r. ground (arith, missing))
    | inr (r, found) ↦ elim (Bool-cases (r.revoked || ltb_ℤ r.expires_at checked)) [
      | inl bad ↦ inl (ground (arith, found), λ s. ground (arith, found))
      | inr good ↦ inr (r, found, ground arith, ground arith, rw (found, refresh, good) refl)
    ]
  ]

  spent-Keeps : (refresh_hash access_hash : ℕ) → Keeps t (spent refresh_hash access_hash t)
  spent-Keeps refresh_hash access_hash =
      Keeps-trans t (revoke_refresh_token refresh_hash t) (spent refresh_hash access_hash t)
        (revoke_refresh-Keeps t refresh_hash)
        (revoke_access-Keeps (revoke_refresh_token refresh_hash t) access_hash)

  module _ (verify_password verify_totp : String → String → Bool) where
    refresh-Keeps : Keeps t refreshed.1
    refresh-Keeps = elim refresh_state [
      | inl (same, refused) ↦ rw same ((λ h r. r), (λ h a. a))
      | inr (r, found, good, valid, e) ↦
          let after = spent (hash token) r.access_token_hash t in
          rw e (
            Keeps-trans t after (issue hash access_plain refresh_plain r.admin_id now after).1
              (spent-Keeps (hash token) r.access_token_hash)
              (issue-Keeps verify_password verify_totp hash access_plain refresh_plain r.admin_id
                now after))
    ]

module _ (verify_password verify_totp : String → String → Bool) (hash : String → ℕ) where
  -- What administrators do, in any order: log in, refresh, log out.
  pub data Step (t t' : AdminTables) : Type 0 where
    logs_in :
        (req : LoginRequest) (access_plain refresh_plain : String) (now : ℤ)
        → t' ≡ (login verify_password verify_totp hash req access_plain refresh_plain now t).1
        → Step t t'
    refreshes :
        (token access_plain refresh_plain : String) (checked now : ℤ)
        → t' ≡ (refresh hash token access_plain refresh_plain checked now t).1
        → Step t t'
    logs_out : (header : ApiResult String) → t' ≡ (logout hash header t).1 → Step t t'

  pub data Later (t : AdminTables) : AdminTables → Type 0 where
    now : Later t t
    after : {u v : AdminTables} → Later t u → Step u v → Later t v

  logout-Keeps : (header : ApiResult String) (t : AdminTables) → Keeps t (logout hash header t).1
  unfolding logout
  logout-Keeps (ApiResult.denied e) t = ((λ h r. r), (λ h a. a))
  logout-Keeps (ApiResult.granted token) t = revoke_access-Keeps t (hash token)

  Step-Keeps : {t u : AdminTables} → Step t u → Keeps t u
  Step-Keeps {t} (logs_in req access_plain refresh_plain at e) =
      rw e (login-Keeps verify_password verify_totp hash req access_plain refresh_plain at t)
  Step-Keeps {t} (refreshes token access_plain refresh_plain checked at e) =
      rw e (
        refresh-Keeps hash token access_plain refresh_plain checked at t verify_password
          verify_totp)
  Step-Keeps {t} (logs_out header e) = rw e (logout-Keeps header t)

  pub Later-Keeps : {t u : AdminTables} → Later t u → Keeps t u
  Later-Keeps now = ((λ h r. r), (λ h a. a))
  Later-Keeps {t} (after {u} {v} l s) = Keeps-trans t u v (Later-Keeps l) (Step-Keeps s)
