-- ===== src/Api/Admin/Session/Login.antt =====
-- crates/api/src/handlers/admin/auth.rs, with crates/api/src/middleware/auth_admin.rs: who can log in,
-- and what the token of a login is good for.
use token_hub.Prelude.{
  ℕ, String, Bool, true, false, not, some, is_some, List, [], ◌∷◌, ◌≡◌, ◌∙◌, refl, ap, inl, inr,
  arith, ◌||◌, ◌==◌, str_eq, Bool-cases, Option-cases,
}
use token_hub.Prelude.Int.{ℤ, pos, ltb_ℤ}
use token_hub.Prelude.I64.{add64}
use token_hub.Prelude.Table.{find, row, Unique, row-update_where, row-insert}
use token_hub.Storage.AdminUser.{
  AdminUserRecord, AdminTables, user_row, access_row, refresh_row, find_by_phone, find_by_id,
  is_user, update_last_login, create_access_token, create_refresh_token, find_access_token,
  find_refresh_token,
}
use token_hub.Api.Auth.Token.{ApiResult}
use token_hub.Api.Auth.Admin.{administrator, authenticate_session}
use token_hub.Api.Admin.Session.{
  LoginRequest, TokenResponse, access_token_ttl_secs, refresh_token_ttl_secs, issue, login,
}

-- A row that a search finds is the row with its key, where keys are unique.
row-find {ℓ} :
    {V : Type ℓ} (key : V → ℕ) (p : V → Bool) (rows : List V) (r : V)
    → Unique key rows
    → find p rows ≡ some r
    → row key (key r) rows ≡ some r
row-find key p [] r u e = absurd (ground (arith, e))
row-find key p (s ∷ rows) r u e = elim (Bool-cases (p s)) [
  | inl here ↦ let same : s ≡ r = ground arith in ground (arith, same)
  | inr later ↦
      let rest = row-find key p rows r u.1 (ground arith) in
      elim (Bool-cases (key s == key r)) [
        | inl twice ↦ absurd (ground (arith, u.0, rest))
        | inr other ↦ rw other rest
      ]
]

module _ (hash : String → ℕ) (access_plain refresh_plain : String) (admin : ℕ) (now : ℤ)
    (t : AdminTables) (response : TokenResponse) where
  -- What stands in the tables after tokens were issued.
  issue_rows :
      (issue hash access_plain refresh_plain admin now t).0 ≡ ApiResult.granted response
      → (find_access_token (hash access_plain) (issue hash access_plain refresh_plain admin now t).1
          ≡ some (record {
            admin_id = admin;
            expires_at = add64 now access_token_ttl_secs;
            revoked = false;
          }))
        × ((issue hash access_plain refresh_plain admin now t).1.users ≡ t.users)
  unfolding issue create_access_token create_refresh_token find_access_token
  issue_rows granted =
      elim (Bool-cases
        (is_some (access_row (hash access_plain) t) || not (is_some (user_row admin t)))) [
          | inl refused ↦ absurd (ground (arith, granted))
          | inr fresh ↦
              let new =
                row-insert (λ a. a.0) (hash access_plain)
                  (
                    hash access_plain,
                    record {
                      admin_id = admin;
                      expires_at = add64 now access_token_ttl_secs;
                      revoked = false;
                    },
                  )
                  t.accesses (ground arith) in
              elim (Bool-cases (
                is_some (refresh_row (hash refresh_plain) t) || not (is_some (user_row admin t)))) [
                  | inl taken ↦ absurd (ground (arith, granted))
                  | inr free ↦ (ground (arith, new), ground arith)
                ]
        ]

  -- What is returned: the two tokens' texts, each in its own field, and how long the access token lasts.
  response-issue :
      (issue hash access_plain refresh_plain admin now t).0 ≡ ApiResult.granted response
      → response ≡ record {
        access_token = access_plain;
        refresh_token = refresh_plain;
        expires_in = access_token_ttl_secs;
        token_type = "Bearer";
      }
  unfolding issue create_access_token create_refresh_token
  response-issue granted =
      elim (Bool-cases
        (is_some (access_row (hash access_plain) t) || not (is_some (user_row admin t)))) [
          | inl refused ↦ absurd (ground (arith, granted))
          | inr fresh ↦
              elim (Bool-cases (
                is_some (refresh_row (hash refresh_plain) t) || not (is_some (user_row admin t)))) [
                  | inl taken ↦ absurd (ground (arith, granted))
                  | inr free ↦ ground (arith, granted)
                ]
        ]

  -- The refresh token that is returned stands in the tables, beside the access token's hash.
  issue_refresh :
      (issue hash access_plain refresh_plain admin now t).0 ≡ ApiResult.granted response
      → find_refresh_token
          (hash refresh_plain)
          (issue hash access_plain refresh_plain admin now t).1
        ≡ some (admin, hash access_plain, add64 now refresh_token_ttl_secs, false)
  unfolding issue create_access_token create_refresh_token find_refresh_token
  issue_refresh granted =
      elim (Bool-cases
        (is_some (access_row (hash access_plain) t) || not (is_some (user_row admin t)))) [
          | inl refused ↦ absurd (ground (arith, granted))
          | inr fresh ↦
              let new =
                row-insert (λ r. r.token_hash) (hash refresh_plain)
                  (record {
                    token_hash = hash refresh_plain;
                    admin_id = admin;
                    access_token_hash = hash access_plain;
                    expires_at = add64 now refresh_token_ttl_secs;
                    revoked = false;
                  })
                  t.refreshes (ground arith) in
              elim (Bool-cases (
                is_some (refresh_row (hash refresh_plain) t) || not (is_some (user_row admin t)))) [
                  | inl taken ↦ absurd (ground (arith, granted))
                  | inr free ↦ ground (arith, new)
                ]
        ]

-- The session of a token that stands in the tables, not revoked, of an active administrator.
session_granted :
    (h : ℕ) (admin : AdminUserRecord) (expires when : ℤ) (t : AdminTables)
    → find_access_token h t
      ≡ some (record { admin_id = admin.id; expires_at = expires; revoked = false })
    → user_row admin.id t ≡ some admin
    → str_eq admin.status "active" ≡ true
    → ltb_ℤ expires when ≡ false
    → authenticate_session t h when ≡ ApiResult.granted (administrator admin)
unfolding authenticate_session find_by_id
session_granted h admin expires when t found user active valid = ground (arith, found, user)

accepted :
    (hash : String → ℕ) (access_plain refresh_plain : String) (admin : AdminUserRecord) (now : ℤ)
    (t : AdminTables) (response : TokenResponse)
    → user_row admin.id t ≡ some admin
    → str_eq admin.status "active" ≡ true
    → (issue hash access_plain refresh_plain admin.id now (update_last_login admin.id now t)).0
      ≡ ApiResult.granted response
    → (when : ℤ) → ltb_ℤ (add64 now access_token_ttl_secs) when ≡ false
    → authenticate_session
        (issue hash access_plain refresh_plain admin.id now (update_last_login admin.id now t)).1
        (hash access_plain)
        when
      ≡ ApiResult.granted (administrator admin)
accepted hash access_plain refresh_plain admin now t response user active granted when valid =
    let seen = update_last_login admin.id now t in
    let rows = issue_rows hash access_plain refresh_plain admin.id now seen response granted in
    let updated =
      row-update_where (λ u. u.id) (is_user admin.id) (λ u. record u { last_login_at = some now })
        (λ u. refl) admin.id t.users in
    let found : user_row admin.id seen ≡ some (record admin { last_login_at = some now }) =
      unfold update_last_login in updated ∙ ground (arith, user) in
    session_granted (hash access_plain) (record admin { last_login_at = some now })
      (add64 now access_token_ttl_secs) when
      (issue hash access_plain refresh_plain admin.id now seen).1 rows.0
      (ap (λ users. row (λ u. u.id) admin.id users) rows.1 ∙ found) active valid

module _ (verify_password verify_totp : String → String → Bool) (hash : String → ℕ) where
  -- In tables with unique administrators' identifiers: whoever is logged in has named the phone of an
  -- administrator who is active, and has given the password and a code that the checks accept for that
  -- administrator. The answer has the access token's and the refresh token's text each in its own
  -- field, and a duration of an hour. The access token that is returned then lets its bearer in as that
  -- administrator until it expires, an hour later, and the refresh token that is returned stands in
  -- the tables for seven days, unrevoked, beside the hash of that access token.
  pub login_lem :
      (req : LoginRequest) (access_plain refresh_plain : String) (now : ℤ) (t : AdminTables)
      (response : TokenResponse)
      → Unique (λ u. u.id) t.users
      → (login verify_password verify_totp hash req access_plain refresh_plain now t).0
        ≡ ApiResult.granted response
      → (admin : AdminUserRecord) × (find_by_phone req.phone t ≡ some admin)
        × (str_eq admin.status "active" ≡ true)
        × (verify_password req.password admin.password_hash ≡ true)
        × (verify_totp admin.totp_secret req.totp_code ≡ true)
        × (response ≡ record {
          access_token = access_plain;
          refresh_token = refresh_plain;
          expires_in = pos 3600;
          token_type = "Bearer";
        })
        × ((when : ℤ)
            → ltb_ℤ (add64 now (pos 3600)) when ≡ false
            → authenticate_session
                (login verify_password verify_totp hash req access_plain refresh_plain now t).1
                (hash response.access_token)
                when
              ≡ ApiResult.granted (administrator admin))
        × (find_refresh_token
              (hash response.refresh_token)
              (login verify_password verify_totp hash req access_plain refresh_plain now t).1
            ≡ some (admin.id, hash response.access_token, add64 now (pos 604800), false))
  unfolding login find_by_phone
  login_lem req access_plain refresh_plain now t response unique granted =
      elim (Option-cases (find_by_phone req.phone t)) [
        | inl missing ↦ absurd (ground (arith, missing, granted))
        | inr (admin, found) ↦ elim (Bool-cases (not (str_eq admin.status "active"))) [
          | inl disabled ↦ absurd (ground (arith, found, granted))
          | inr active ↦
              elim (Bool-cases (not (verify_password req.password admin.password_hash))) [
                | inl wrong ↦ absurd (ground (arith, found, granted))
                | inr right ↦
                    elim (Bool-cases (not (verify_totp admin.totp_secret req.totp_code))) [
                      | inl late ↦ absurd (ground (arith, found, granted))
                      | inr valid ↦
                          let e : login verify_password verify_totp hash req access_plain
                                refresh_plain now t
                              ≡ issue hash access_plain refresh_plain admin.id now
                                  (update_last_login admin.id now t) =
                            rw (found, login, active, right, valid) refl in
                          let user = row-find (λ u. u.id) _ t.users admin unique found in
                          let issued = rw e at granted in
                          let seen = update_last_login admin.id now t in
                          let what =
                            response-issue hash access_plain refresh_plain admin.id now seen
                              response issued in
                          (
                            admin,
                            found,
                            ground arith,
                            ground arith,
                            ground arith,
                            what,
                            (λ when alive.
                                rw (e, what)
                                  (accepted hash access_plain refresh_plain admin now t response
                                    user (ground arith) issued when alive)),
                            rw (e, what)
                                (issue_refresh hash access_plain refresh_plain admin.id now seen
                                  response issued),
                          )
                    ]
              ]
        ]
      ]
