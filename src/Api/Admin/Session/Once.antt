-- ===== src/Api/Admin/Session/Once.antt =====
-- crates/api/src/handlers/admin/auth.rs: after a refresh and after a logout.
use token_hub.Prelude.{ℕ, String, Bool, true, some, ◌≡◌, ◌∙◌, refl, inl, inr, arith}
use token_hub.Prelude.Int.{ℤ}
use token_hub.Prelude.Table.{key-row}
use token_hub.Storage.AdminUser.{
  AccessTokenRecord, RefreshToken, AdminTables, access_row, refresh_row, revoked_access,
  find_access_token, find_refresh_token, revoke_access_token, revoke_refresh_token,
}
use token_hub.Api.Auth.Token.{ApiResult}
use token_hub.Api.Auth.Admin.{authenticate_session}
use token_hub.Api.Admin.Session.{TokenResponse, refresh, logout, unauthorized}
use token_hub.Api.Admin.Session.Revoked.{Later, Later-Keeps, refresh_state, issue-Keeps, spent}
use token_hub.Api.Admin.Session.Keeps.{
  RefreshRevoked, AccessRevoked, revoke_access-Keeps, revoke_access_row, revoke_refresh_row,
}

refresh_refused :
    (hash : String → ℕ) (token access_plain refresh_plain : String) (checked now : ℤ)
    (u : AdminTables)
    → RefreshRevoked (hash token) u
    → (refresh hash token access_plain refresh_plain checked now u).0
      ≡ unauthorized "refresh token expired or revoked"
unfolding refresh find_refresh_token
refresh_refused hash token access_plain refresh_plain checked now u (r, found, gone) =
    ground (arith, found, gone)

access_refused :
    (h : ℕ) (now : ℤ) (u : AdminTables)
    → AccessRevoked h u
    → authenticate_session u h now ≡ unauthorized "token revoked"
unfolding authenticate_session find_access_token
access_refused h now u (a, found, gone) = ground (arith, found, gone)

revoke_access-Revoked :
    (h : ℕ) (a : ℕ × AccessTokenRecord) (t : AdminTables)
    → access_row h t ≡ some a
    → AccessRevoked h (revoke_access_token h t)
revoke_access-Revoked h a t found = (
  revoked_access a,
  revoke_access_row t h h ∙ ground (arith, found, key-row (λ b. b.0) h t.accesses a found),
  refl,
)

revoke_refresh-Revoked :
    (h : ℕ) (r : RefreshToken) (t : AdminTables)
    → refresh_row h t ≡ some r
    → RefreshRevoked h (revoke_refresh_token h t)
revoke_refresh-Revoked h r t found = (
  record r { revoked = true },
  revoke_refresh_row t h h
      ∙ ground (arith, found, key-row (λ s. s.token_hash) h t.refreshes r found),
  refl,
)

module _ (verify_password verify_totp : String → String → Bool) (hash : String → ℕ) where
  -- A refresh that succeeds spends its token: whatever logins, refreshes and logouts follow, the same
  -- refresh token is refused at every later time, and the access token that was made with it, if its
  -- row is there, lets nobody in as an administrator.
  pub refresh_once :
      (token access_plain refresh_plain : String) (checked now : ℤ) (t u : AdminTables)
      (response : TokenResponse) (spent_row : RefreshToken) (old : ℕ × AccessTokenRecord)
      → (refresh hash token access_plain refresh_plain checked now t).0 ≡ ApiResult.granted response
      → refresh_row (hash token) t ≡ some spent_row
      → access_row spent_row.access_token_hash t ≡ some old
      → Later verify_password verify_totp hash
          (refresh hash token access_plain refresh_plain checked now t).1
          u
      → (next_access next_refresh : String) (later : ℤ)
      → ((refresh hash token next_access next_refresh later later u).0
          ≡ unauthorized "refresh token expired or revoked")
        × (authenticate_session u spent_row.access_token_hash later ≡ unauthorized "token revoked")
  refresh_once token access_plain refresh_plain checked now t u response spent_row old granted found
        paired path next_access next_refresh later =
      elim (refresh_state hash token access_plain refresh_plain checked now t) [
        | inl (same, refused) ↦ absurd (refused response granted)
        | inr (r, found', good, valid, e) ↦
            let h = hash token in
            let g = spent_row.access_token_hash in
            let row_of : r ≡ spent_row = ground (arith, found, found') in
            let t1 = revoke_refresh_token h t in
            let t2 = spent h r.access_token_hash t in
            let gone : RefreshRevoked h t2 =
              (revoke_access-Keeps t1 r.access_token_hash).0 h
                (revoke_refresh-Revoked h spent_row t found) in
            let closed : AccessRevoked g t2 =
              rw row_of (revoke_access-Revoked g old t1 (unfold revoke_refresh_token in paired)) in
            let issued =
              issue-Keeps verify_password verify_totp hash access_plain refresh_plain r.admin_id now
                t2 in
            let last = Later-Keeps verify_password verify_totp hash path in
            (
              refresh_refused hash token next_access next_refresh later later u
                  (last.0 h (rw e (issued.0 h gone))),
              access_refused g later u (last.1 g (rw e (issued.1 g closed))),
            )
      ]

  -- After a logout its token lets nobody in as an administrator, at any later time and whatever
  -- logins, refreshes and logouts follow, if the token's row is there.
  pub logout_lem :
      (token : String) (row_of : ℕ × AccessTokenRecord) (t u : AdminTables)
      → access_row (hash token) t ≡ some row_of
      → Later verify_password verify_totp hash (logout hash (ApiResult.granted token) t).1 u
      → (later : ℤ) → authenticate_session u (hash token) later ≡ unauthorized "token revoked"
  unfolding logout
  logout_lem token row_of t u found path later = access_refused (hash token) later u (
      (Later-Keeps verify_password verify_totp hash path).1 (hash token)
        (revoke_access-Revoked (hash token) row_of t found))
