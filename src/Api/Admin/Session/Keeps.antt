-- ===== src/Api/Admin/Session/Keeps.antt =====
-- crates/storage/src/repo/admin_user.rs: what is revoked stays revoked, statement by statement.
use token_hub.Prelude.{
  ℕ, is_some, not, true, some, ◌≡◌, ◌∙◌, refl, inl, inr, arith, map_option, ◌||◌, ◌==◌, Bool-cases,
  if◌then◌else◌,
}
use token_hub.Prelude.Int.{ℤ}
use token_hub.Prelude.Table.{row-update_where, row-insert}
use token_hub.Storage.AdminUser.{
  AccessTokenRecord, RefreshToken, AdminTables, user_row, access_row, refresh_row, has_hash,
  revoked_access, create_access_token, create_refresh_token, revoke_access_token,
  revoke_refresh_token,
}

-- The rows of a refresh token and of an access token, both revoked.
abbrev pub RefreshRevoked : ℕ → AdminTables → Type 0
RefreshRevoked h t = (r : RefreshToken) × (refresh_row h t ≡ some r) × (r.revoked ≡ true)

abbrev pub AccessRevoked : ℕ → AdminTables → Type 0
AccessRevoked h t = (a : ℕ × AccessTokenRecord) × (access_row h t ≡ some a) × (a.1.revoked ≡ true)

-- A table that only grows, and in which what is revoked stays so.
abbrev pub Keeps : AdminTables → AdminTables → Type 0
Keeps t t' =
    ((h : ℕ) → RefreshRevoked h t → RefreshRevoked h t')
    × ((h : ℕ) → AccessRevoked h t → AccessRevoked h t')

pub Keeps-trans : (t u v : AdminTables) → Keeps t u → Keeps u v → Keeps t v
Keeps-trans t u v k l = ((λ h r. l.0 h (k.0 h r)), (λ h a. l.1 h (k.1 h a)))

module _ (t : AdminTables) where
  pub revoke_access_row :
      (g h : ℕ)
      → access_row h (revoke_access_token g t)
        ≡ map_option (λ a. if has_hash g a then revoked_access a else a) (access_row h t)
  unfolding revoke_access_token
  revoke_access_row g h =
      row-update_where (λ a. a.0) (has_hash g) revoked_access (λ a. refl) h t.accesses

  pub revoke_access-Keeps : (g : ℕ) → Keeps t (revoke_access_token g t)
  revoke_access-Keeps g = (
    unfold revoke_access_token in λ h r. r,
    λ h (a, found, gone). (
      (if has_hash g a then revoked_access a else a),
      revoke_access_row g h ∙ ground (arith, found),
      ground arith,
    ),
  )

  pub revoke_refresh_row :
      (g h : ℕ)
      → refresh_row h (revoke_refresh_token g t)
        ≡ map_option
            (λ r. if r.token_hash == g then record r { revoked = true } else r)
            (refresh_row h t)
  unfolding revoke_refresh_token
  revoke_refresh_row g h =
      row-update_where (λ r. r.token_hash) (λ r. r.token_hash == g)
        (λ r. record r { revoked = true }) (λ r. refl) h t.refreshes

  pub revoke_refresh-Keeps : (g : ℕ) → Keeps t (revoke_refresh_token g t)
  revoke_refresh-Keeps g = (
    λ h (r, found, gone). (
      (if r.token_hash == g then record r { revoked = true } else r),
      revoke_refresh_row g h ∙ ground (arith, found),
      ground arith,
    ),
    unfold revoke_refresh_token in λ h a. a,
  )

  pub create_access-Keeps :
      (g admin : ℕ) (expires : ℤ) → Keeps t (create_access_token g admin expires t).1
  unfolding create_access_token
  create_access-Keeps g admin expires =
      elim (Bool-cases (is_some (access_row g t) || not (is_some (user_row admin t)))) [
        | inl refused ↦ rw refused ((λ h r. r), (λ h a. a))
        | inr fresh ↦ rw fresh (
          (λ h r. r),
          (λ h (a, found, gone).
              let new = row-insert (λ b. b.0) h (g, _) t.accesses (ground arith) in
              (a, new ∙ ground (arith, found, fresh), gone)),
        )
      ]

  pub create_refresh-Keeps :
      (g admin access : ℕ) (expires : ℤ) → Keeps t (create_refresh_token g admin access expires t).1
  unfolding create_refresh_token
  create_refresh-Keeps g admin access expires =
      elim (Bool-cases (is_some (refresh_row g t) || not (is_some (user_row admin t)))) [
        | inl refused ↦ rw refused ((λ h r. r), (λ h a. a))
        | inr fresh ↦ rw fresh (
          (λ h (r, found, gone).
              let new = row-insert (λ s. s.token_hash) h _ t.refreshes (ground arith) in
              (r, new ∙ ground (arith, found, fresh), gone)),
          (λ h a. a),
        )
      ]
