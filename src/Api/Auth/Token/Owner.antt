-- ===== src/Api/Auth/Token/Owner.antt =====
-- crates/api/src/middleware/auth_chat.rs: whom a token is good for, and how long.
use token_hub.Prelude.{
  ℕ, true, false, Option, none, some, ◌≡◌, refl, inl, inr, arith, Bool-cases, Option-cases, ◌==◌,
  str_eq,
}
use token_hub.Prelude.Int.{ℤ}
use token_hub.Prelude.Table.{row-update_where}
use token_hub.Domain.Account.{ApiToken, TokenStatus}
use token_hub.Domain.Principal.{Principal}
use token_hub.Storage.Token.{find_by_hash, revoke, revoked}
use token_hub.Api.Error.{ApiError}
use token_hub.Api.Auth.Token.{
  TokenInfo, AuthState, ApiResult, api_user, is_active, is_expired, fill, evict,
  authenticate_api_token, authenticate_row, revoke_token,
}

-- A cached entry names the account of the token's row.
abbrev pub IsFaithful : AuthState → Type 0
IsFaithful s =
    (hash : ℕ) (info : TokenInfo)
    → s.cache hash ≡ some info
    → (t : ApiToken) × (find_by_hash hash s.tokens ≡ some t) × (t.account_id ≡ info.account_id)

-- Without a cached entry a caller is let in exactly if the table has the token, active and not
-- expired; it is then let in as an API user of the token's account, and for no scope.
pub authenticate-uncached :
    (hash : ℕ) (now : ℤ) (s : AuthState) (p : Principal)
    → s.cache hash ≡ none
    → ((authenticate_api_token hash now s).0 ≡ ApiResult.granted p
        → (t : ApiToken) × (find_by_hash hash s.tokens ≡ some t)
          × (t.status ≡ TokenStatus.active)
          × (is_expired now t.expires_at ≡ false)
          × (p ≡ api_user t.account_id))
      × ((t : ApiToken)
          → find_by_hash hash s.tokens ≡ some t
          → t.status ≡ TokenStatus.active
          → is_expired now t.expires_at ≡ false
          → (authenticate_api_token hash now s).0 ≡ ApiResult.granted (api_user t.account_id))
unfolding authenticate_api_token authenticate_row
authenticate-uncached hash now s p miss = (
  λ granted. elim (Option-cases (find_by_hash hash s.tokens)) [
    | inl missing ↦ absurd (ground arith)
    | inr (t, found) ↦ (t, found, ground arith, ground arith, ground arith)
  ],
  λ t found active fresh. ground arith,
)

fill-IsFaithful :
    (hash : ℕ) (s : AuthState) (t : ApiToken) (info : TokenInfo)
    → IsFaithful s
    → find_by_hash hash s.tokens ≡ some t
    → t.account_id ≡ info.account_id
    → IsFaithful (fill hash info s)
fill-IsFaithful hash s t info faithful found same h i e = elim (Bool-cases (h == hash)) [
  | inl self ↦
      let here : h ≡ hash = ground arith in
      let entry : info ≡ i = ground (arith, e) in rw here (t, found, rw (← entry) same)
  | inr other ↦ faithful h i (ground (arith, e))
]

-- What a caller is let in as, and what that does to the cache: while cached entries are faithful,
-- a caller is let in only as the account that owns the token of that hash, and the entries stay
-- faithful, whether the caller is let in or not.
pub authenticate-owner :
    (hash : ℕ) (now : ℤ) (s : AuthState)
    → IsFaithful s
    → ((p : Principal)
        → (authenticate_api_token hash now s).0 ≡ ApiResult.granted p
        → (t : ApiToken) × (find_by_hash hash s.tokens ≡ some t) × (p ≡ api_user t.account_id))
      × IsFaithful (authenticate_api_token hash now s).1
unfolding authenticate_api_token authenticate_row
authenticate-owner hash now s faithful = by_cache (s.cache hash) refl
  where
    Goal : Type 0
    Goal =
        ((p : Principal)
          → (authenticate_api_token hash now s).0 ≡ ApiResult.granted p
          → (t : ApiToken) × (find_by_hash hash s.tokens ≡ some t) × (p ≡ api_user t.account_id))
        × IsFaithful (authenticate_api_token hash now s).1

    by_row : (o : Option ApiToken) → s.cache hash ≡ none → find_by_hash hash s.tokens ≡ o → Goal
    by_row none miss e =
        simp (authenticate_api_token, authenticate_row, miss, e)
          ((λ p g. absurd (ground arith)), faithful)
    by_row (some t) miss e = elim (Bool-cases (is_active t.status)) [
      | inr inactive ↦
          simp (authenticate_api_token, authenticate_row, miss, e, inactive)
            ((λ p g. absurd (ground arith)), faithful)
      | inl active ↦ elim (Bool-cases (is_expired now t.expires_at)) [
        | inl expired ↦
            simp (authenticate_api_token, authenticate_row, miss, e, active, expired)
              ((λ p g. absurd (ground arith)), faithful)
        | inr valid ↦
            simp (authenticate_api_token, authenticate_row, miss, e, active, valid)
              ((λ p g. (t, refl, ground arith)), fill-IsFaithful hash s t _ faithful e refl)
      ]
    ]

    by_cache : (o : Option TokenInfo) → s.cache hash ≡ o → Goal
    by_cache none miss = by_row (find_by_hash hash s.tokens) miss refl
    by_cache (some info) hit = elim (Bool-cases (str_eq info.status "active")) [
      | inl active ↦
          let (t, found, same) = faithful hash info hit in
          simp (authenticate_api_token, hit, active)
            ((λ p g. (t, found, ground (arith, same))), faithful)
      | inr inactive ↦
          simp (authenticate_api_token, hit, inactive) ((λ p g. absurd (ground arith)), faithful)
    ]

-- A token that is in the cache stays good while its entry is there, for ten minutes at most: a
-- revocation of its row, by any administrator at any time, does not touch the entry, and the caller
-- is let in afterwards as before. The end of its lifetime is not looked at either.
pub revoke_token_late :
    (hash : ℕ) (info : TokenInfo) (s : AuthState) (principal : Principal) (id : ℕ) (at now : ℤ)
    → s.cache hash ≡ some info
    → str_eq info.status "active" ≡ true
    → (authenticate_api_token hash now (revoke_token principal id at s).1).0
      ≡ ApiResult.granted (api_user info.account_id)
unfolding authenticate_api_token revoke_token
revoke_token_late hash info s principal id at now hit active = ground (arith, hit)

-- Once the entry is gone, a revoked token lets nobody in: if the revocation was allowed and found
-- the row with the token's hash.
pub revoke_token-evict :
    (hash : ℕ) (t : ApiToken) (s : AuthState) (principal : Principal) (at now : ℤ)
    → find_by_hash hash s.tokens ≡ some t
    → (revoke_token principal t.id at s).0 ≡ ApiResult.granted tt
    → (authenticate_api_token hash now (evict hash (revoke_token principal t.id at s).1)).0
      ≡ ApiResult.denied (ApiError.unauthorized "token revoked")
unfolding authenticate_api_token authenticate_row revoke_token revoke find_by_hash
revoke_token-evict hash t s principal at now found done =
    let after =
      row-update_where (λ u. u.token_hash) (λ u. u.id == t.id) (revoked at) (λ u. refl) hash
        s.tokens in
    ground (arith, after)
