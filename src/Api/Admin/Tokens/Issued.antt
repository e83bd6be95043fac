-- ===== src/Api/Admin/Tokens/Issued.antt =====
-- crates/api/src/handlers/admin/tokens.rs, with crates/api/src/middleware/auth_chat.rs: what a token
-- that was made is good for.
use token_hub.Prelude.{
  ℕ, String, true, not, none, some, is_some, Option, ◌≡◌, ◌≢◌, inl, inr, ap, arith, ◌||◌, ◌==◌,
  if◌then◌else◌, Bool-cases, Option-cases,
}
use token_hub.Prelude.Table.{row-insert, key-row}
use token_hub.Domain.Principal.{Principal, Scope}
use token_hub.Prelude.Int.{ℤ}
use token_hub.Domain.Account.{Account, TokenStatus}
use token_hub.Storage.Account as AccountRepo
use token_hub.Storage.Token as TokenRepo
use token_hub.Storage.Token.{token_row, hash_row, find_by_hash}
use token_hub.Api.Auth.Token.{
  TokenInfo, ApiResult, api_user, authenticate_api_token, authenticate_row,
}
use token_hub.Api.Admin.Credits.{may}
use token_hub.Api.Admin.State.{AdminState, Call}
use token_hub.Api.Admin.Tokens.{display_prefix, create_token}

-- The account that a search finds has the identifier that was sought.
account_found :
    (id : ℕ) (a : Account) (s : AdminState) → AccountRepo.get id s.accounts ≡ some a → a.id ≡ id
unfolding AccountRepo.get AccountRepo.map_account
account_found id a s e = elim (Option-cases (AccountRepo.account_row id s.accounts)) [
  | inl missing ↦ absurd (ground (arith, missing, e))
  | inr (r, found) ↦ ground (arith, found, e, key-row (λ x. x.id) id s.accounts r found)
]

module _ (hash_api_token : String → ℕ) (p : Principal) (account_id : ℕ) (name : Option String)
    (plaintext : String) (call : Call) (s : AdminState) (made : ℕ × String × ℕ × String) where
  Created : Type 0
  Created =
      (create_token hash_api_token p account_id name plaintext call s).0 ≡ ApiResult.granted made

  abbrev after : AdminState
  after = (create_token hash_api_token p account_id name plaintext call s).1

  created_row :
      Created
      → (is_some (AccountRepo.get account_id s.accounts) ≡ true)
        × (hash_row (hash_api_token plaintext) s.tokens ≡ none)
        × ((h : ℕ)
            → find_by_hash h after.tokens ≡ (
                if hash_api_token plaintext == h
                then some (record {
                  id = call.id;
                  token_hash = hash_api_token plaintext;
                  prefix = display_prefix plaintext;
                  account_id = account_id;
                  name = name;
                  status = TokenStatus.active;
                  expires_at = none;
                  created_at = call.now;
                  revoked_at = none;
                })
                else find_by_hash h s.tokens))
  unfolding Created create_token TokenRepo.create find_by_hash
  created_row granted = elim (Bool-cases (not (may p Scope.tokens_write))) [
    | inl refused ↦ absurd (ground (arith, refused, granted))
    | inr may_write ↦ elim (Option-cases (AccountRepo.get account_id s.accounts)) [
      | inl missing ↦ absurd (ground (arith, may_write, missing, granted))
      | inr (a, found) ↦
          let same = account_found account_id a s found in
          let h = hash_api_token plaintext in
          elim (Bool-cases
            (is_some (token_row call.id s.tokens) || is_some (hash_row h s.tokens))) [
              | inl taken ↦ absurd (ground (arith, may_write, found, taken, granted))
              | inr free ↦
                  let new = λ (k : ℕ).
                    row-insert (λ t. t.token_hash) k
                      (record {
                        id = call.id;
                        token_hash = h;
                        prefix = display_prefix plaintext;
                        account_id = account_id;
                        name = name;
                        status = TokenStatus.active;
                        expires_at = none;
                        created_at = call.now;
                        revoked_at = none;
                      })
                      s.tokens (ground arith) in
                  (
                    ground (arith, found),
                    ground (arith, free),
                    (λ k. ground (arith, may_write, found, free, granted, same, new k)),
                  )
            ]
    ]
  ]

  created_answer : Created → made ≡ (call.id, plaintext, account_id, display_prefix plaintext)
  unfolding Created create_token TokenRepo.create
  created_answer granted = elim (Bool-cases (not (may p Scope.tokens_write))) [
    | inl refused ↦ absurd (ground (arith, refused, granted))
    | inr may_write ↦ elim (Option-cases (AccountRepo.get account_id s.accounts)) [
      | inl missing ↦ absurd (ground (arith, may_write, missing, granted))
      | inr (a, found) ↦
          let same = account_found account_id a s found in
          elim (Bool-cases (
            is_some (token_row call.id s.tokens)
            || is_some (hash_row (hash_api_token plaintext) s.tokens))) [
              | inl taken ↦ absurd (ground (arith, may_write, found, taken, granted))
              | inr free ↦ ground (arith, may_write, found, free, granted, same)
            ]
    ]
  ]

  -- The answer to a request for a new token has the row's identifier, the token's text, the account
  -- and the text's prefix, in this order. Whoever shows the text that was answered is let in, at every
  -- time and while no entry of it is cached, as an API user of the account for which it was made,
  -- which exists; and every other token is answered as before.
  pub create_token-authenticate :
      (create_token hash_api_token p account_id name plaintext call s).0 ≡ ApiResult.granted made
      → (cache : ℕ → Option TokenInfo) (when : ℤ) → cache (hash_api_token made.1) ≡ none
      → (made ≡ (call.id, plaintext, account_id, display_prefix plaintext))
        × (is_some (AccountRepo.get account_id s.accounts) ≡ true)
        × ((authenticate_api_token
              (hash_api_token made.1)
              when
              (record { tokens = after.tokens; cache = cache })).0
            ≡ ApiResult.granted (api_user account_id))
        × ((h : ℕ)
            → h ≢ hash_api_token made.1
            → (authenticate_api_token h when (record { tokens = after.tokens; cache = cache })).0
              ≡ (authenticate_api_token h when (record { tokens = s.tokens; cache = cache })).0)
  unfolding Created authenticate_api_token authenticate_row
  create_token-authenticate granted cache when miss =
      let rows = created_row granted in
      let answer = created_answer granted in
      let text : made.1 ≡ plaintext = ap (λ m. m.1) answer in
      let unseen = rw text at miss in
      (
        answer,
        rows.0,
        rw text (ground (arith, rows.2 (hash_api_token plaintext), unseen)),
        (λ h other. let away = rw text at other in ground (arith, rows.2 h, away)),
      )
