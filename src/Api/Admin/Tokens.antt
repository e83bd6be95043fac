-- ===== src/Api/Admin/Tokens.antt =====
-- crates/api/src/handlers/admin/tokens.rs, but for the revocation (Auth/Token). `text_of`: the text of
-- a hash. `hash_api_token` is a parameter, and the new token's text an argument.
pub mod Issued
use token_hub.Prelude.{
  ℕ, String, Bool, true, false, not, Option, none, some, is_some, List, map, ok, failed, length,
  if◌then◌else◌,
}
use Prim.Native.String.{◌++◌ as text_append}
use token_hub.Prelude.Int.{ℤ, pos}
use token_hub.Prelude.Text.{text_take}
use token_hub.Domain.Account.{ApiToken, TokenStatus}
use token_hub.Domain.Principal.{Principal, Scope}
use token_hub.Storage.Account as AccountRepo
use token_hub.Storage.Token as TokenRepo
use token_hub.Api.Error.{ApiError}
use token_hub.Api.Auth.Token.{ApiResult}
use token_hub.Api.Admin.Credits.{may}
use token_hub.Api.Admin.State.{AdminState, Call, refuse, database_error}

-- The first eight characters.
unfoldable pub display_prefix : String → String
display_prefix plaintext = text_take 8 plaintext

unfoldable pub mask_hash : String → String
mask_hash hash = text_append (text_take 8 hash) "…"

pub record TokenListItem : Type 0 where
  pub id : ℕ
  pub token_hash : String
  pub prefix : String
  pub account_id : ℕ
  pub name : Option String
  pub status : String
  pub expires_at : Option ℤ
  pub created_at : ℤ
  pub revoked_at : Option ℤ

abbrev status_text : TokenStatus → String
status_text TokenStatus.active = "active"
status_text TokenStatus.revoked = "revoked"

-- The items and their number.
unfoldable pub list_tokens :
    (text_of : ℕ → String)
    → Principal
    → (account_id : Option ℕ) (limit offset : ℤ) → AdminState
    → ApiResult (List TokenListItem × ℤ)
unfolding mask_hash
list_tokens text_of principal account_id limit offset s =
    if not (may principal Scope.tokens_read)
    then ApiResult.denied ApiError.forbidden
    else (let tokens : List ApiToken = elim account_id [
      | some a ↦ TokenRepo.list_by_account a s.tokens
      | none ↦ TokenRepo.list_all limit offset s.tokens
    ] in
        let items : List TokenListItem =
          map
            (λ (t : ApiToken). record {
              id = t.id;
              token_hash = mask_hash (text_of t.token_hash);
              prefix = t.prefix;
              account_id = t.account_id;
              name = t.name;
              status = status_text t.status;
              expires_at = t.expires_at;
              created_at = t.created_at;
              revoked_at = t.revoked_at;
            })
            tokens in
        ApiResult.granted (items, pos (length items)))

-- The token's identifier, its text, its account and its prefix.
unfoldable pub create_token :
    (hash_api_token : String → ℕ)
    → Principal
    → (account_id : ℕ) (name : Option String) (plaintext : String) → Call
    → AdminState
    → ApiResult (ℕ × String × ℕ × String) × AdminState
unfolding AccountRepo.get TokenRepo.create display_prefix
create_token hash_api_token principal account_id name plaintext call s =
    if not (may principal Scope.tokens_write)
    then refuse ApiError.forbidden s
    else elim (AccountRepo.get account_id s.accounts) [
      | none ↦ refuse (ApiError.bad_request "account not found") s
      | some account ↦
          let (made, tokens) =
            TokenRepo.create (is_some (AccountRepo.account_row account.id s.accounts)) call.id
              (hash_api_token plaintext) (display_prefix plaintext) account.id name none call.now
              s.tokens in
          elim made [
            | failed ↦ refuse database_error (record s { tokens = tokens })
            | ok _ ↦ (
              ApiResult.granted (call.id, plaintext, account.id, display_prefix plaintext),
              record s { tokens = tokens },
            )
          ]
    ]
