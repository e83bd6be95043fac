-- ===== src/Storage/Token.antt =====
-- crates/storage/src/repo/token.rs: TokenRepo over the table api_tokens. The key and the hash are
-- unique; a text of the column `status` is kept as what `map_token` reads in it.
use token_hub.Prelude.{
  ℕ, String, Bool, not, ◌||◌, Option, none, some, is_some, List, [], ◌∷◌, ◌++◌, DbResult, ok,
  failed, keep, if◌then◌else◌, ◌==◌,
}
use token_hub.Prelude.Int.{ℤ, leb_ℤ}
use token_hub.Prelude.Table.{row, update_where, rows_affected}
use token_hub.Prelude.Page.{page}
use token_hub.Prelude.Sort.{sort_by}
use token_hub.Domain.Account.{ApiToken, TokenStatus}

abbrev pub Tokens : Type 0
Tokens = List ApiToken

abbrev pub token_row : ℕ → Tokens → Option ApiToken
token_row id ts = row (λ t. t.id) id ts

abbrev pub hash_row : ℕ → Tokens → Option ApiToken
hash_row token_hash ts = row (λ t. t.token_hash) token_hash ts

-- `known`: the account exists, as the foreign key demands.
unfoldable pub create :
    (known : Bool) (id token_hash : ℕ) (prefix : String) (account_id : ℕ)
    → Option String
    → (expires_at : Option ℤ) (now : ℤ) → Tokens
    → DbResult ApiToken × Tokens
create known id token_hash prefix account_id name expires_at now ts =
    let t : ApiToken = record {
      id = id;
      token_hash = token_hash;
      prefix = prefix;
      account_id = account_id;
      name = name;
      status = TokenStatus.active;
      expires_at = expires_at;
      created_at = now;
      revoked_at = none;
    } in
    if is_some (token_row id ts) || is_some (hash_row token_hash ts)
    then (failed, ts)
    else if known
    then (ok t, ts ++ t ∷ [])
    else (failed, ts)

unfoldable pub find_by_hash : ℕ → Tokens → Option ApiToken
find_by_hash token_hash ts = hash_row token_hash ts

-- `ORDER BY created_at DESC`.
abbrev pub newest_first : ApiToken → ApiToken → Bool
newest_first t u = leb_ℤ u.created_at t.created_at

unfoldable pub list_by_account : ℕ → Tokens → List ApiToken
list_by_account account_id ts = sort_by newest_first (keep (λ t. t.account_id == account_id) ts)

unfoldable pub list_all : (limit offset : ℤ) → Tokens → List ApiToken
list_all limit offset ts = page limit offset (sort_by newest_first ts)

abbrev pub revoked : ℤ → ApiToken → ApiToken
revoked now t = record t { status = TokenStatus.revoked; revoked_at = some now }

unfoldable pub revoke : ℕ → ℤ → Tokens → Bool × Tokens
revoke id now ts =
    (not (rows_affected (λ t. t.id == id) ts == 0), update_where (λ t. t.id == id) (revoked now) ts)

unfoldable pub revoke_by_hash : ℕ → ℤ → Tokens → Bool × Tokens
revoke_by_hash token_hash now ts = (
  not (rows_affected (λ t. t.token_hash == token_hash) ts == 0),
  update_where (λ t. t.token_hash == token_hash) (revoked now) ts,
)
