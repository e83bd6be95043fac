-- ===== src/Storage/Account.antt =====
-- crates/storage/src/repo/account.rs: AccountRepo over the table accounts. A row keeps the text of its
-- status, by which `list` chooses; `map_account` reads it.
use token_hub.Prelude.{
  ℕ, String, Bool, not, ◌&&◌, Option, none, some, is_some, map_option, List, [], ◌∷◌, ◌++◌, map,
  DbResult, ok, failed, keep, if◌then◌else◌, ◌==◌, str_eq,
}
use token_hub.Prelude.Int.{ℤ, leb_ℤ}
use token_hub.Prelude.Table.{row, update_where, rows_affected}
use token_hub.Prelude.Page.{page}
use token_hub.Prelude.Sort.{sort_by}
use token_hub.Domain.Account.{Account, AccountStatus}

pub record AccountRow : Type 0 where
  pub id : ℕ
  pub external_id : Option ℕ
  pub status : String
  pub policy_id : Option ℕ
  pub note : Option String
  pub created_at : ℤ
  pub updated_at : ℤ

abbrev pub Accounts : Type 0
Accounts = List AccountRow

abbrev pub account_row : ℕ → Accounts → Option AccountRow
account_row id accounts = row (λ a. a.id) id accounts

unfoldable pub map_account : AccountRow → Account
map_account r = record {
  id = r.id;
  external_id = r.external_id;
  status = if str_eq r.status "active" then AccountStatus.active else AccountStatus.disabled;
  policy_id = r.policy_id;
  note = r.note;
  created_at = r.created_at;
  updated_at = r.updated_at;
}

-- `known`: the policy exists, if one is named.
unfoldable pub create :
    (known : Bool) (id : ℕ) (external_id policy_id : Option ℕ) (note : Option String) (now : ℤ)
    → Accounts
    → DbResult Account × Accounts
create known id external_id policy_id note now accounts =
    if is_some (account_row id accounts)
    then (failed, accounts)
    else if known
    then (
      ok (record {
        id = id;
        external_id = external_id;
        status = AccountStatus.active;
        policy_id = policy_id;
        note = note;
        created_at = now;
        updated_at = now;
      }),
      accounts
          ++ record {
            id = id;
            external_id = external_id;
            status = "active";
            policy_id = policy_id;
            note = note;
            created_at = now;
            updated_at = now;
          }
            ∷ [],
    )
    else (failed, accounts)

unfoldable pub get : ℕ → Accounts → Option Account
unfolding map_account
get id accounts = map_option map_account (account_row id accounts)

-- `WHERE status = ?`, if one is given.
abbrev pub with_status : Option String → Accounts → Accounts
with_status none accounts = accounts
with_status (some st) accounts = keep (λ a. str_eq a.status st) accounts

unfoldable pub list : (status : Option String) (limit offset : ℤ) → Accounts → List Account
unfolding map_account
list status limit offset accounts = map map_account (
    page limit offset
      (sort_by (λ a b. leb_ℤ b.created_at a.created_at) (with_status status accounts)))

abbrev pub is_account : ℕ → AccountRow → Bool
is_account id a = a.id == id

unfoldable pub set_status : (id : ℕ) (status : String) (now : ℤ) → Accounts → Bool × Accounts
set_status id status now accounts = (
  not (rows_affected (is_account id) accounts == 0),
  update_where (is_account id) (λ a. record a { status = status; updated_at = now }) accounts,
)

-- `known`: the policy exists, if one is named.
unfoldable pub set_policy :
    (known : Bool) (id : ℕ) (policy_id : Option ℕ) (now : ℤ) → Accounts → DbResult Bool × Accounts
set_policy known id policy_id now accounts =
    let hit = not (rows_affected (is_account id) accounts == 0) in
    if hit && not known then (failed, accounts) else (
      ok hit,
      update_where (is_account id) (λ a. record a { policy_id = policy_id; updated_at = now })
          accounts,
    )
