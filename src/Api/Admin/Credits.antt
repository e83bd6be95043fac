-- ===== src/Api/Admin/Credits.antt =====
-- crates/api/src/handlers/admin/credits.rs. The rows of the audit log are kept with the values from
-- which the program makes their JSON; an insertion that fails is ignored by the program.
pub mod Effects
use token_hub.Prelude.{
  ℕ, String, Bool, true, false, not, ◌&&◌, Option, none, some, List, [], ◌∷◌, ◌++◌, DbResult, ok,
  failed, if◌then◌else◌,
}
use token_hub.Prelude.Int.{ℤ}
use token_hub.Prelude.I64.{sub64}
use token_hub.Domain.Account.{Credits, CreditTransaction}
use token_hub.Domain.Principal.{Principal, Scope, has_scope, is_super_admin}
use token_hub.Credits.Ledger as CreditsRepo
use token_hub.Credits.Ledger.{Ledger}
use token_hub.Credits.Adjust.{adjust}
use token_hub.Credits.Queries.{transactions}
use token_hub.Api.Error.{ApiError}
use token_hub.Api.Auth.Token.{ApiResult}

pub data Detail : Type 0 where
  by_delta : (account_id : ℕ) (delta : ℤ) (reason : Option String) (balance_after : ℤ) → Detail
  to_target : (account_id : ℕ) (from to delta : ℤ) (reason : Option String) → Detail

pub record AuditEntry : Type 0 where
  pub actor_id : ℕ
  pub action : String
  pub target_id : ℕ
  pub detail : Detail

pub record AdminDb : Type 0 where
  pub ledger : Ledger
  pub audits : List AuditEntry

-- The guard of every handler.
abbrev pub may : Principal → Scope → Bool
may principal scope = not (not (has_scope principal scope) && not (is_super_admin principal))

unfoldable pub get_credits : Principal → Option ℕ → Ledger → ApiResult Credits
unfolding CreditsRepo.get
get_credits principal account_id l =
    if not (may principal Scope.credits_read)
    then ApiResult.denied ApiError.forbidden
    else elim account_id [
      | none ↦ ApiResult.denied (ApiError.bad_request "account_id required")
      | some a ↦ elim (CreditsRepo.get a l) [
        | none ↦ ApiResult.denied ApiError.not_found
        | some c ↦ ApiResult.granted c
      ]
    ]

-- `adjust` and what both handlers make of its result. The operator is written as the text of the
-- principal's identifier.
abbrev pub adjusting :
    (text_of : ℕ → String) (tx_id : ℕ)
    → Principal
    → (account_id : ℕ) (delta : ℤ) → Option String
    → (action : String) (detail : ℤ → Detail) (now : ℤ) → AdminDb
    → ApiResult ℤ × AdminDb
adjusting text_of tx_id principal account_id delta reason action detail now db =
    let (r, ledger) =
      adjust tx_id account_id delta reason (some (text_of principal.id)) now db.ledger in
    elim r [
      | failed ↦ (ApiResult.denied (ApiError.internal none), record db { ledger = ledger })
      | ok none ↦ (
        ApiResult.denied (ApiError.bad_request "insufficient balance for negative delta"),
        record db { ledger = ledger },
      )
      | ok (some new_balance) ↦ (
        ApiResult.granted new_balance,
        record {
          ledger = ledger;
          audits =
              db.audits
              ++ record {
                actor_id = principal.id;
                action = action;
                target_id = account_id;
                detail = detail new_balance;
              }
                ∷ [];
        },
      )
    ]

module _ (text_of : ℕ → String) (tx_id : ℕ) (principal : Principal) where
  unfoldable pub adjust_credits :
      (account_id : ℕ) (delta : ℤ) (reason : Option String) (now : ℤ)
      → AdminDb
      → ApiResult ℤ × AdminDb
  adjust_credits account_id delta reason now db =
      if not (may principal Scope.credits_write)
      then (ApiResult.denied ApiError.forbidden, db)
      else adjusting text_of tx_id principal account_id delta reason "credits.adjust"
          (λ new_balance. Detail.by_delta account_id delta reason new_balance) now db

  -- The reading of the balance and the adjustment are two transactions; here no other stands
  -- between them.
  unfoldable pub set_credits :
      (account_id : ℕ) (balance : ℤ) (reason : Option String) (now : ℤ)
      → AdminDb
      → ApiResult ℤ × AdminDb
  unfolding CreditsRepo.get
  set_credits account_id balance reason now db =
      if not (may principal Scope.credits_write)
      then (ApiResult.denied ApiError.forbidden, db)
      else elim (CreditsRepo.get account_id db.ledger) [
        | none ↦ (ApiResult.denied ApiError.not_found, db)
        | some current ↦
            let delta = sub64 balance current.balance in
            adjusting text_of tx_id principal account_id delta reason "credits.set"
              (λ new_balance. Detail.to_target account_id current.balance balance delta reason) now
              db
      ]

unfoldable pub list_transactions :
    Principal → (account_id : ℕ) (limit offset : ℤ) → Ledger → ApiResult (List CreditTransaction)
list_transactions principal account_id limit offset l =
    if not (may principal Scope.credits_read)
    then ApiResult.denied ApiError.forbidden
    else ApiResult.granted (transactions account_id limit offset l)
