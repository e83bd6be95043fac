-- ===== src/Domain/Account.antt =====
-- crates/domain/src/{account,credit,token}.rs: accounts, their credits, holds and transactions.
use token_hub.Prelude.{ℕ, String, Option}
use token_hub.Prelude.Int.{ℤ}

pub data AccountStatus : Type 0 where
  active disabled : AccountStatus

pub record Account : Type 0 where
  pub id : ℕ
  pub external_id : Option ℕ
  pub status : AccountStatus
  pub policy_id : Option ℕ
  pub note : Option String
  pub created_at : ℤ
  pub updated_at : ℤ

-- The balance of an account; `version` is the optimistic lock.
pub record Credits : Type 0 where
  pub account_id : ℕ
  pub balance : ℤ
  pub held : ℤ
  pub version : ℤ
  pub updated_at : ℤ

pub data HoldStatus : Type 0 where
  held settled released : HoldStatus

pub record CreditHold : Type 0 where
  pub id : ℕ
  pub account_id : ℕ
  pub amount : ℤ
  pub status : HoldStatus
  pub request_id : Option ℕ
  pub created_at : ℤ
  pub settled_at : Option ℤ

pub record CreditTransaction : Type 0 where
  pub id : ℕ
  pub account_id : ℕ
  pub delta : ℤ
  pub balance_after : ℤ
  pub reason : Option String
  pub operator : Option String
  pub created_at : ℤ

pub data TokenStatus : Type 0 where
  active revoked : TokenStatus

pub record ApiToken : Type 0 where
  pub id : ℕ
  pub token_hash : ℕ
  pub prefix : String
  pub account_id : ℕ
  pub name : Option String
  pub status : TokenStatus
  pub expires_at : Option ℤ
  pub created_at : ℤ
  pub revoked_at : Option ℤ
