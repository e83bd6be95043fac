-- ===== src/Credits/Samples.antt =====
-- Two small states of the credit tables, on which the theorems are tried: an account with 100
-- credits, and the same after 30 of them are held.
use token_hub.Prelude.{ℕ, none, some, [], ◌∷◌, ◌≡◌, refl, inl, inr, arith, Bool-cases, ◌==◌}
use token_hub.Prelude.Int.{pos, ◌+ℤ◌}
use token_hub.Domain.Account.{Credits, CreditHold, HoldStatus, CreditTransaction}
use token_hub.Credits.Ledger.{Ledger, credits_row}
use token_hub.Credits.Invariant.{IsSound, IsValid}

abbrev pub account : (balance held : ℕ) → Credits
account balance held = record {
  account_id = 7;
  balance = pos balance;
  held = pos held;
  version = pos 1;
  updated_at = pos 0;
}

abbrev pub deposit : CreditTransaction
deposit = record {
  id = 50;
  account_id = 7;
  delta = pos 100;
  balance_after = pos 100;
  reason = none;
  operator = none;
  created_at = pos 0;
}

abbrev pub open_hold : CreditHold
open_hold = record {
  id = 3;
  account_id = 7;
  amount = pos 30;
  status = HoldStatus.held;
  request_id = none;
  created_at = pos 0;
  settled_at = none;
}

abbrev pub funded : Ledger
funded = record { credits = account 100 0 ∷ []; holds = []; transactions = deposit ∷ [] }

abbrev pub on_hold : Ledger
on_hold = record {
  credits = account 70 30 ∷ [];
  holds = open_hold ∷ [];
  transactions = deposit ∷ [];
}

pub funded-IsValid : IsValid funded
unfolding ◌+ℤ◌
funded-IsValid = record {
  accounts = (refl, tt);
  hold_ids = tt;
  charges = tt;
  owners = tt;
  sound = λ a c e. sound_at a c e;
}
  where
    sound_at :
        (a : ℕ) (c : Credits)
        → credits_row a funded ≡ some c
        → IsSound a c funded.holds funded.transactions
    sound_at a c e = elim (Bool-cases (7 == a)) [
      | inl here ↦
          let id : a ≡ 7 = ground arith in
          let row : c ≡ account 100 0 = ground arith in
          rw (id, row)
            (record { solvent = omega arith; backed = refl; audited = refl; fits = omega arith })
      | inr other ↦ absurd (ground arith)
    ]

pub on_hold-IsValid : IsValid on_hold
unfolding ◌+ℤ◌
on_hold-IsValid = record {
  accounts = (refl, tt);
  hold_ids = (refl, tt);
  charges = (omega arith, tt);
  owners = (refl, tt);
  sound = λ a c e. sound_at a c e;
}
  where
    sound_at :
        (a : ℕ) (c : Credits)
        → credits_row a on_hold ≡ some c
        → IsSound a c on_hold.holds on_hold.transactions
    sound_at a c e = elim (Bool-cases (7 == a)) [
      | inl here ↦
          let id : a ≡ 7 = ground arith in
          let row : c ≡ account 70 30 = ground arith in
          rw (id, row)
            (record { solvent = omega arith; backed = refl; audited = refl; fits = omega arith })
      | inr other ↦ absurd (ground arith)
    ]

pub funded_row : (a : ℕ) (c : Credits) → credits_row a funded ≡ some c → c ≡ account 100 0
funded_row a c e = ground arith
