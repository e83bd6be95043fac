-- ===== src/Api/Admin/Accounts/Opened.antt =====
-- crates/api/src/handlers/admin/accounts.rs, with crates/storage/src/repo/credits.rs: a new account
-- and its row of credits.
use token_hub.Prelude.{
  ℕ, true, not, none, some, is_some, List, [], ◌∷◌, ◌++◌, ◌≡◌, ◌≢◌, refl, inl, inr, arith, All,
  ◌==◌, if◌then◌else◌, Bool-cases,
}
use token_hub.Prelude.Int.{ℤ, pos, ◌+ℤ◌}
use token_hub.Prelude.Table.{row, row-insert, insert-Unique}
use token_hub.Domain.Principal.{Principal, Scope}
use token_hub.Domain.Account.{Account, AccountStatus, Credits, CreditHold, CreditTransaction}
use token_hub.Credits.Ledger.{Ledger, credits_row, init}
use token_hub.Credits.Sums.{held_sum, delta_sum}
use token_hub.Credits.Invariant.{IsSound, HasOwner, IsValid, All-imp}
use token_hub.Storage.Account as AccountRepo
use token_hub.Storage.Account.{AccountRow}
use token_hub.Api.Auth.Token.{ApiResult}
use token_hub.Api.Admin.Credits.{may}
use token_hub.Api.Admin.State.{AdminState, Call}
use token_hub.Api.Admin.Accounts.{CreateAccount, note_of, create_account}

-- No transaction is booked on the account.
abbrev pub IsUnbooked : ℕ → List CreditTransaction → Type 0
IsUnbooked a ts = All (λ t. t.account_id ≢ a) ts

delta_sum-Unbooked :
    (a : ℕ) (ts : List CreditTransaction) → IsUnbooked a ts → delta_sum a ts ≡ pos 0
unfolding ◌+ℤ◌
delta_sum-Unbooked a [] h = refl
delta_sum-Unbooked a (t ∷ ts) h = elim (Bool-cases (t.account_id == a)) [
  | inl here ↦ absurd (h.0 (ground arith))
  | inr other ↦ rw (other, delta_sum-Unbooked a ts h.1) refl
]

-- An account without a row has no open holds.
held_sum-none :
    (a : ℕ) (credits : List Credits) (holds : List CreditHold)
    → row (λ c. c.account_id) a credits ≡ none
    → All (HasOwner credits) holds
    → held_sum a holds ≡ pos 0
unfolding ◌+ℤ◌
held_sum-none a credits [] missing owned = refl
held_sum-none a credits (h ∷ holds) missing owned =
    let rest = held_sum-none a credits holds missing owned.1 in
    elim (Bool-cases (h.account_id == a)) [
      | inl here ↦
          let same : h.account_id ≡ a = ground arith in
          absurd (ground (arith, rw same at owned.0, missing))
      | inr other ↦ rw (other, rest) refl
    ]

abbrev pub opened_row : ℕ → ℤ → Credits
opened_row a now = record {
  account_id = a;
  balance = pos 0;
  held = pos 0;
  version = pos 0;
  updated_at = now;
}

-- `init` of an account that exists and has no row.
init-IsValid :
    (a : ℕ) (now : ℤ) (l : Ledger)
    → IsValid l
    → credits_row a l ≡ none
    → IsUnbooked a l.transactions
    → IsValid (init true a now l).1
unfolding init ◌+ℤ◌
init-IsValid a now l valid missing unbooked = rw missing (record {
  accounts = insert-Unique (λ c. c.account_id) (opened_row a now) l.credits missing valid.accounts;
  hold_ids = valid.hold_ids;
  charges = valid.charges;
  owners = All-imp l.holds (λ h o. ground (arith, o, new h.account_id)) valid.owners;
  sound = λ b c e. sound_at b c e;
})
  where
    new :
        (b : ℕ)
        → row (λ c. c.account_id) b (l.credits ++ opened_row a now ∷ [])
          ≡ (if a == b then some (opened_row a now) else credits_row b l)
    new b = row-insert (λ c. c.account_id) b (opened_row a now) l.credits missing

    sound_at :
        (b : ℕ) (c : Credits)
        → row (λ d. d.account_id) b (l.credits ++ opened_row a now ∷ []) ≡ some c
        → IsSound b c l.holds l.transactions
    sound_at b c e = elim (Bool-cases (a == b)) [
      | inl here ↦
          let same : b ≡ a = ground arith in
          let is_new : c ≡ opened_row a now = ground (arith, new b, e) in
          let held = held_sum-none a l.credits l.holds missing valid.owners in
          let delta = delta_sum-Unbooked a l.transactions unbooked in
          rw (same, is_new)
            (record {
              solvent = omega arith;
              backed = rw held refl;
              audited = rw delta refl;
              fits = omega arith;
            })
      | inr other ↦ valid.sound b c (ground (arith, new b, e))
    ]

module _ (p : Principal) (req : CreateAccount) (call : Call) (s : AdminState) where
  abbrev new_row : AccountRow
  new_row = record {
    id = call.id;
    external_id = req.external_id;
    status = "active";
    policy_id = none;
    note = note_of req.note req.template;
    created_at = call.now;
    updated_at = call.now;
  }

  abbrev opened_state : AdminState
  opened_state = record s {
    accounts = s.accounts ++ new_row ∷ [];
    ledger = (init true call.id call.now s.ledger).1;
  }

  create_account_state :
      (may p Scope.accounts_write ≡ true)
      → AccountRepo.account_row call.id s.accounts ≡ none
      → credits_row call.id s.ledger ≡ none
      → create_account p req call s
        ≡ (ApiResult.granted (AccountRepo.map_account new_row), opened_state)
  unfolding create_account AccountRepo.create AccountRepo.map_account init
  create_account_state may_write free missing =
      let new = row-insert (λ a. a.id) call.id new_row s.accounts free in
      ground (arith, may_write, free, missing, new)

  create_account_granted :
      (account : Account)
      → (create_account p req call s).0 ≡ ApiResult.granted account
      → (may p Scope.accounts_write ≡ true) × (AccountRepo.account_row call.id s.accounts ≡ none)
  unfolding create_account AccountRepo.create
  create_account_granted account granted = elim (Bool-cases (not (may p Scope.accounts_write))) [
    | inl refused ↦ absurd (ground (arith, refused, granted))
    | inr may_write ↦ elim (Bool-cases (is_some (AccountRepo.account_row call.id s.accounts))) [
      | inl taken ↦ absurd (ground (arith, may_write, taken, granted))
      | inr free ↦ (ground arith, ground arith)
    ]
  ]

-- Whoever was given a new account: its identifier was not in use, it is active, has the reference
-- that was sent and the note that is made of what was sent, and it has a row of credits with nothing in it. If the credit tables
-- were valid and know nothing of the identifier, they are valid now.
pub create_account-init :
    (p : Principal) (req : CreateAccount) (call : Call) (s : AdminState) (account : Account)
    → IsValid s.ledger
    → credits_row call.id s.ledger ≡ none
    → IsUnbooked call.id s.ledger.transactions
    → (create_account p req call s).0 ≡ ApiResult.granted account
    → let after = (create_account p req call s).1 in
      (AccountRepo.get call.id s.accounts ≡ none)
      × (AccountRepo.get call.id after.accounts ≡ some account)
      × (account.status ≡ AccountStatus.active)
      × (account.external_id ≡ req.external_id)
      × (account.note ≡ note_of req.note req.template)
      × (credits_row call.id after.ledger ≡ some (opened_row call.id call.now))
      × IsValid after.ledger
unfolding AccountRepo.get AccountRepo.map_account
create_account-init p req call s account valid missing unbooked granted =
    let may_free = create_account_granted p req call s account granted in
    let state = create_account_state p req call s may_free.0 may_free.1 missing in
    let is_made : AccountRepo.map_account (new_row p req call s) ≡ account =
      ground (arith, rw state at granted) in
    let inserted = row-insert (λ a. a.id) call.id (new_row p req call s) s.accounts may_free.1 in
    let opened =
      row-insert (λ c. c.account_id) call.id (opened_row call.id call.now) s.ledger.credits
        missing in
    rw state (
      rw may_free.1 refl,
      ground (arith, inserted, is_made),
      ground (arith, is_made),
      ground (arith, is_made),
      ground (arith, is_made),
      (unfold init in ground (arith, missing, opened)),
      init-IsValid call.id call.now s.ledger valid missing unbooked,
    )
