-- ===== src/Credits/Lifecycle.antt =====
-- crates/storage/src/repo/credits.rs: a hold from its placement to its end, in one account.
use token_hub.Prelude.{ℕ, Option, none, some, ok, ◌≡◌, refl, ap, ◌++◌, ◌∷◌, [], List}
use token_hub.Prelude.Int.{ℤ, pos, ◌+ℤ◌, ◌-ℤ◌, ◌≤ℤ◌, ◌<ℤ◌, int_laws}
use token_hub.Prelude.I64.{IsI64, add64}
use token_hub.Domain.Account.{Credits, HoldStatus, CreditTransaction}
use token_hub.Credits.Ledger.{Ledger, credits_row, hold_row, transaction_row}
use token_hub.Credits.Invariant.{IsValid, written_row_self}
use token_hub.Credits.Hold.{place_hold, held_back}
use token_hub.Credits.Settle.{Claim, claim_read, settle_hold, release_hold, charge, close_hold}
use token_hub.Credits.Writes.Hold.{held_back-IsValid}
use token_hub.Credits.Writes.Settle.{claim_read-IsClaim, IsClaim}
use token_hub.Credits.Effects.{
  placed, place_hold_taken, claim_read-held_back, release_hold_exact, settle_hold_exact,
  settle_hold_short,
}

-- What a caller sees of an account.
abbrev pub Shows : ℕ → ℤ → ℤ → Ledger → Type 0
Shows a balance held l =
    (c : Credits) × (credits_row a l ≡ some c) × (c.balance ≡ balance) × (c.held ≡ held)

close-Shows :
    (hold_id : ℕ) (q : Claim) (l : Ledger)
    → IsClaim hold_id q l
    → (status : HoldStatus) (balance held now : ℤ) (ts : List CreditTransaction) → {b h : ℤ}
    → balance ≡ b
    → held ≡ h
    → Shows q.account_id b h
        (record (close_hold hold_id status q balance held now l) { transactions = ts })
close-Shows hold_id q l claim status balance held now ts paid rest =
    let f : Credits → Credits = λ d. record d {
      balance = balance;
      held = held;
      version = add64 q.version (pos 1);
      updated_at = now;
    } in
    (
      f claim.account,
      written_row_self q.account_id q.version f (λ d. refl) l.holds ts l claim.account
          claim.account_found claim.same_version,
      paid,
      rest,
    )

module _ (hold_id a : ℕ) (amount : ℤ) (request_id : Option ℕ) (now later : ℤ) (l : Ledger)
    (c : Credits) (valid : IsValid l) (found : credits_row a l ≡ some c)
    (fresh : hold_row hold_id l ≡ none) (worth : pos 0 ≤ℤ amount)
    (cover : amount ≤ℤ c.balance) where
  abbrev pub held_ledger : Ledger
  held_ledger = (place_hold hold_id a amount request_id now l).1

  held_ledger_lem : held_ledger ≡ held_back hold_id a amount c.version request_id now l
  held_ledger_lem =
      ap (λ r. r.1) (place_hold_taken hold_id a amount request_id now l c valid found cover fresh)

  valid_after : IsValid (held_back hold_id a amount c.version request_id now l)
  valid_after =
      held_back-IsValid hold_id a amount c.version request_id now l valid c (found, refl) worth
        cover fresh

  abbrev claim : Claim
  claim = placed hold_id a amount request_id now l c

  claim_after :
      claim_read hold_id (held_back hold_id a amount c.version request_id now l) ≡ ok (some claim)
  claim_after = claim_read-held_back hold_id a amount request_id now l c found fresh

  -- Placing a hold and releasing it gives back what was taken: the balance and the held amount are
  -- as they were.
  pub release-place :
      let (r, l') = release_hold hold_id later held_ledger in
      (r ≡ ok (some c.balance)) × Shows a c.balance c.held l'
  release-place =
      let is_claim = claim_read-IsClaim hold_id claim _ claim_after in
      let back : c.balance -ℤ amount +ℤ amount ≡ c.balance = omega int_laws in
      let rest : c.held +ℤ amount -ℤ amount ≡ c.held = omega int_laws in
      rw (held_ledger_lem, release_hold_exact hold_id claim later _ valid_after claim_after)
        (
          ap (λ z. ok (some z)) back,
          close-Shows hold_id claim _ is_claim HoldStatus.released _ _ later l.transactions back
              rest,
        )

  -- A cost of at most the balance is charged in full, be it below or above the amount of the hold,
  -- and the amount of the hold is freed. A higher cost is refused, and the hold stays.
  pub settle-place :
      (tx_id : ℕ) (cost : ℤ)
      → IsI64 cost
      → pos 0 ≤ℤ cost
      → transaction_row tx_id l ≡ none
      → let (r, l') = settle_hold tx_id hold_id cost later held_ledger in
        (cost ≤ℤ c.balance
          → (r ≡ ok (some (c.balance -ℤ cost))) × Shows a (c.balance -ℤ cost) c.held l')
        × (c.balance <ℤ cost → (r ≡ ok none) × (l' ≡ held_ledger))
  settle-place tx_id cost small positive new_tx =
      let is_claim = claim_read-IsClaim hold_id claim _ claim_after in
      let paid : c.balance -ℤ amount +ℤ amount -ℤ cost ≡ c.balance -ℤ cost = omega int_laws in
      let rest : c.held +ℤ amount -ℤ amount ≡ c.held = omega int_laws in
      rw held_ledger_lem (
        λ enough.
            rw
              (settle_hold_exact hold_id claim later _ valid_after claim_after tx_id cost small
                positive (omega int_laws) new_tx)
              (
                ap (λ z. ok (some z)) paid,
                close-Shows hold_id claim _ is_claim HoldStatus.settled _ _ later
                    (l.transactions
                      ++ charge tx_id a cost (c.balance -ℤ amount +ℤ amount -ℤ cost) later ∷ [])
                    paid rest,
              ),
        λ short.
            rw
              (settle_hold_short hold_id claim later _ valid_after claim_after tx_id cost small
                positive (omega int_laws))
              (refl, refl),
      )
