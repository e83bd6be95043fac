-- ===== src/Credits/Methods.antt =====
-- crates/storage/src/repo/credits.rs: every method, run alone, is all or nothing and keeps the
-- invariant of the tables.
use token_hub.Prelude.{
  ℕ, String, Option, none, some, DbResult, ok, failed, ◌≡◌, refl, inl, inr, arith, Bool-cases,
  Option-cases,
}
use token_hub.Prelude.Int.{ℤ, pos, ◌+ℤ◌, ◌≤ℤ◌, ltb_ℤ}
use token_hub.Prelude.I64.{IsI64, i64_max}
use token_hub.Domain.Account.{Credits}
use token_hub.Credits.Ledger.{Ledger, credits_row}
use token_hub.Credits.Invariant.{IsValid}
use token_hub.Credits.Adjust.{adjust, adjust_write}
use token_hub.Credits.Hold.{place_hold}
use token_hub.Credits.Settle.{Claim, claim_read, settle_hold, release_hold}
use token_hub.Credits.Writes.{Commits, Commits-imp}
use token_hub.Credits.Writes.Adjust.{adjust_write-Commits, adjusted-IsValid}
use token_hub.Credits.Writes.Hold.{hold_write-Commits, held_back-IsValid}
use token_hub.Credits.Writes.Settle.{
  settle_write-Commits, release_write-Commits, claim_read-IsClaim,
}
use token_hub.Credits.Writes.Close.{charged-IsValid, released-IsValid}

-- A transaction that keeps the invariant, however it ends.
abbrev pub Keeps : {A : Type 0} → DbResult (Option A) × Ledger → Ledger → Type 0
Keeps r l = Commits r l (λ x l'. IsValid l')

pub Keeps-IsValid :
    {A : Type 0} {l : Ledger} (r : DbResult (Option A) × Ledger)
    → IsValid l
    → Keeps r l
    → IsValid r.1
Keeps-IsValid r valid (inl e) = rw e valid
Keeps-IsValid r valid (inr (inl e)) = rw e valid
Keeps-IsValid r valid (inr (inr (x, l', e, new))) = rw e new

-- What the first phase has read goes to the second.
adjust_found :
    (tx_id a : ℕ) (delta : ℤ) (reason operator : Option String) (now : ℤ) (l : Ledger) (c : Credits)
    → credits_row a l ≡ some c
    → adjust tx_id a delta reason operator now l
      ≡ adjust_write tx_id a delta c.balance c.version reason operator now l
unfolding adjust
adjust_found tx_id a delta reason operator now l c found = rw (found, adjust)

module _ (l : Ledger) (valid : IsValid l) where
  -- An adjustment by a 64-bit amount that does not lift the account above the largest number of 64
  -- bits commits and keeps the invariant, or changes nothing.
  pub adjust-Keeps :
      (tx_id a : ℕ) (delta : ℤ) (reason operator : Option String) (now : ℤ)
      → IsI64 delta
      → ((c : Credits) → credits_row a l ≡ some c → c.balance +ℤ c.held +ℤ delta ≤ℤ i64_max)
      → Keeps (adjust tx_id a delta reason operator now l) l
  unfolding adjust
  adjust-Keeps tx_id a delta reason operator now small room =
      elim (Option-cases (credits_row a l)) [
        | inl missing ↦ inl (rw (missing, adjust))
        | inr (c, found) ↦ rw (adjust_found tx_id a delta reason operator now l c found) (
            Commits-imp _ l
              (λ new l' (d, hits, sum, enough, e).
                rw (e, sum)
                  (adjusted-IsValid tx_id a delta c.balance c.version reason operator now l valid c
                    (found, refl) small (rw sum at enough) (room c found)))
              (adjust_write-Commits tx_id a delta c.balance c.version reason operator now l valid))
      ]

  -- Placing a hold of an amount of at least 0 commits and keeps the invariant, or changes nothing.
  pub place_hold-Keeps :
      (hold_id a : ℕ) (amount : ℤ) (request_id : Option ℕ) (now : ℤ)
      → pos 0 ≤ℤ amount
      → Keeps (place_hold hold_id a amount request_id now l) l
  unfolding place_hold
  place_hold-Keeps hold_id a amount request_id now charge = elim (Option-cases (credits_row a l)) [
    | inl missing ↦ inl (rw (missing, place_hold))
    | inr (c, found) ↦ elim (Bool-cases (ltb_ℤ c.balance amount)) [
      | inl short ↦ inl (rw (found, place_hold, short))
      | inr cover ↦
          rw (found, place_hold, cover)
            (Commits-imp _ l
              (λ x l' (d, hits, result, fresh, e). rw e (
                held_back-IsValid hold_id a amount c.version request_id now l valid d hits charge
                  (ground arith) fresh))
              (hold_write-Commits hold_id a amount c.version request_id now l valid))
    ]
  ]

  -- A settlement at a 64-bit cost of at least 0 commits and keeps the invariant, or changes nothing.
  pub settle_hold-Keeps :
      (tx_id hold_id : ℕ) (cost now : ℤ)
      → IsI64 cost
      → pos 0 ≤ℤ cost
      → Keeps (settle_hold tx_id hold_id cost now l) l
  unfolding settle_hold
  settle_hold-Keeps tx_id hold_id cost now small positive = go (claim_read hold_id l) refl
    where
      go :
          (r : DbResult (Option Claim))
          → claim_read hold_id l ≡ r
          → Keeps (settle_hold tx_id hold_id cost now l) l
      go failed e = inr (inl (rw (e, settle_hold)))
      go (ok none) e = inl (rw (e, settle_hold))
      go (ok (some q)) e =
          rw (e, settle_hold)
            (Commits-imp _ l
              (λ new l' (c, hits, sum, enough, done).
                rw (done, sum)
                  (charged-IsValid hold_id q l valid (claim_read-IsClaim hold_id q l e) tx_id cost
                    now small positive (rw sum at enough)))
              (settle_write-Commits hold_id q now l valid tx_id cost))

  -- A release commits and keeps the invariant, or changes nothing.
  pub release_hold-Keeps : (hold_id : ℕ) (now : ℤ) → Keeps (release_hold hold_id now l) l
  unfolding release_hold
  release_hold-Keeps hold_id now = go (claim_read hold_id l) refl
    where
      go :
          (r : DbResult (Option Claim))
          → claim_read hold_id l ≡ r
          → Keeps (release_hold hold_id now l) l
      go failed e = inr (inl (rw (e, release_hold)))
      go (ok none) e = inl (rw (e, release_hold))
      go (ok (some q)) e =
          rw (e, release_hold)
            (Commits-imp _ l
              (λ new l' (c, hits, sum, done).
                rw (done, sum)
                  (released-IsValid hold_id q l valid (claim_read-IsClaim hold_id q l e) now))
              (release_write-Commits hold_id q now l valid))
