-- ===== src/Credits/Effects.antt =====
-- crates/storage/src/repo/credits.rs: the life of a hold, with the amounts that each step leaves.
use token_hub.Prelude.{
  ℕ, ◌||◌, true, false, Option, none, some, ok, ◌≡◌, refl, arith, ◌++◌, ◌∷◌, [],
}
use token_hub.Prelude.Int.{
  ℤ, pos, ◌+ℤ◌, ◌-ℤ◌, ◌≤ℤ◌, ◌<ℤ◌, ltb_ℤ, int_laws, ltb_ℤ-zero_of_le, ltb_ℤ-zero_of_lt,
}
use token_hub.Prelude.I64.{IsI64, add64}
use token_hub.Prelude.Table.{row-insert}
use token_hub.Domain.Account.{Credits, HoldStatus}
use token_hub.Credits.Ledger.{Ledger, credits_row, hold_row, transaction_row}
use token_hub.Credits.Invariant.{IsValid, row-hit, written_row_self}
use token_hub.Credits.Hold.{place_hold, hold_write, held_back, new_hold}
use token_hub.Credits.Settle.{
  Claim, claim_read, settle_hold, settle_write, release_hold, release_write, charged, close_hold,
}
use token_hub.Credits.Writes.Settle.{claim_read-IsClaim}
use token_hub.Credits.Writes.Close.{settle_exact, release_exact, amounts}

module _ (hold_id a : ℕ) (amount : ℤ) (request_id : Option ℕ) (now : ℤ) (l : Ledger)
    (c : Credits) where
  -- `place_hold` refuses an amount above the balance, and changes nothing.
  pub place_hold_short :
      credits_row a l ≡ some c
      → c.balance <ℤ amount
      → place_hold hold_id a amount request_id now l ≡ (ok none, l)
  unfolding place_hold
  place_hold_short found short = ground arith

  -- It takes every other amount, under an identifier that is new.
  pub place_hold_taken :
      IsValid l
      → credits_row a l ≡ some c
      → amount ≤ℤ c.balance
      → hold_row hold_id l ≡ none
      → place_hold hold_id a amount request_id now l ≡ (
        ok (some (hold_id, add64 c.version (pos 1))),
        held_back hold_id a amount c.version request_id now l,
      )
  unfolding place_hold hold_write
  place_hold_taken valid found cover fresh =
      let covered : ltb_ℤ c.balance amount ≡ false = ground arith in
      rw (found, place_hold, covered, hold_write, row-hit a c.version l c valid found refl, fresh)

  -- The claim on a hold that was just placed.
  abbrev pub placed : Claim
  placed = record {
    account_id = a;
    amount = amount;
    balance = c.balance -ℤ amount;
    held = c.held +ℤ amount;
    version = add64 c.version (pos 1);
  }

  pub claim_read-held_back :
      credits_row a l ≡ some c
      → hold_row hold_id l ≡ none
      → claim_read hold_id (held_back hold_id a amount c.version request_id now l)
        ≡ ok (some placed)
  unfolding claim_read
  claim_read-held_back found fresh =
      let h = new_hold hold_id a amount request_id now in
      let hold_here = row-insert (λ g. g.id) hold_id h l.holds fresh in
      let account_here =
        written_row_self a c.version
          (λ d. record d {
            balance = d.balance -ℤ amount;
            held = d.held +ℤ amount;
            version = add64 c.version (pos 1);
            updated_at = now;
          })
          (λ d. refl) (l.holds ++ h ∷ []) l.transactions l c found refl in
      ground (arith, hold_here, account_here)

module _ (hold_id : ℕ) (q : Claim) (now : ℤ) (l : Ledger) (valid : IsValid l)
    (read : claim_read hold_id l ≡ ok (some q)) where
  -- `release_hold` gives the whole amount back.
  pub release_hold_exact : release_hold hold_id now l ≡ (
    ok (some (q.balance +ℤ q.amount)),
    close_hold hold_id HoldStatus.released q (q.balance +ℤ q.amount) (q.held -ℤ q.amount) now l,
  )
  unfolding release_hold release_write
  release_hold_exact =
      let claim = claim_read-IsClaim hold_id q l read in
      let (balance, held) = release_exact hold_id q l valid claim in
      let hit =
        row-hit q.account_id q.version l claim.account valid claim.account_found
          claim.same_version in
      rw (read, release_hold, release_write, hit, balance, held)

  -- `settle_hold` charges the cost, also where it is above the amount that was held.
  pub settle_hold_exact :
      (tx_id : ℕ) (cost : ℤ)
      → IsI64 cost
      → pos 0 ≤ℤ cost
      → cost ≤ℤ q.balance +ℤ q.amount
      → transaction_row tx_id l ≡ none
      → settle_hold tx_id hold_id cost now l ≡ (
        ok (some (q.balance +ℤ q.amount -ℤ cost)),
        charged tx_id hold_id q cost (q.balance +ℤ q.amount -ℤ cost) (q.held -ℤ q.amount) now l,
      )
  unfolding settle_hold settle_write
  settle_hold_exact tx_id cost small positive cover fresh =
      let claim = claim_read-IsClaim hold_id q l read in
      let (balance, held, delta) = settle_exact hold_id q l valid claim cost small positive in
      let hit =
        row-hit q.account_id q.version l claim.account valid claim.account_found
          claim.same_version in
      let range = amounts hold_id q l valid claim in
      let enough : (ltb_ℤ (q.balance +ℤ q.amount -ℤ cost) (pos 0)
            || ltb_ℤ (q.held -ℤ q.amount) (pos 0))
          ≡ false =
        rw (ltb_ℤ-zero_of_le (q.balance +ℤ q.amount -ℤ cost) (omega int_laws))
          (ltb_ℤ-zero_of_le (q.held -ℤ q.amount) (omega int_laws)) in
      rw (read, settle_hold, settle_write, balance, held, enough, hit, fresh)

  -- It refuses a cost that the account cannot bear: the hold stays open, and nothing is charged.
  pub settle_hold_short :
      (tx_id : ℕ) (cost : ℤ)
      → IsI64 cost
      → pos 0 ≤ℤ cost
      → q.balance +ℤ q.amount <ℤ cost
      → settle_hold tx_id hold_id cost now l ≡ (ok none, l)
  unfolding settle_hold settle_write
  settle_hold_short tx_id cost small positive short =
      let claim = claim_read-IsClaim hold_id q l read in
      let (balance, held, delta) = settle_exact hold_id q l valid claim cost small positive in
      let negative : ltb_ℤ (q.balance +ℤ q.amount -ℤ cost) (pos 0) ≡ true =
        ltb_ℤ-zero_of_lt (q.balance +ℤ q.amount -ℤ cost) (omega int_laws) in
      rw (read, settle_hold, settle_write, balance, negative)
