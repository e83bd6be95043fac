-- ===== src/Api/Admin/Credits/Effects.antt =====
-- crates/api/src/handlers/admin/credits.rs: what setting a balance does.
use token_hub.Prelude.{
  ℕ, ◌+◌, ◌-◌, ◌≤◌, ◌<◌, ◌^◌, String, true, not, Option, none, some, DbResult, ok, ◌≡◌, ◌⊎◌, ◌∙◌,
  ap, inl, inr, arith, ltb, Bool-cases,
}
use token_hub.Prelude.Int.{ℤ, pos, negsuc, ◌+ℤ◌, ◌-ℤ◌, ◌≤ℤ◌, ◌<ℤ◌, int_laws, int_bounds}
use token_hub.Prelude.I64.{IsI64, i64_max, sub64, wrap64, wrap64_id, wrap64-IsI64, wrap64_under}
use token_hub.Domain.Account.{Credits}
use token_hub.Domain.Principal.{Principal, Scope}
use token_hub.Credits.Ledger as CreditsRepo
use token_hub.Credits.Ledger.{Ledger, credits_row, transaction_row}
use token_hub.Credits.Invariant.{IsValid}
use token_hub.Credits.Writes.{in_range}
use token_hub.Credits.Adjust.{adjust}
use token_hub.Credits.Exact.{adjust_exact}
use token_hub.Credits.Lifecycle.{Shows}
use token_hub.Api.Error.{ApiError}
use token_hub.Api.Auth.Token.{ApiResult}
use token_hub.Api.Admin.Credits.{AdminDb, Detail, may, adjusting, set_credits}

module _ (text_of : ℕ → String) (tx_id : ℕ) (principal : Principal) (a : ℕ) (delta : ℤ)
    (reason : Option String) (action : String) (detail : ℤ → Detail) (now : ℤ) (db : AdminDb) where
  abbrev repo : DbResult (Option ℤ) × Ledger
  repo = adjust tx_id a delta reason (some (text_of principal.id)) now db.ledger

  abbrev result : ApiResult ℤ × AdminDb
  result = adjusting text_of tx_id principal a delta reason action detail now db

  adjusting_granted :
      (new : ℤ)
      → repo.0 ≡ ok (some new)
      → (result.0 ≡ ApiResult.granted new) × (result.1.ledger ≡ repo.1)
  adjusting_granted new e = ground arith

  adjusting_denied :
      repo.0 ≡ ok none
      → (result.0
          ≡ ApiResult.denied (ApiError.bad_request "insufficient balance for negative delta"))
        × (result.1.ledger ≡ repo.1)
  adjusting_denied e = ground arith

-- The difference to a target of at least 0 is exact. To a negative one it is exact or it wraps
-- around, and then leads past the largest number.
difference :
    (b t : ℤ)
    → IsI64 b
    → pos 0 ≤ℤ b
    → IsI64 t
    → (pos 0 ≤ℤ t → b +ℤ sub64 t b ≡ t)
      × (t <ℤ pos 0 → (b +ℤ sub64 t b ≡ t) ⊎ (i64_max <ℤ b +ℤ sub64 t b))
unfolding ◌-ℤ◌
difference (negsuc n) t small positive fits = absurd (omega arith)
difference (pos n) (pos m) small positive fits =
    let same : sub64 (pos m) (pos n) ≡ pos m -ℤ pos n = wrap64_id _ (omega int_bounds) in
    ((λ h. rw same (omega int_laws)), (λ h. absurd (omega arith)))
difference (pos n) (negsuc m) small positive fits = ((λ h. absurd (omega arith)), by_size)
  where
    below : negsuc m -ℤ pos n ≡ negsuc (m + n)
    below = ground arith

    by_size :
        negsuc m <ℤ pos 0
        → (pos n +ℤ sub64 (negsuc m) (pos n) ≡ negsuc m)
          ⊎ (i64_max <ℤ pos n +ℤ sub64 (negsuc m) (pos n))
    by_size h = elim (Bool-cases (ltb (m + n) (2 ^ 63))) [
      | inl fit ↦
          let low : m + n < 2 ^ 63 = ground arith in
          let same : sub64 (negsuc m) (pos n) ≡ negsuc (m + n) =
            ap wrap64 below ∙ wrap64_id (negsuc (m + n)) (omega arith, omega arith) in
          inl (rw same (omega int_laws))
      | inr wide ↦
          let high : 2 ^ 63 ≤ m + n = ground arith in
          let same : sub64 (negsuc m) (pos n) ≡ pos (2 ^ 64 - 1 - (m + n)) =
            ap wrap64 below ∙ wrap64_under (m + n) high (omega arith) in
          inr (rw same (omega int_laws))
    ]

module _ (text_of : ℕ → String) (tx_id : ℕ) (principal : Principal) (a : ℕ) (reason : Option String)
    (now : ℤ) (db : AdminDb) (c : Credits) (valid : IsValid db.ledger)
    (found : credits_row a db.ledger ≡ some c) (fresh : transaction_row tx_id db.ledger ≡ none)
    (allowed : may principal Scope.credits_write ≡ true) (target : ℤ) (fits : IsI64 target) where
  delta : ℤ
  delta = sub64 target c.balance

  by_adjusting :
      set_credits text_of tx_id principal a target reason now db
      ≡ adjusting text_of tx_id principal a delta reason "credits.set"
          (λ new_balance. Detail.to_target a c.balance target delta reason)
          now
          db
  unfolding set_credits CreditsRepo.get delta
  by_adjusting = elim (Bool-cases (not (may principal Scope.credits_write))) [
    | inl refused ↦ absurd (ground (arith, allowed))
    | inr free ↦ rw (found, set_credits, free)
  ]

  row_fits : IsI64 c.balance × (pos 0 ≤ℤ c.balance)
  row_fits = let r = in_range a c db.ledger valid found in ((omega arith, omega arith), omega arith)

  -- For a caller whom the code lets set a balance (credits.write, or a super administrator), an
  -- account that exists, in valid tables and under a new identifier of the transaction: setting the
  -- balance to a target of at least 0 leaves exactly that balance, and the held amount as it was. A
  -- negative target is refused and changes nothing, also where the difference to it wraps around.
  pub set_credits_exact :
      let (r, after) = set_credits text_of tx_id principal a target reason now db in
      (pos 0 ≤ℤ target → (r ≡ ApiResult.granted target) × Shows a target c.held after.ledger)
      × (target <ℤ pos 0
          → (r ≡ ApiResult.denied (ApiError.bad_request "insufficient balance for negative delta"))
            × (after.ledger ≡ db.ledger))
  unfolding delta
  set_credits_exact =
      let to_detail : ℤ → Detail = λ new. Detail.to_target a c.balance target delta reason in
      let exact =
        adjust_exact tx_id a delta reason (some (text_of principal.id)) now db.ledger c valid found
          fresh (wrap64-IsI64 (target -ℤ c.balance)) in
      let d = difference c.balance target row_fits.0 row_fits.1 fits in
      (
        (λ enough.
            let sum : c.balance +ℤ delta ≡ target = d.0 enough in
            let done = exact.0 (rw sum enough) (rw sum (omega arith)) in
            let ends =
              adjusting_granted text_of tx_id principal a delta reason "credits.set" to_detail now
                db target (rw sum at done.0) in
            rw by_adjusting (ends.0, rw ends.1 (rw sum at done.1))),
        (λ under.
            let done : (adjust tx_id a delta reason (some (text_of principal.id)) now db.ledger).0
                  ≡ ok none
                × ((adjust tx_id a delta reason (some (text_of principal.id)) now db.ledger).1
                    ≡ db.ledger) =
              elim (d.1 under) [ inl sum ↦ exact.1 (rw sum under) | inr over ↦ exact.2 over ] in
            let ends =
              adjusting_denied text_of tx_id principal a delta reason "credits.set" to_detail now db
                done.0 in
            rw by_adjusting (ends.0, ends.1 ∙ done.1)),
      )
