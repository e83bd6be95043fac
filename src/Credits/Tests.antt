-- ===== src/Credits/Tests.antt =====
-- crates/storage/src/repo/credits.rs: the theorems on the credits at two small states.
use token_hub.Prelude.{ℕ, none, some, ok, ◌≡◌, ◌^◌, ◌-◌, refl, arith}
use token_hub.Prelude.Int.{pos, int_laws, ◌+ℤ◌, ◌-ℤ◌, ◌≤ℤ◌, ◌<ℤ◌}
use token_hub.Prelude.I64.{wrap64, i64_max}
use token_hub.Domain.Account.{Credits}
use token_hub.Credits.Ledger.{credits_row}
use token_hub.Credits.Invariant.{IsValid}
use token_hub.Credits.Adjust.{adjust}
use token_hub.Credits.Hold.{place_hold, hold_read}
use token_hub.Credits.Settle.{Claim, settle_hold, settle_write, claim_read, release_hold}
use token_hub.Credits.Methods.{
  Keeps, adjust-Keeps, place_hold-Keeps, settle_hold-Keeps, release_hold-Keeps,
}
use token_hub.Credits.Lifecycle.{Shows, held_ledger, release-place, settle-place}
use token_hub.Credits.Once.{IsOver}
use token_hub.Credits.Concurrent.{
  Pending, System, put, write, Reach, start, next, read_hold, read_settle, read_release, commit,
}
use token_hub.Credits.Concurrent.Interleaving.{Versions, interleaving-IsValid}
use token_hub.Credits.Concurrent.Once.{Closes, Later, close_once}
use token_hub.Credits.Queries.{active_holds, amount_sum, active_holds-held}
use token_hub.Credits.Exact.{adjust_exact}
use token_hub.Credits.Samples.{
  account, funded, funded_row, on_hold, funded-IsValid, on_hold-IsValid,
}

adjust-Keeps_example : Keeps (adjust 51 7 (pos 5) none none (pos 9) funded) funded
adjust-Keeps_example =
    adjust-Keeps funded funded-IsValid 51 7 (pos 5) none none (pos 9) (omega arith) room
  where
    room :
        (c : Credits)
        → credits_row 7 funded ≡ some c
        → c.balance +ℤ c.held +ℤ pos 5 ≤ℤ pos (2 ^ 63 - 1)
    room c e = rw (funded_row 7 c e) (omega int_laws)

place_hold-Keeps_example : Keeps (place_hold 3 7 (pos 30) none (pos 9) funded) funded
place_hold-Keeps_example =
    place_hold-Keeps funded funded-IsValid 3 7 (pos 30) none (pos 9) (omega arith)

settle_hold-Keeps_example : Keeps (settle_hold 60 3 (pos 20) (pos 9) on_hold) on_hold
settle_hold-Keeps_example =
    settle_hold-Keeps on_hold on_hold-IsValid 60 3 (pos 20) (pos 9) (omega arith) (omega arith)

release_hold-Keeps_example : Keeps (release_hold 3 (pos 9) on_hold) on_hold
release_hold-Keeps_example = release_hold-Keeps on_hold on_hold-IsValid 3 (pos 9)

release-place_example :
    let (r, l') = release_hold 3 (pos 9) (
      held_ledger 3 7
        (pos 30)
        none
        (pos 8)
        (pos 9)
        funded
        (account 100 0)
        funded-IsValid
        refl
        refl
        (omega arith)
        (omega arith)) in
    (r ≡ ok (some (pos 100))) × Shows 7 (pos 100) (pos 0) l'
release-place_example =
    release-place 3 7 (pos 30) none (pos 8) (pos 9) funded (account 100 0) funded-IsValid refl refl
      (omega arith) (omega arith)

settle-place_example :
    let l =
      held_ledger 3 7
        (pos 30)
        none
        (pos 8)
        (pos 9)
        funded
        (account 100 0)
        funded-IsValid
        refl
        refl
        (omega arith)
        (omega arith) in
    let (r, l') = settle_hold 60 3 (pos 45) (pos 9) l in
    (pos 45 ≤ℤ pos 100
      → (r ≡ ok (some (pos 100 -ℤ pos 45))) × Shows 7 (pos 100 -ℤ pos 45) (pos 0) l')
    × (pos 100 <ℤ pos 45 → (r ≡ ok none) × (l' ≡ l))
settle-place_example =
    settle-place 3 7 (pos 30) none (pos 8) (pos 9) funded (account 100 0) funded-IsValid refl refl
      (omega arith) (omega arith) 60 (pos 45) (omega arith) (omega arith) refl

abbrev reading : System
reading = record {
  ledger = funded;
  task = put (λ i. Pending.idle) 0 (Pending.holding 3 7 (pos 30) (pos 1) none (pos 9));
}

abbrev written : System
written = record { ledger = write (reading.task 0) funded; task = put reading.task 0 Pending.idle }

run : Reach funded 2 written
unfolding hold_read
run =
    next (next start (read_hold 0 3 7 (pos 30) (pos 1) none (pos 9) (omega arith) refl))
      (commit 0 tt)

versions : Versions 1 funded
versions a c e = rw (funded_row a c e) (omega arith)

interleaving-IsValid_example : IsValid written.ledger
interleaving-IsValid_example =
    interleaving-IsValid 1 funded funded-IsValid versions run (omega arith)

active_holds-held_example : amount_sum (active_holds 7 on_hold) ≡ pos 30
active_holds-held_example = active_holds-held 7 (account 70 30) on_hold on_hold-IsValid refl

adjust_exact_example :
    let (r, l') = adjust 51 7 (pos 5) none none (pos 9) funded in
    let new = pos 100 +ℤ pos 5 in
    (pos 0 ≤ℤ new → new ≤ℤ i64_max → (r ≡ ok (some new)) × Shows 7 new (pos 0) l')
    × (new <ℤ pos 0 → (r ≡ ok none) × (l' ≡ funded))
    × (i64_max <ℤ new → (r ≡ ok none) × (l' ≡ funded))
adjust_exact_example =
    adjust_exact 51 7 (pos 5) none none (pos 9) funded (account 100 0) funded-IsValid refl refl
      (omega arith)

-- One task has read an open hold to settle it, and another to release it.
abbrev claim : Claim
claim = record { account_id = 7; amount = pos 30; balance = pos 70; held = pos 30; version = pos 1 }

abbrev both_read : System
both_read = record {
  ledger = on_hold;
  task =
      put (put (λ i. Pending.idle) 0 (Pending.settling 60 3 claim (pos 20) (pos 9))) 1
        (Pending.releasing 3 claim (pos 9));
}

both_run : Reach on_hold 2 both_read
unfolding claim_read
both_run =
    next (next start (read_settle 0 60 3 claim (pos 20) (pos 9) (omega arith) (omega arith) refl))
      (read_release 1 3 claim (pos 9) refl)

abbrev settled : System
settled = record {
  ledger = write (both_read.task 0) on_hold;
  task = put both_read.task 0 Pending.idle;
}

abbrev both_done : System
both_done = record {
  ledger = write (settled.task 1) settled.ledger;
  task = put settled.task 1 Pending.idle;
}

on_hold-Versions : Versions 1 on_hold
on_hold-Versions a c e = ground (arith, e)

close_once_example :
    ((j : ℕ) → ¬ Closes 3 (both_done.task j) both_done.ledger) × IsOver 3 both_done.ledger
unfolding settle_write wrap64 ◌+ℤ◌ ◌-ℤ◌
close_once_example =
    close_once 1 on_hold on_hold-IsValid on_hold-Versions both_run 3 0 (refl, pos 80, refl)
      (Later.after Later.now (commit 1 tt)) (omega arith)
