-- ===== src/Credits/Concurrent.antt =====
-- crates/storage/src/repo/credits.rs under concurrency: any number of tasks, each of which may have
-- read what it needs and not yet written. The reads of one transaction see one state of the
-- tables, and its writes are atomic; between the two phases any other task may write.
mod Advance
mod Raise
mod Safety
pub mod Interleaving
pub mod Once
use token_hub.Prelude.{ℕ, suc, String, Option, some, ok, ◌≡◌, ◌==◌, if◌then◌else◌}
use token_hub.Prelude.Int.{ℤ, pos, ◌+ℤ◌, ◌≤ℤ◌}
use token_hub.Prelude.I64.{IsI64, i64_max}
use token_hub.Domain.Account.{Credits}
use token_hub.Credits.Ledger.{Ledger, credits_row}
use token_hub.Credits.Adjust.{adjust_read, adjust_write}
use token_hub.Credits.Hold.{hold_read, hold_write}
use token_hub.Credits.Settle.{Claim, claim_read, settle_write, release_write}

-- What a task has read, with the arguments of its call.
pub data Pending : Type 0 where
  idle : Pending
  adjusting :
      (tx_id a : ℕ) (delta balance version : ℤ) (reason operator : Option String) (now : ℤ)
      → Pending
  holding : (hold_id a : ℕ) (amount version : ℤ) (request_id : Option ℕ) (now : ℤ) → Pending
  settling : (tx_id hold_id : ℕ) (q : Claim) (cost now : ℤ) → Pending
  releasing : (hold_id : ℕ) (q : Claim) (now : ℤ) → Pending

-- The second phase.
unfoldable pub write : Pending → Ledger → Ledger
write Pending.idle l = l
write (Pending.adjusting tx_id a delta balance version reason operator now) l =
    (adjust_write tx_id a delta balance version reason operator now l).1
write (Pending.holding hold_id a amount version request_id now) l =
    (hold_write hold_id a amount version request_id now l).1
write (Pending.settling tx_id hold_id q cost now) l = (settle_write tx_id hold_id q cost now l).1
write (Pending.releasing hold_id q now) l = (release_write hold_id q now l).1

-- An adjustment does not take an account above the largest number of 64 bits.
abbrev pub HasRoom : Pending → Ledger → Type 0
HasRoom (Pending.adjusting tx_id a delta balance version reason operator now) l =
    (c : Credits) → credits_row a l ≡ some c → c.balance +ℤ c.held +ℤ delta ≤ℤ i64_max
HasRoom _ l = Unit {0}

pub record System : Type 0 where
  pub ledger : Ledger
  pub task : ℕ → Pending

abbrev pub put : (ℕ → Pending) → ℕ → Pending → ℕ → Pending
put task i p j = if i == j then p else task j

-- A task reads, or it writes and is done.
pub data Step (s : System) : System → Type 0 where
  read_adjust :
      (i tx_id a : ℕ) (delta balance version : ℤ) (reason operator : Option String) (now : ℤ)
      → IsI64 delta
      → adjust_read a s.ledger ≡ some (balance, version)
      → Step s (record s {
        task = put s.task i (Pending.adjusting tx_id a delta balance version reason operator now);
      })
  read_hold :
      (i hold_id a : ℕ) (amount version : ℤ) (request_id : Option ℕ) (now : ℤ)
      → pos 0 ≤ℤ amount
      → hold_read a amount s.ledger ≡ some version
      → Step s (record s {
        task = put s.task i (Pending.holding hold_id a amount version request_id now);
      })
  read_settle :
      (i tx_id hold_id : ℕ) (q : Claim) (cost now : ℤ)
      → IsI64 cost
      → pos 0 ≤ℤ cost
      → claim_read hold_id s.ledger ≡ ok (some q)
      → Step s (record s { task = put s.task i (Pending.settling tx_id hold_id q cost now) })
  read_release :
      (i hold_id : ℕ) (q : Claim) (now : ℤ)
      → claim_read hold_id s.ledger ≡ ok (some q)
      → Step s (record s { task = put s.task i (Pending.releasing hold_id q now) })
  commit :
      (i : ℕ)
      → HasRoom (s.task i) s.ledger
      → Step s (record { ledger = write (s.task i) s.ledger; task = put s.task i Pending.idle })

-- What can be reached from a state with no pending task, in a number of steps.
pub data Reach (l : Ledger) : ℕ → System → Type 0 where
  start : Reach l 0 (record { ledger = l; task = λ i. Pending.idle })
  next : {n : ℕ} {s t : System} → Reach l n s → Step s t → Reach l (suc n) t
