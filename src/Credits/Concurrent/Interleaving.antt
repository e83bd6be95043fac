-- ===== src/Credits/Concurrent/Interleaving.antt =====
-- crates/storage/src/repo/credits.rs: every interleaving of the methods' two phases keeps the
-- invariant of the tables.
use token_hub.Prelude.{
  ℕ, suc, ◌+◌, ◌≤◌, ◌<◌, ◌^◌, some, ok, ◌≡◌, inl, inr, arith, Bool-cases, Option-cases, ◌==◌, ap,
}
use token_hub.Prelude.Int.{ℤ, pos_part, neg_part, ◌≤ℤ◌, int_laws, parts_disjoint}
use token_hub.Domain.Account.{Credits}
use token_hub.Credits.Ledger.{Ledger, credits_row}
use token_hub.Credits.Invariant.{IsValid}
use token_hub.Credits.Adjust.{adjust_read}
use token_hub.Credits.Hold.{hold_read}
use token_hub.Credits.Settle.{Claim, claim_read}
use token_hub.Credits.Writes.Settle.{IsClaim, claim_read-IsClaim}
use token_hub.Credits.Concurrent.{
  Pending, write, System, put, Step, read_adjust, read_hold, read_settle, read_release, commit,
  Reach, start, next,
}
use token_hub.Credits.Concurrent.Advance.{Advances, Snapshot}
use token_hub.Credits.Concurrent.Raise.{IsLow}
use token_hub.Credits.Concurrent.Safety.{Knows, Knows-Advances, Moves, write-Moves}

-- No account has a version above `n`.
abbrev pub Versions : ℕ → Ledger → Type 0
Versions n l =
    (a : ℕ) (c : Credits)
    → credits_row a l ≡ some c
    → (neg_part c.version ≡ 0) × (pos_part c.version ≤ n)

pub record Inv (n : ℕ) (s : System) : Type 0 where
  pub valid : IsValid s.ledger
  pub versions : Versions n s.ledger
  pub known : (i : ℕ) → Knows (s.task i) s.ledger

-- What each first phase returns is true of the tables that it has read.
adjust_read-Snapshot :
    (a : ℕ) (balance version : ℤ) (l : Ledger)
    → adjust_read a l ≡ some (balance, version)
    → Snapshot a version l (λ c. c.balance ≡ balance)
unfolding adjust_read
adjust_read-Snapshot a balance version l e = elim (Option-cases (credits_row a l)) [
  | inl missing ↦ absurd (ground arith)
  | inr (c, found) ↦ record {
    row = c;
    found = found;
    later = ground arith;
    current = λ same. ground arith;
  }
]

hold_read-Snapshot :
    (a : ℕ) (amount version : ℤ) (l : Ledger)
    → hold_read a amount l ≡ some version
    → Snapshot a version l (λ c. amount ≤ℤ c.balance)
unfolding hold_read
hold_read-Snapshot a amount version l e = elim (Option-cases (credits_row a l)) [
  | inl missing ↦ absurd (ground arith)
  | inr (c, found) ↦ record {
    row = c;
    found = found;
    later = ground arith;
    current = λ same. ground arith;
  }
]

claim_read-Snapshot :
    (hold_id : ℕ) (q : Claim) (l : Ledger)
    → claim_read hold_id l ≡ ok (some q)
    → Snapshot q.account_id q.version l (λ c. IsClaim hold_id q l)
claim_read-Snapshot hold_id q l e =
    let claim = claim_read-IsClaim hold_id q l e in
    record {
      row = claim.account;
      found = claim.account_found;
      later = rw claim.same_version (omega arith);
      current = λ same. claim;
    }

Knows-put :
    (task : ℕ → Pending) (i : ℕ) (p : Pending) (l : Ledger)
    → Knows p l
    → ((j : ℕ) → Knows (task j) l)
    → (j : ℕ) → Knows (put task i p j) l
Knows-put task i p l new old j = elim (Bool-cases (i == j)) [
  | inl self ↦ rw self new
  | inr other ↦ rw other (old j)
]

Versions-weaken : (n : ℕ) (l : Ledger) → Versions n l → Versions (suc n) l
Versions-weaken n l v a c found = let bound = v a c found in (bound.0, omega arith)

Versions-Advances : (n a : ℕ) (l l' : Ledger) → Advances a l l' → Versions n l → Versions (suc n) l'
Versions-Advances n a l l' m v b c found = elim (Bool-cases (b == a)) [
  | inl self ↦
      let same : m.after ≡ c = ground (arith, found, m.written) in
      let bound = v a m.before m.found in
      let up = m.raised in
      rw (← same) (omega (int_laws, ap pos_part up, ap neg_part up, parts_disjoint m.after.version))
  | inr other ↦ let bound = v b c (ground (arith, m.others b, found)) in (bound.0, omega arith)
]

pub Step-Inv : (n : ℕ) (s t : System) → suc n < 2 ^ 63 → Step s t → Inv n s → Inv (suc n) t
Step-Inv n s t low (read_adjust i tx_id a delta balance version reason operator now small e) inv =
    record {
      valid = inv.valid;
      versions = Versions-weaken n s.ledger inv.versions;
      known =
          Knows-put s.task i _ s.ledger (small, adjust_read-Snapshot a balance version s.ledger e)
            inv.known;
    }
Step-Inv n s t low (read_hold i hold_id a amount version request_id now positive e) inv = record {
  valid = inv.valid;
  versions = Versions-weaken n s.ledger inv.versions;
  known =
      Knows-put s.task i _ s.ledger (positive, hold_read-Snapshot a amount version s.ledger e)
        inv.known;
}
Step-Inv n s t low (read_settle i tx_id hold_id q cost now small positive e) inv = record {
  valid = inv.valid;
  versions = Versions-weaken n s.ledger inv.versions;
  known =
      Knows-put s.task i _ s.ledger ((small, positive), claim_read-Snapshot hold_id q s.ledger e)
        inv.known;
}
Step-Inv n s t low (read_release i hold_id q now e) inv = record {
  valid = inv.valid;
  versions = Versions-weaken n s.ledger inv.versions;
  known = Knows-put s.task i _ s.ledger (claim_read-Snapshot hold_id q s.ledger e) inv.known;
}
Step-Inv n s t low (commit i room) inv =
    go (write-Moves s.ledger inv.valid is_low (s.task i) (inv.known i) room)
  where
    is_low : (a : ℕ) (c : Credits) → credits_row a s.ledger ≡ some c → IsLow c
    is_low a c found = let bound = inv.versions a c found in (bound.0, omega arith)

    after : Ledger
    after = write (s.task i) s.ledger

    done : System
    done = record { ledger = after; task = put s.task i Pending.idle }

    go : Moves s.ledger after → Inv (suc n) done
    go (inl e) = record {
      valid = rw e inv.valid;
      versions = rw e (Versions-weaken n s.ledger inv.versions);
      known = rw e (Knows-put s.task i Pending.idle s.ledger tt inv.known);
    }
    go (inr (valid, (a, m))) = record {
      valid = valid;
      versions = Versions-Advances n a s.ledger after m inv.versions;
      known =
          Knows-put s.task i Pending.idle after tt
            (λ j. Knows-Advances a s.ledger after m (s.task j) (inv.known j));
    }

pub Reach-Inv :
    (b : ℕ) (l : Ledger)
    → IsValid l
    → Versions b l
    → {n : ℕ} {s : System} → Reach l n s
    → b + n < 2 ^ 63
    → Inv (b + n) s
Reach-Inv b l valid versions start low =
    rw zero (record { valid = valid; versions = versions; known = λ i. tt })
  where
    zero : b + 0 ≡ b
    zero = omega arith
Reach-Inv b l valid versions (next {n} {s} {t} r step) low =
    let up : b + suc n ≡ suc (b + n) = omega arith in
    rw up (Step-Inv (b + n) s t (omega arith) step (Reach-Inv b l valid versions r (omega arith)))

-- Whatever any number of tasks do, each reading what it needs and writing later, in any order: the
-- tables satisfy the invariant at every moment. So no account is overdrawn, `held` is the sum of
-- the open holds, and no update is lost, since balance and `held` together are the sum of the
-- account's transactions. The conditions: the tables are valid to begin with, the versions are so
-- low that they cannot wrap around in that many steps, deltas and costs fit in 64 bits, amounts to
-- hold and costs are not negative, and whenever an adjustment is written, balance, held amount and
-- delta together are at most the largest number of 64 bits.
pub interleaving-IsValid :
    (b : ℕ) (l : Ledger)
    → IsValid l
    → Versions b l
    → {n : ℕ} {s : System} → Reach l n s
    → b + n < 2 ^ 63
    → IsValid s.ledger
interleaving-IsValid b l valid versions r low = (Reach-Inv b l valid versions r low).valid
