-- ===== src/Credits/Concurrent/Once.antt =====
-- crates/storage/src/repo/credits.rs: a hold is closed once, whatever the other tasks do.
use token_hub.Prelude.{
  ℕ, suc, ◌+◌, ◌<◌, ◌^◌, true, false, Option, some, List, DbResult, ok, ◌≡◌, ◌≢◌, refl, ap, inl,
  inr, arith, ◌==◌,
}
use token_hub.Prelude.Int.{ℤ}
use token_hub.Prelude.Table.{row, update_where, row-update_where, row-insert, key-row}
use token_hub.Domain.Account.{CreditHold, HoldStatus}
use token_hub.Credits.Ledger.{Ledger, hold_row, is_held}
use token_hub.Credits.Sums.{is_id, closed}
use token_hub.Credits.Invariant.{IsValid}
use token_hub.Credits.Hold.{new_hold}
use token_hub.Credits.Settle.{Claim, settle_write, release_write}
use token_hub.Credits.Once.{IsOver, closed-IsOver}
use token_hub.Credits.Writes.{Commits, Commits-inv}
use token_hub.Credits.Writes.Adjust.{adjust_write-Commits}
use token_hub.Credits.Writes.Hold.{hold_write-Commits}
use token_hub.Credits.Writes.Settle.{IsClaim, settle_write-Commits, release_write-Commits}
use token_hub.Credits.Concurrent.{
  Pending, write, HasRoom, System, put, Step, read_adjust, read_hold, read_settle, read_release,
  commit, Reach,
}
use token_hub.Credits.Concurrent.Safety.{Knows, current}
use token_hub.Credits.Concurrent.Interleaving.{Versions, Inv, Step-Inv, Reach-Inv}

-- The write of this task settles or releases the hold: its transaction commits with a new balance.
abbrev pub Closes : ℕ → Pending → Ledger → Type 0
Closes k (Pending.settling tx_id hold_id q cost now) l =
    (hold_id ≡ k) × (new : ℤ) × ((settle_write tx_id hold_id q cost now l).0 ≡ ok (some new))
Closes k (Pending.releasing hold_id q now) l =
    (hold_id ≡ k) × (new : ℤ) × ((release_write hold_id q now l).0 ≡ ok (some new))
Closes k _ l = true ≡ false

-- What can be reached from a state with whatever tasks are pending in it.
pub data Later (s : System) : ℕ → System → Type 0 where
  now : Later s 0 s
  after : {m : ℕ} {t u : System} → Later s m t → Step t u → Later s (suc m) u

abbrev Ended : ℕ → List CreditHold → Type 0
Ended k holds = (h : CreditHold) × (row (λ h. h.id) k holds ≡ some h) × (is_held h.status ≡ false)

abbrev IsClosed : ℕ → Ledger → Type 0
IsClosed k l = Ended k l.holds

kept_or_written :
    {A : Type 0} {P : A → Ledger → Type 0} (r : DbResult (Option A) × Ledger) (l : Ledger)
    (Q : Ledger → Type 0)
    → Commits r l P
    → Q l
    → ((x : A) (l' : Ledger) → P x l' → Q l')
    → Q r.1
kept_or_written r l Q (inl e) same step = rw e same
kept_or_written r l Q (inr (inl e)) same step = rw e same
kept_or_written r l Q (inr (inr (x, l', e, p))) same step = rw e (step x l' p)

-- A claim is on a hold that is open.
claim_apart :
    (k hold_id : ℕ) (q : Claim) (l : Ledger) → IsClosed k l → IsClaim hold_id q l → hold_id ≢ k
claim_apart k hold_id q l (h, found, over) claim same =
    let there : hold_row hold_id l ≡ some h = rw same found in
    let open_hold = claim.open_hold in ground (arith, there, claim.hold_found, open_hold)

closed-Ended :
    (k hold_id : ℕ) (status : HoldStatus) (time : ℤ) (l : Ledger)
    → hold_id ≢ k
    → IsClosed k l
    → Ended k (update_where (is_id hold_id) (closed status time) l.holds)
closed-Ended k hold_id status time l apart (h, found, over) =
    let after =
      row-update_where (λ h. h.id) (is_id hold_id) (closed status time) (λ h. refl) k l.holds in
    let id = key-row (λ h. h.id) k l.holds h found in
    let away : (h.id == hold_id) ≡ false = ground (arith, apart) in
    (h, ground (arith, after, found, away), over)

closing-Ended :
    (hold_id : ℕ) (status : HoldStatus) (q : Claim) (time : ℤ) (l : Ledger)
    → IsClaim hold_id q l
    → is_held status ≡ false
    → Ended hold_id (update_where (is_id hold_id) (closed status time) l.holds)
closing-Ended hold_id status q time l claim over =
    let after =
      row-update_where (λ h. h.id) (is_id hold_id) (closed status time) (λ h. refl) hold_id
        l.holds in
    let id = key-row (λ h. h.id) hold_id l.holds claim.hold claim.hold_found in
    (closed status time claim.hold, ground (arith, after, id, claim.hold_found), over)

pair : {A B : Type 0} {a : A} (r : A × B) → r.0 ≡ a → r ≡ (a, r.1)
pair (a, b) e = ap (λ x. (x, b)) e

module _ (l : Ledger) (valid : IsValid l) (k : ℕ) (done : IsClosed k l) where
  -- Whatever a task writes, a hold that is closed stays as it is.
  write-IsClosed : (p : Pending) → Knows p l → IsClosed k (write p l)
  unfolding write
  write-IsClosed Pending.idle know = done
  write-IsClosed (Pending.adjusting tx_id a delta balance version reason operator time) know =
      kept_or_written _ l (IsClosed k)
        (adjust_write-Commits tx_id a delta balance version reason operator time l valid) done
        (λ new l' (c, hits, sum, enough, e). rw e done)
  write-IsClosed (Pending.holding hold_id a amount version request_id time) know =
      kept_or_written _ l (IsClosed k)
        (hold_write-Commits hold_id a amount version request_id time l valid) done
        (λ x l' (c, hits, result, fresh, e).
          let grown =
            row-insert (λ h. h.id) k (new_hold hold_id a amount request_id time) l.holds fresh in
          rw e (done.0, ground (arith, grown, fresh, done.1), done.2))
  write-IsClosed (Pending.settling tx_id hold_id q cost time) know =
      kept_or_written _ l (IsClosed k) (settle_write-Commits hold_id q time l valid tx_id cost) done
        (λ new l' (c, hits, sum, enough, e).
          let claim = current l q.account_id q.version (λ d. IsClaim hold_id q l) c hits know.1 in
          rw e (
            closed-Ended k hold_id HoldStatus.settled time l (claim_apart k hold_id q l done claim)
              done))
  write-IsClosed (Pending.releasing hold_id q time) know =
      kept_or_written _ l (IsClosed k) (release_write-Commits hold_id q time l valid) done
        (λ new l' (c, hits, sum, e).
          let claim = current l q.account_id q.version (λ d. IsClaim hold_id q l) c hits know in
          rw e (
            closed-Ended k hold_id HoldStatus.released time l (claim_apart k hold_id q l done claim)
              done))

  -- No task's write closes it again.
  closed-Closes : (p : Pending) → Knows p l → ¬ Closes k p l
  closed-Closes Pending.idle know c = absurd (ground (arith, c))
  closed-Closes (Pending.adjusting tx_id a delta balance version reason operator time) know c =
      absurd (ground (arith, c))
  closed-Closes (Pending.holding hold_id a amount version request_id time) know c =
      absurd (ground (arith, c))
  closed-Closes (Pending.settling tx_id hold_id q cost time) know (same, new, commits) =
      let (c, hits, sum, enough, e) =
        Commits-inv _ l (settle_write-Commits hold_id q time l valid tx_id cost) (pair _ commits) in
      let claim = current l q.account_id q.version (λ d. IsClaim hold_id q l) c hits know.1 in
      claim_apart k hold_id q l done claim same
  closed-Closes (Pending.releasing hold_id q time) know (same, new, commits) =
      let (c, hits, sum, e) =
        Commits-inv _ l (release_write-Commits hold_id q time l valid) (pair _ commits) in
      let claim = current l q.account_id q.version (λ d. IsClaim hold_id q l) c hits know in
      claim_apart k hold_id q l done claim same

module _ (l : Ledger) (valid : IsValid l) (k : ℕ) where
  Closes-IsClosed : (p : Pending) → Knows p l → Closes k p l → IsClosed k (write p l)
  unfolding write
  Closes-IsClosed Pending.idle know c = absurd (ground (arith, c))
  Closes-IsClosed (Pending.adjusting tx_id a delta balance version reason operator time) know c =
      absurd (ground (arith, c))
  Closes-IsClosed (Pending.holding hold_id a amount version request_id time) know c =
      absurd (ground (arith, c))
  Closes-IsClosed (Pending.settling tx_id hold_id q cost time) know (same, new, commits) =
      let (c, hits, sum, enough, e) =
        Commits-inv _ l (settle_write-Commits hold_id q time l valid tx_id cost) (pair _ commits) in
      let claim = current l q.account_id q.version (λ d. IsClaim hold_id q l) c hits know.1 in
      rw (e, ← same) (closing-Ended hold_id HoldStatus.settled q time l claim refl)
  Closes-IsClosed (Pending.releasing hold_id q time) know (same, new, commits) =
      let (c, hits, sum, e) =
        Commits-inv _ l (release_write-Commits hold_id q time l valid) (pair _ commits) in
      let claim = current l q.account_id q.version (λ d. IsClaim hold_id q l) c hits know in
      rw (e, ← same) (closing-Ended hold_id HoldStatus.released q time l claim refl)

Step-IsClosed :
    (k n : ℕ) (s t : System) → Inv n s → IsClosed k s.ledger → Step s t → IsClosed k t.ledger
Step-IsClosed k n s t inv done
      (read_adjust i tx_id a delta balance version reason operator time x e) =
    done
Step-IsClosed k n s t inv done (read_hold i hold_id a amount version request_id time x e) = done
Step-IsClosed k n s t inv done (read_settle i tx_id hold_id q cost time x y e) = done
Step-IsClosed k n s t inv done (read_release i hold_id q time e) = done
Step-IsClosed k n s t inv done (commit i room) =
    write-IsClosed s.ledger inv.valid k done (s.task i) (inv.known i)

Closes-HasRoom : (k : ℕ) (p : Pending) (l : Ledger) → Closes k p l → HasRoom p l
Closes-HasRoom k Pending.idle l c = tt
Closes-HasRoom k (Pending.adjusting tx_id a delta balance version reason operator time) l c =
    absurd (ground (arith, c))
Closes-HasRoom k (Pending.holding hold_id a amount version request_id time) l c = tt
Closes-HasRoom k (Pending.settling tx_id hold_id q cost time) l c = tt
Closes-HasRoom k (Pending.releasing hold_id q time) l c = tt

Later-Inv :
    (k n : ℕ) (s : System)
    → Inv n s
    → IsClosed k s.ledger
    → {m : ℕ} {t : System} → Later s m t
    → n + m < 2 ^ 63
    → Inv (n + m) t × IsClosed k t.ledger
Later-Inv k n s inv done now low = (rw nothing inv, done)
  where
    nothing : n + 0 ≡ n
    nothing = omega arith
Later-Inv k n s inv done (after {m} {t} {u} l step) low =
    let (inv', done') = Later-Inv k n s inv done l (omega arith) in
    let up : n + suc m ≡ suc (n + m) = omega arith in
    (
      rw up (Step-Inv (n + m) t u (omega arith) step inv'),
      Step-IsClosed k (n + m) t u inv' done' step,
    )

module _ (b : ℕ) (l : Ledger) (valid : IsValid l) (versions : Versions b l) where
  -- In every interleaving of whatever number of tasks: when a task's write has settled or released a
  -- hold, then in every state that comes later no task's write settles or releases that hold again,
  -- not even one that had read it while it was open, and no call of either method has an effect on it
  -- any more. The tables are valid to begin with, and the versions so low that they cannot wrap around
  -- in that many steps; deltas and costs fit in 64 bits, amounts to hold and costs are not negative,
  -- and each adjustment is written while balance, held amount and delta together are at most the
  -- largest number of 64 bits.
  pub close_once :
      {n : ℕ} {s : System}
      → Reach l n s
      → (k i : ℕ) → Closes k (s.task i) s.ledger
      → {m : ℕ} {t : System}
      → Later (record { ledger = write (s.task i) s.ledger; task = put s.task i Pending.idle }) m t
      → b + suc n + m < 2 ^ 63
      → ((j : ℕ) → ¬ Closes k (t.task j) t.ledger) × IsOver k t.ledger
  close_once {n} {s} r k i closes {m} {t} later low =
      let inv = Reach-Inv b l valid versions r (omega arith) in
      let known = inv.known i in
      let done = Closes-IsClosed s.ledger inv.valid k (s.task i) known closes in
      let room = Closes-HasRoom k (s.task i) s.ledger closes in
      let next_inv = Step-Inv (b + n) s _ (omega arith) (commit i room) inv in
      let up : suc (b + n) ≡ b + suc n = omega arith in
      let (inv', done') = Later-Inv k (b + suc n) _ (rw up at next_inv) done later low in
      (
        (λ j. closed-Closes t.ledger inv'.valid k done' (t.task j) (inv'.known j)),
        closed-IsOver k t.ledger done'.0 done'.1 done'.2,
      )
