-- ===== src/Credits/Concurrent/Safety.antt =====
-- crates/storage/src/repo/credits.rs: the optimistic lock works. What a task has read is true
-- whenever its write takes effect, so every interleaving keeps the invariant.
use token_hub.Prelude.{ℕ, Option, some, DbResult, ◌≡◌, ◌⊎◌, inl, inr, refl, arith, ◌∙◌, ap}
use mathlib.Core.Path.{subst}
use token_hub.Prelude.Int.{ℤ, pos, ◌≤ℤ◌}
use token_hub.Prelude.I64.{IsI64}
use token_hub.Domain.Account.{Credits}
use token_hub.Credits.Ledger.{Ledger, credits_row}
use token_hub.Credits.Invariant.{IsValid}
use token_hub.Credits.Writes.Settle.{IsClaim}
use token_hub.Credits.Concurrent.{Pending, write, HasRoom}
use token_hub.Credits.Writes.{Commits, Hits}
use token_hub.Credits.Writes.Adjust.{adjust_write-Commits, adjusted-IsValid}
use token_hub.Credits.Writes.Hold.{hold_write-Commits, held_back-IsValid}
use token_hub.Credits.Writes.Settle.{settle_write-Commits, release_write-Commits}
use token_hub.Credits.Writes.Close.{charged-IsValid, released-IsValid}
use token_hub.Credits.Concurrent.Raise.{
  IsLow, adjusted-Advances, held_back-Advances, closed-Advances,
}
use token_hub.Credits.Concurrent.Advance.{Advances, Snapshot, Snapshot-Advances, IsClaim-Advances}

-- What a pending task knows.
abbrev pub Knows : Pending → Ledger → Type 0
Knows Pending.idle l = Unit {0}
Knows (Pending.adjusting tx_id a delta balance version reason operator now) l =
    IsI64 delta × Snapshot a version l (λ c. c.balance ≡ balance)
Knows (Pending.holding hold_id a amount version request_id now) l =
    (pos 0 ≤ℤ amount) × Snapshot a version l (λ c. amount ≤ℤ c.balance)
Knows (Pending.settling tx_id hold_id q cost now) l =
    (IsI64 cost × (pos 0 ≤ℤ cost)) × Snapshot q.account_id q.version l (λ c. IsClaim hold_id q l)
Knows (Pending.releasing hold_id q now) l =
    Snapshot q.account_id q.version l (λ c. IsClaim hold_id q l)

pub Knows-Advances :
    (a : ℕ) (l l' : Ledger) → Advances a l l' → (p : Pending) → Knows p l → Knows p l'
Knows-Advances a l l' m Pending.idle k = tt
Knows-Advances a l l' m (Pending.adjusting tx_id b delta balance version reason operator now) k =
    (k.0, Snapshot-Advances a l l' m b version _ _ (λ away c found p. p) k.1)
Knows-Advances a l l' m (Pending.holding hold_id b amount version request_id now) k =
    (k.0, Snapshot-Advances a l l' m b version _ _ (λ away c found p. p) k.1)
Knows-Advances a l l' m (Pending.settling tx_id hold_id q cost now) k = (
  k.0,
  Snapshot-Advances a l l' m q.account_id q.version _ _
      (λ away c found p. IsClaim-Advances a l l' m hold_id q away p) k.1,
)
Knows-Advances a l l' m (Pending.releasing hold_id q now) k =
    Snapshot-Advances a l l' m q.account_id q.version _ _
      (λ away c found p. IsClaim-Advances a l l' m hold_id q away p) k

-- A write changes nothing, or it keeps the invariant and raises the version of one account.
abbrev pub Moves : Ledger → Ledger → Type 0
Moves l l' = (l' ≡ l) ⊎ (IsValid l' × ((a : ℕ) × Advances a l l'))

Moves-of_Commits :
    {A : Type 0} {P : A → Ledger → Type 0} (r : DbResult (Option A) × Ledger) (l : Ledger)
    → Commits r l P
    → ((x : A) (l' : Ledger) → P x l' → IsValid l' × ((a : ℕ) × Advances a l l'))
    → Moves l r.1
Moves-of_Commits r l (inl e) step = inl (ap (λ x. x.1) e)
Moves-of_Commits r l (inr (inl e)) step = inl (ap (λ x. x.1) e)
Moves-of_Commits r l (inr (inr (x, l', e, p))) step = rw e (inr (step x l' p))

module _ (l : Ledger) where
  pub current :
      (a : ℕ) (version : ℤ) (P : Credits → Type 0) (c : Credits)
      → Hits a version l c
      → Snapshot a version l P
      → P c
  current a version P c (found, same) s =
      let e : s.row ≡ c = ground (arith, s.found) in
      subst P e (s.current (ap (λ x. x.version) e ∙ same))

module _ (l : Ledger) (valid : IsValid l)
    (low : (a : ℕ) (c : Credits) → credits_row a l ≡ some c → IsLow c) where
  pub write-Moves : (p : Pending) → Knows p l → HasRoom p l → Moves l (write p l)
  unfolding write
  write-Moves Pending.idle k room = inl refl
  write-Moves (Pending.adjusting tx_id a delta balance version reason operator now) k room =
      Moves-of_Commits _ l
        (adjust_write-Commits tx_id a delta balance version reason operator now l valid)
        (λ new l' (c, hits, sum, enough, e).
          let same : c.balance ≡ balance = current l a version _ c hits k.1 in
          (
            rw (e, sum, ← same)
                (adjusted-IsValid tx_id a delta c.balance version reason operator now l valid c hits
                  k.0 (rw (sum, ← same) at enough) (room c hits.0)),
            (
              a,
              rw e (
                  adjusted-Advances a version l c hits (low a c hits.0) tx_id delta new reason
                    operator now),
            ),
          ))
  write-Moves (Pending.holding hold_id a amount version request_id now) k room =
      Moves-of_Commits _ l (hold_write-Commits hold_id a amount version request_id now l valid)
        (λ x l' (c, hits, result, fresh, e). (
          rw e (
              held_back-IsValid hold_id a amount version request_id now l valid c hits k.0
                (current l a version _ c hits k.1) fresh),
          (
            a,
            rw e (
                held_back-Advances a version l c hits (low a c hits.0) hold_id amount request_id now
                  fresh),
          ),
        ))
  write-Moves (Pending.settling tx_id hold_id q cost now) k room =
      Moves-of_Commits _ l (settle_write-Commits hold_id q now l valid tx_id cost)
        (λ new l' (c, hits, sum, enough, e).
          let claim = current l q.account_id q.version (λ d. IsClaim hold_id q l) c hits k.1 in
          (
            rw (e, sum)
                (charged-IsValid hold_id q l valid claim tx_id cost now k.0.0 k.0.1
                  (rw sum at enough)),
            (
              q.account_id,
              rw e (
                  closed-Advances hold_id q l claim c hits (low q.account_id c hits.0) _ _ _ now _),
            ),
          ))
  write-Moves (Pending.releasing hold_id q now) k room =
      Moves-of_Commits _ l (release_write-Commits hold_id q now l valid)
        (λ new l' (c, hits, sum, e).
          let claim = current l q.account_id q.version (λ d. IsClaim hold_id q l) c hits k in
          (
            rw (e, sum) (released-IsValid hold_id q l valid claim now),
            (
              q.account_id,
              rw e (
                  closed-Advances hold_id q l claim c hits (low q.account_id c hits.0) _ _ _ now _),
            ),
          ))
