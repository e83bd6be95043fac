-- ===== src/Credits/Concurrent/Raise.antt =====
-- crates/storage/src/repo/credits.rs: each conditional `UPDATE` raises the version of the account
-- whose row it hits, and its transaction leaves the holds of all other accounts alone.
use token_hub.Prelude.{
  ℕ, ◌+◌, ◌<◌, ◌^◌, String, Option, none, some, List, ◌≡◌, ◌≢◌, refl, arith, ◌∙◌,
}
use token_hub.Prelude.Int.{ℤ, pos, pos_part, neg_part, ◌+ℤ◌, int_bounds}
use token_hub.Prelude.I64.{add64, wrap64_id}
use token_hub.Prelude.Table.{row, key-row, row-insert, row-update_where}
use token_hub.Domain.Account.{Credits, CreditHold, HoldStatus, CreditTransaction}
use token_hub.Credits.Ledger.{Ledger, hold_row}
use token_hub.Credits.Sums.{is_id, closed}
use token_hub.Credits.Invariant.{written, written_row_self, written_row_ne}
use token_hub.Credits.Adjust.{adjusted}
use token_hub.Credits.Hold.{held_back, new_hold}
use token_hub.Credits.Settle.{Claim, close_hold}
use token_hub.Credits.Writes.{Hits}
use token_hub.Credits.Writes.Settle.{IsClaim}
use token_hub.Credits.Concurrent.Advance.{Advances}

-- No version is so high that its successor wraps around.
abbrev pub IsLow : Credits → Type 0
IsLow c = (neg_part c.version ≡ 0) × (pos_part c.version + 1 < 2 ^ 63)

pub raise_exact : (c : Credits) (v : ℤ) → c.version ≡ v → IsLow c → add64 v (pos 1) ≡ v +ℤ pos 1
raise_exact c v same low = rw (← same) (wrap64_id _ (omega int_bounds))

module _ (a : ℕ) (v : ℤ) (l : Ledger) (c : Credits) (hit : Hits a v l c) (low : IsLow c) where
  pub written-Advances :
      (f : Credits → Credits) (kept : (d : Credits) → (f d).account_id ≡ d.account_id)
      (holds : List CreditHold) (ts : List CreditTransaction)
      → (f c).version ≡ add64 v (pos 1)
      → ((k : ℕ) (h : CreditHold)
          → hold_row k l ≡ some h
          → h.account_id ≢ a
          → row (λ g. g.id) k holds ≡ some h)
      → Advances a l (written a v f kept holds ts l)
  written-Advances f kept holds ts raise others = record {
    before = c;
    after = f c;
    found = hit.0;
    written = written_row_self a v f kept holds ts l c hit.0 hit.1;
    raised = rw (raise, raise_exact c v hit.1 low, hit.1) refl;
    others = λ b away. written_row_ne a v f kept holds ts l b away;
    holds = others;
  }

  pub adjusted-Advances :
      (tx_id : ℕ) (delta new : ℤ) (reason operator : Option String) (now : ℤ)
      → Advances a l (adjusted tx_id a delta new v reason operator now l)
  adjusted-Advances tx_id delta new reason operator now =
      written-Advances _ (λ d. refl) l.holds _ refl (λ k h found away. found)

  pub held_back-Advances :
      (hold_id : ℕ) (amount : ℤ) (request_id : Option ℕ) (now : ℤ)
      → hold_row hold_id l ≡ none
      → Advances a l (held_back hold_id a amount v request_id now l)
  held_back-Advances hold_id amount request_id now fresh =
      written-Advances _ (λ d. refl) _ l.transactions refl
        (λ k h found away. ground (
          arith,
          row-insert (λ g. g.id) k (new_hold hold_id a amount request_id now) l.holds fresh,
          found,
          fresh,
        ))

module _ (hold_id : ℕ) (q : Claim) (l : Ledger) (claim : IsClaim hold_id q l) (c : Credits)
    (hit : Hits q.account_id q.version l c) (low : IsLow c) where
  pub closed-Advances :
      (status : HoldStatus) (balance held now : ℤ) (ts : List CreditTransaction)
      → Advances q.account_id l
          (record (close_hold hold_id status q balance held now l) { transactions = ts })
  closed-Advances status balance held now ts =
      written-Advances q.account_id q.version l c hit low _ (λ d. refl) _ ts refl
        (λ k h found away. others k h found away)
    where
      others :
          (k : ℕ) (h : CreditHold)
          → hold_row k l ≡ some h
          → h.account_id ≢ q.account_id
          → row (λ g. g.id) k (close_hold hold_id status q balance held now l).holds ≡ some h
      others k h found away =
          row-update_where (λ g. g.id) (is_id hold_id) (closed status now) (λ g. refl) k l.holds
          ∙ ground
              (arith, key-row (λ g. g.id) k l.holds h found, claim.hold_found, claim.same_account)
