-- ===== src/Credits/Concurrent/Advance.antt =====
-- A write that takes effect raises the version of its account, and leaves all other accounts and
-- their holds alone.
use token_hub.Prelude.{ℕ, some, ◌≡◌, ◌≢◌, inl, inr, arith, Bool-cases, ◌==◌, ◌∙◌, ap}
use token_hub.Prelude.Int.{ℤ, pos, ◌+ℤ◌, ◌≤ℤ◌, ◌<ℤ◌, pos_part, neg_part, int_laws}
use token_hub.Domain.Account.{Credits, CreditHold}
use token_hub.Credits.Ledger.{Ledger, credits_row, hold_row}
use token_hub.Credits.Settle.{Claim}
use token_hub.Credits.Writes.Settle.{IsClaim}

pub record Advances (a : ℕ) (l l' : Ledger) : Type 0 where
  pub before : Credits
  pub after : Credits
  pub found : credits_row a l ≡ some before
  pub written : credits_row a l' ≡ some after
  pub raised : after.version ≡ before.version +ℤ pos 1
  pub others : (b : ℕ) → b ≢ a → credits_row b l' ≡ credits_row b l
  pub holds :
      (k : ℕ) (h : CreditHold) → hold_row k l ≡ some h → h.account_id ≢ a → hold_row k l' ≡ some h

-- What a task has read of an account is still true, if the version still stands.
pub record Snapshot (a : ℕ) (version : ℤ) (l : Ledger) (P : Credits → Type 0) : Type 0 where
  pub row : Credits
  pub found : credits_row a l ≡ some row
  pub later : version ≤ℤ row.version
  pub current : row.version ≡ version → P row

module _ (a : ℕ) (l l' : Ledger) (moves : Advances a l l') where
  pub Snapshot-Advances :
      (b : ℕ) (version : ℤ) (P Q : Credits → Type 0)
      → (b ≢ a → (c : Credits) → credits_row b l ≡ some c → P c → Q c)
      → Snapshot b version l P
      → Snapshot b version l' Q
  Snapshot-Advances b version P Q keep s = elim (Bool-cases (b == a)) [
    | inl self ↦
        let same : s.row ≡ moves.before = ground (arith, s.found, moves.found) in
        let past = s.later in
        let newer : version <ℤ moves.after.version = rw (moves.raised, ← same) (omega int_laws) in
        record {
          row = moves.after;
          found = ground (arith, moves.written);
          later = omega arith;
          current = λ e. absurd (omega (arith, ap pos_part e, ap neg_part e));
        }
    | inr other ↦
        let away : b ≢ a = ground arith in
        record {
          row = s.row;
          found = moves.others b away ∙ s.found;
          later = s.later;
          current = λ e. keep away s.row s.found (s.current e);
        }
  ]

  pub IsClaim-Advances :
      (hold_id : ℕ) (q : Claim) → q.account_id ≢ a → IsClaim hold_id q l → IsClaim hold_id q l'
  IsClaim-Advances hold_id q away claim = record {
    hold = claim.hold;
    hold_found = moves.holds hold_id claim.hold claim.hold_found (rw claim.same_account away);
    open_hold = claim.open_hold;
    same_account = claim.same_account;
    same_amount = claim.same_amount;
    account = claim.account;
    account_found = moves.others q.account_id away ∙ claim.account_found;
    same_balance = claim.same_balance;
    same_held = claim.same_held;
    same_version = claim.same_version;
  }
