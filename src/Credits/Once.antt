-- ===== src/Credits/Once.antt =====
-- crates/storage/src/repo/credits.rs: a hold that has been settled or released.
use token_hub.Prelude.{ℕ, false, none, some, ok, ◌≡◌, arith}
use token_hub.Prelude.Int.{ℤ}
use token_hub.Domain.Account.{CreditHold}
use token_hub.Credits.Ledger.{Ledger, hold_row, is_held}
use token_hub.Credits.Settle.{claim_read, settle_hold, release_hold}

-- No later call of either method has an effect on this hold.
abbrev pub IsOver : ℕ → Ledger → Type 0
IsOver hold_id l =
    (tx_id : ℕ) (cost now : ℤ)
    → (settle_hold tx_id hold_id cost now l ≡ (ok none, l))
      × (release_hold hold_id now l ≡ (ok none, l))

pub closed-IsOver :
    (hold_id : ℕ) (l : Ledger) (h : CreditHold)
    → hold_row hold_id l ≡ some h
    → is_held h.status ≡ false
    → IsOver hold_id l
unfolding settle_hold release_hold claim_read
closed-IsOver hold_id l h found done tx_id cost now = (ground arith, ground arith)
