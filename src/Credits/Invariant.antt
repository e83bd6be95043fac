-- ===== src/Credits/Invariant.antt =====
-- crates/storage/src/repo/credits.rs: what holds of the three tables between transactions, and the
-- rule by which a conditional `UPDATE` of one account keeps it.
use token_hub.Prelude.{
  ℕ, Bool, true, false, some, is_some, List, [], ◌∷◌, ◌++◌, ◌≡◌, ◌≢◌, inl, inr, arith, All,
  if◌then◌else◌, map_option, ◌==◌, Option-cases, Bool-cases,
}
use mathlib.Core.Path.{subst}
use token_hub.Prelude.Int.{ℤ, pos, ◌+ℤ◌, ◌≤ℤ◌, eqb_ℤ}
use token_hub.Prelude.I64.{i64_max}
use token_hub.Prelude.Table.{
  row, update_where, Unique, row-update_where, key-row, update_where-Unique, rows_affected,
  rows_affected_key,
}
use token_hub.Domain.Account.{Credits, CreditHold, CreditTransaction}
use token_hub.Credits.Ledger.{Ledger, credits_row, at_version}
use token_hub.Credits.Sums.{held_sum, delta_sum, IsCharge}

-- An account's row: the balance is not negative, `held` is what the open holds add up to, both
-- together are the sum of the account's transactions, and they fit in 64 bits.
pub record IsSound (a : ℕ) (c : Credits) (holds : List CreditHold) (ts : List CreditTransaction)
    : Type 0 where
  pub solvent : pos 0 ≤ℤ c.balance
  pub backed : c.held ≡ held_sum a holds
  pub audited : c.balance +ℤ c.held ≡ delta_sum a ts
  pub fits : c.balance +ℤ c.held ≤ℤ i64_max

-- The account of a hold exists.
abbrev pub HasOwner : List Credits → CreditHold → Type 0
HasOwner credits h = is_some (row (λ c. c.account_id) h.account_id credits) ≡ true

pub record IsValid (l : Ledger) : Type 0 where
  pub accounts : Unique (λ c. c.account_id) l.credits
  pub hold_ids : Unique (λ h. h.id) l.holds
  pub charges : All IsCharge l.holds
  pub owners : All (HasOwner l.credits) l.holds
  pub sound : (a : ℕ) (c : Credits) → credits_row a l ≡ some c → IsSound a c l.holds l.transactions

pub row-All {ℓ} :
    {V : Type ℓ} (key : V → ℕ) (P : V → Type 0) (k : ℕ) (rows : List V) (r : V)
    → All P rows
    → row key k rows ≡ some r
    → P r
row-All key P k [] r h e = cc
row-All key P k (s ∷ rows) r h e = elim (Bool-cases (key s == k)) [
  | inl here ↦ let same : s ≡ r = ground arith in subst P same h.0
  | inr later ↦ row-All key P k rows r h.1 (ground arith)
]

pub All-imp {ℓ} :
    {V : Type ℓ} {P Q : V → Type 0} (rows : List V)
    → ((r : V) → P r → Q r)
    → All P rows
    → All Q rows
All-imp [] step h = tt
All-imp (r ∷ rows) step h = (step r h.0, All-imp rows step h.1)

pub All-append {ℓ} :
    {V : Type ℓ} (P : V → Type 0) (rows : List V) (r : V)
    → All P rows
    → P r
    → All P (rows ++ r ∷ [])
All-append P [] r h p = (p, tt)
All-append P (s ∷ rows) r h p = (h.0, All-append P rows r h.1 p)

pub All-update {ℓ} :
    {V : Type ℓ} {P : V → Type 0} (p : V → Bool) (f : V → V) (rows : List V)
    → ((r : V) → P r → P (f r))
    → All P rows
    → All P (update_where p f rows)
All-update p f [] step h = tt
All-update {P} p f (r ∷ rows) step h = (head (p r), All-update p f rows step h.1)
  where
    head : (b : Bool) → P (if b then f r else r)
    head true = step r h.0
    head false = h.0

-- Where the `UPDATE` has hit a row, the account exists and has the version that was read.
pub hit-row :
    (a : ℕ) (v : ℤ) (l : Ledger)
    → IsValid l
    → (rows_affected (at_version a v) l.credits == 0) ≡ false
    → (c : Credits) × (credits_row a l ≡ some c) × (c.version ≡ v)
hit-row a v l valid hit =
    let count =
      rows_affected_key (λ c. c.account_id) a (λ c. eqb_ℤ c.version v) l.credits valid.accounts in
    elim (Option-cases (credits_row a l)) [
      | inl missing ↦ absurd (ground (arith, count))
      | inr (c, found) ↦ (c, found, ground (arith, count))
    ]

-- The `UPDATE` hits the row whose version it names.
pub row-hit :
    (a : ℕ) (v : ℤ) (l : Ledger) (c : Credits)
    → IsValid l
    → credits_row a l ≡ some c
    → c.version ≡ v
    → (rows_affected (at_version a v) l.credits == 0) ≡ false
row-hit a v l c valid found same = ground (
  arith,
  rows_affected_key (λ d. d.account_id) a (λ d. eqb_ℤ d.version v) l.credits valid.accounts,
)

module _ (a : ℕ) (v : ℤ) (f : Credits → Credits)
    (kept : (c : Credits) → (f c).account_id ≡ c.account_id) (holds : List CreditHold)
    (ts : List CreditTransaction) (l : Ledger) where
  abbrev pub written : Ledger
  written = record {
    credits = update_where (at_version a v) f l.credits;
    holds = holds;
    transactions = ts;
  }

  pub written_row :
      (b : ℕ)
      → credits_row b written
        ≡ map_option (λ c. if at_version a v c then f c else c) (credits_row b l)
  written_row b = row-update_where (λ c. c.account_id) (at_version a v) f kept b l.credits

  pub written_row_self :
      (c : Credits) → credits_row a l ≡ some c → c.version ≡ v → credits_row a written ≡ some (f c)
  written_row_self c found same =
      ground (arith, written_row a, key-row (λ d. d.account_id) a l.credits c found)

  pub written_row_ne : (b : ℕ) → b ≢ a → credits_row b written ≡ credits_row b l
  written_row_ne b other = elim (Option-cases (credits_row b l)) [
    | inl missing ↦ ground (arith, written_row b)
    | inr (d, found) ↦
        ground (arith, written_row b, key-row (λ e. e.account_id) b l.credits d found)
  ]

  -- A write to one account keeps the invariant if it does so for that account, and leaves the sums
  -- of every other account alone.
  pub written-IsValid :
      (c : Credits)
      → IsValid l
      → credits_row a l ≡ some c
      → c.version ≡ v
      → Unique (λ h. h.id) holds
      → All IsCharge holds
      → All (HasOwner l.credits) holds
      → ((b : ℕ) → b ≢ a → held_sum b holds ≡ held_sum b l.holds)
      → ((b : ℕ) → b ≢ a → delta_sum b ts ≡ delta_sum b l.transactions)
      → IsSound a (f c) holds ts
      → IsValid written
  written-IsValid c valid found same ids charges owned held_kept delta_kept here = record {
    accounts =
        update_where-Unique (λ d. d.account_id) (at_version a v) f kept l.credits valid.accounts;
    hold_ids = ids;
    charges = charges;
    owners = All-imp holds (λ h o. ground (arith, o, written_row h.account_id)) owned;
    sound = λ b d e. sound_row b d e;
  }
    where
      sound_row : (b : ℕ) (d : Credits) → credits_row b written ≡ some d → IsSound b d holds ts
      sound_row b d e = elim (Bool-cases (b == a)) [
        | inl self ↦
            let at_a : b ≡ a = ground arith in
            let is_new : f c ≡ d = ground (arith, written_row_self c found same) in
            rw at_a (subst (λ r. IsSound a r holds ts) is_new here)
        | inr other ↦
            let away : b ≢ a = ground arith in
            let old = valid.sound b d (ground (arith, written_row_ne b away)) in
            record {
              solvent = old.solvent;
              backed = rw (held_kept b away) old.backed;
              audited = rw (delta_kept b away) old.audited;
              fits = old.fits;
            }
      ]
