-- ===== src/Storage/Usage/Sums.antt =====
-- crates/storage/src/repo/usage_log.rs: what the summaries say after a call is logged.
use token_hub.Prelude.{
  ℕ, String, Bool, true, false, Option, none, some, is_some, List, [], ◌∷◌, ◌++◌, ◌&&◌, ok,
  if◌then◌else◌, ◌==◌, str_eq, eq_iff, unwrap_or, map_option, ◌≡◌, refl, ap, arith, inl, inr,
  Bool-cases, Option-cases,
}
use token_hub.Prelude.Int.{ℤ, pos, ◌+ℤ◌, int_laws}
use token_hub.Prelude.Table.{find, update_where}
use token_hub.Domain.Usage.{UsageLog}
use token_hub.Storage.Usage.{
  AccountUsage, UsageTables, Column, fits64, add_column, read_column, all_read, is_account_period,
  upsert, add_account, insert_and_aggregate, account_summary, first, grown, summary_of,
}

module _ {ℓ} {V : Type ℓ} (p q : V → Bool) (new : V) (f : V → V) where
  find-append :
      (rows : List V)
      → find q (rows ++ new ∷ [])
        ≡ (if is_some (find q rows) then find q rows else if q new then some new else none)
  find-append [] = refl
  find-append (r ∷ rows) = ground (arith, find-append rows)

  find-update :
      ((r : V) → q (f r) ≡ q r)
      → (rows : List V)
      → find q (update_where p f rows) ≡ map_option (λ r. if p r then f r else r) (find q rows)
  find-update kept [] = refl
  find-update kept (r ∷ rows) = ground (arith, kept r, find-update kept rows)

module _ {ℓ} {V : Type ℓ} (p : V → Bool) where
  find-here : (rows : List V) (r : V) → find p rows ≡ some r → p r ≡ true
  find-here [] r e = cc
  find-here (s ∷ rows) r e = ground (arith, find-here rows r)

module _ {ℓ} {V : Type ℓ} (p : V → Bool) (new : V) (f : V → V) (kept : (r : V) → p (f r) ≡ p r)
    (fits : p new ≡ true) where
  -- The row after an `upsert`.
  find-upsert_self :
      (rows : List V)
      → find p (upsert p new f rows)
        ≡ (elim (find p rows) [ none ↦ some new | some r ↦ some (f r) ])
  find-upsert_self rows = elim (Option-cases (find p rows)) [
    | inl missing ↦ rw (missing, find-append p p new f rows, missing, fits)
    | inr (r, found) ↦
        rw (found, find-update p p new f kept rows, found) (rw (find-here p rows r found) refl)
  ]

module _ {ℓ} {V : Type ℓ} (p q : V → Bool) (new : V) (f : V → V) (kept : (r : V) → q (f r) ≡ q r)
    (apart : (r : V) → q r ≡ true → p r ≡ false) (fresh : q new ≡ false) where
  find-upsert_ne : (rows : List V) → find q (upsert p new f rows) ≡ find q rows
  find-upsert_ne rows = elim (Option-cases (find q rows)) [
    | inl missing ↦
        ground (arith, find-append p q new f rows, find-update p q new f kept rows, missing, fresh)
    | inr (r, found) ↦
        let here = apart r (find-here q rows r found) in
        ground (arith, find-append p q new f rows, find-update p q new f kept rows, found, here)
  ]

abbrev pub plus : (before change : ℤ × ℤ × ℤ × ℤ) → ℤ × ℤ × ℤ × ℤ
plus b c = (b.0 +ℤ c.0, b.1 +ℤ c.1, b.2 +ℤ c.2, b.3 +ℤ c.3)

-- What a call adds to its account's summary.
abbrev pub contribution : UsageLog → ℤ × ℤ × ℤ × ℤ
contribution e = (
  unwrap_or e.prompt_tokens (pos 0),
  unwrap_or e.completion_tokens (pos 0),
  e.credits_cost,
  pos 1,
)

-- All four are numbers of 64 bits.
abbrev pub fits : ℤ × ℤ × ℤ × ℤ → Bool
fits v = fits64 v.0 && fits64 v.1 && fits64 v.2 && fits64 v.3

-- The row that a search has found, if one is there, holds these four integers; otherwise all are 0.
abbrev Holds : Option AccountUsage → ℤ × ℤ × ℤ × ℤ → Type 0
Holds none v = v ≡ (pos 0, pos 0, pos 0, pos 0)
Holds (some r) v =
    (r.prompt_tokens ≡ Column.integer v.0)
    × (r.completion_tokens ≡ Column.integer v.1)
    × (r.credits ≡ Column.integer v.2)
    × (r.calls ≡ Column.integer v.3)

zero-plus : (z : ℤ) → pos 0 +ℤ z ≡ z
zero-plus z = omega int_laws

all_read_if :
    (p q r s : Bool) (a b c d : ℤ)
    → all_read
        (if p then some a else none)
        (if q then some b else none)
        (if r then some c else none)
        (if s then some d else none)
      ≡ (if p && q && r && s then some (a, b, c, d) else none)
all_read_if true true true true a b c d = refl
all_read_if true true true false a b c d = refl
all_read_if true true false s a b c d = refl
all_read_if true false r s a b c d = refl
all_read_if false q r s a b c d = refl

module _ (real_value : ℤ → ℤ → List ℤ → Option ℤ)
    (over : (a b : ℤ) → fits64 (a +ℤ b) ≡ false → real_value a b [] ≡ none) where
  -- A sum is read as it is, if it fits.
  read-add_column :
      (a b : ℤ)
      → read_column real_value (add_column (Column.integer a) b)
        ≡ (if fits64 (a +ℤ b) then some (a +ℤ b) else none)
  read-add_column a b = elim (Bool-cases (fits64 (a +ℤ b))) [
    | inl fitting ↦ rw fitting refl
    | inr large ↦ rw large (over a b large)
  ]

  module _ (e : UsageLog) (period : String) (t t' : UsageTables)
      (done : insert_and_aggregate e period t ≡ (ok tt, t'))
      (given : fits (contribution e) ≡ true) where
    tables : t' ≡ record {
      logs = t.logs ++ e ∷ [];
      accounts = add_account e period t.accounts;
      providers = t'.providers;
    }
    unfolding insert_and_aggregate
    tables = ground (arith, done)

    accounts : t'.accounts ≡ add_account e period t.accounts
    accounts = ap (λ x. x.accounts) tables

    read_row :
        (o : Option AccountUsage) (before : ℤ × ℤ × ℤ × ℤ)
        → Holds o before
        → summary_of real_value
            (elim o [ none ↦ some (first e period) | some r ↦ some (grown e r) ])
          ≡ (if fits (plus before (contribution e))
              then some (plus before (contribution e))
              else none)
    read_row none before zero =
        let a = zero-plus (unwrap_or e.prompt_tokens (pos 0)) in
        let b = zero-plus (unwrap_or e.completion_tokens (pos 0)) in
        let c = zero-plus e.credits_cost in
        let d = zero-plus (pos 1) in rw zero (rw (a, b, c, d) (rw given refl))
    read_row (some r) before (p, c, k, n) =
        rw (p, c, k, n)
          (rw
            (
              read-add_column before.0 (unwrap_or e.prompt_tokens (pos 0)),
              read-add_column before.1 (unwrap_or e.completion_tokens (pos 0)),
              read-add_column before.2 e.credits_cost,
              read-add_column before.3 (pos 1),
            )
            (all_read_if _ _ _ _ _ _ _ _))

    summary_self :
        (before : ℤ × ℤ × ℤ × ℤ)
        → Holds (find (is_account_period e.account_id period) t.accounts) before
        → account_summary real_value e.account_id period t' ≡ (
            if fits (plus before (contribution e))
            then some (plus before (contribution e))
            else none)
    unfolding account_summary add_account
    summary_self before held =
        let p = is_account_period e.account_id period in
        let self : p (first e period) ≡ true = ground (arith, (eq_iff period period).1 refl) in
        let found = find-upsert_self p (first e period) (grown e) (λ r. refl) self t.accounts in
        rw (accounts, add_account, found) (read_row (find p t.accounts) before held)

    summary_ne :
        (account_id : ℕ) (s : String)
        → (if e.account_id == account_id then str_eq period s else false) ≡ false
        → account_summary real_value account_id s t' ≡ account_summary real_value account_id s t
    unfolding account_summary add_account
    summary_ne account_id s away = rw accounts (
        ap (summary_of real_value) (
          find-upsert_ne (is_account_period e.account_id period) (is_account_period account_id s)
            (first e period) (grown e) (λ r. refl)
            (λ r h. ground (arith, eq_iff r.period s, eq_iff r.period period, eq_iff period s)) away
            t.accounts))

    -- A call that is logged, with values of 64 bits, where the summary of its account in its period
    -- holds four integers, or there is none yet: afterwards the summary is read as those four with the
    -- call's two counts of tokens (0 for one that is not known), its cost and one call added, if all
    -- four sums fit in 64 bits, and reading it panics, if one does not. The summary of any other
    -- account, or of another period, is read as before. What is assumed of the database: a sum out of
    -- range has become a REAL, which is not read as an integer.
    pub account_summary-insert :
        (before : ℤ × ℤ × ℤ × ℤ)
        → Holds (find (is_account_period e.account_id period) t.accounts) before
        → (account_id : ℕ) (s : String)
        → account_summary real_value account_id s t' ≡ (
            if (if e.account_id == account_id then str_eq period s else false)
            then (if fits (plus before (contribution e))
                then some (plus before (contribution e))
                else none)
            else account_summary real_value account_id s t)
    account_summary-insert before held account_id s =
        elim (Bool-cases (if e.account_id == account_id then str_eq period s else false)) [
          | inl here ↦
              let same_id : e.account_id ≡ account_id = ground arith in
              let same_period : period ≡ s = ground (arith, eq_iff period s) in
              rw here (rw (← same_id, ← same_period) (summary_self before held))
          | inr away ↦ rw away (summary_ne account_id s away)
        ]
