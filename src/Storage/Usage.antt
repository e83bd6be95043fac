-- ===== src/Storage/Usage.antt =====
-- crates/storage/src/repo/usage_log.rs: the log of calls and the two tables that sum it up.
pub mod Sums
use token_hub.Prelude.{
  ℕ, String, Bool, true, false, Option, none, some, is_some, List, [], ◌∷◌, ◌++◌, DbResult, ok,
  failed, keep, ◌&&◌, if◌then◌else◌, ◌==◌, str_eq, unwrap_or,
}
use token_hub.Prelude.Int.{ℤ, pos, ◌+ℤ◌, leb_ℤ}
use token_hub.Prelude.I64.{add64, i64_min, i64_max}
use token_hub.Prelude.Table.{find, row, update_where, insert_all}
use token_hub.Prelude.Page.{page}
use token_hub.Prelude.Sort.{sort_by}
use token_hub.Domain.Usage.{UsageLog}

-- A column of a summary, which SQLite declares as INTEGER. A sum that leaves the range of 64 bits is
-- computed in floating point and stored as a REAL: `real` says from which two addends, and what is
-- added later.
pub data Column : Type 0 where
  integer : ℤ → Column
  real : (a b : ℤ) (later : List ℤ) → Column

abbrev pub fits64 : ℤ → Bool
fits64 z = leb_ℤ i64_min z && leb_ℤ z i64_max

-- `column + excluded.column`.
abbrev pub add_column : Column → ℤ → Column
add_column (Column.integer a) b =
    let z = a +ℤ b in if fits64 z then Column.integer z else Column.real a b []
add_column (Column.real a b later) c = Column.real a b (later ++ c ∷ [])

-- `r.get` as an `i64`: `none` is its panic, on a REAL. What SQLite's floating-point arithmetic leaves in
-- the column after a sum that was out of range is an argument: no integer, or the one that later
-- addends have led back to.
abbrev pub read_column : (real_value : ℤ → ℤ → List ℤ → Option ℤ) → Column → Option ℤ
read_column real_value (Column.integer z) = some z
read_column real_value (Column.real a b later) = real_value a b later

-- A row of account_usage_summary, of which account and period are the key.
pub record AccountUsage : Type 0 where
  pub account_id : ℕ
  pub period : String
  pub prompt_tokens : Column
  pub completion_tokens : Column
  pub credits : Column
  pub calls : Column

-- A row of provider_usage_summary, of which provider and period are the key.
pub record ProviderUsage : Type 0 where
  pub provider_id : ℕ
  pub period : String
  pub tokens_used : Column

pub record UsageTables : Type 0 where
  pub logs : List UsageLog
  pub accounts : List AccountUsage
  pub providers : List ProviderUsage

abbrev pub is_account_period : ℕ → String → AccountUsage → Bool
is_account_period account_id period r =
    if r.account_id == account_id then str_eq r.period period else false

abbrev pub is_provider_period : ℕ → String → ProviderUsage → Bool
is_provider_period provider_id period r =
    if r.provider_id == provider_id then str_eq r.period period else false

-- `INSERT … ON CONFLICT (…) DO UPDATE`.
abbrev pub upsert {ℓ} : {V : Type ℓ} → (V → Bool) → V → (V → V) → List V → List V
upsert p new f rows = if is_some (find p rows) then update_where p f rows else rows ++ new ∷ []

-- The row of the second statement's `INSERT`, and what its `UPDATE` does to a row that is there.
abbrev pub first : UsageLog → String → AccountUsage
first e period = record {
  account_id = e.account_id;
  period = period;
  prompt_tokens = Column.integer (unwrap_or e.prompt_tokens (pos 0));
  completion_tokens = Column.integer (unwrap_or e.completion_tokens (pos 0));
  credits = Column.integer e.credits_cost;
  calls = Column.integer (pos 1);
}

abbrev pub grown : UsageLog → AccountUsage → AccountUsage
grown e r = record r {
  prompt_tokens = add_column r.prompt_tokens (unwrap_or e.prompt_tokens (pos 0));
  completion_tokens = add_column r.completion_tokens (unwrap_or e.completion_tokens (pos 0));
  credits = add_column r.credits e.credits_cost;
  calls = add_column r.calls (pos 1);
}

unfoldable pub add_account : UsageLog → String → List AccountUsage → List AccountUsage
add_account e period = upsert (is_account_period e.account_id period) (first e period) (grown e)

-- The third, for a call that a provider has answered.
unfoldable pub add_provider : UsageLog → String → List ProviderUsage → List ProviderUsage
add_provider e period rows = elim e.provider_id [
  | none ↦ rows
  | some pid ↦
      let total =
        unwrap_or e.total_tokens
          (add64 (unwrap_or e.prompt_tokens (pos 0)) (unwrap_or e.completion_tokens (pos 0))) in
      upsert (is_provider_period pid period)
        (record { provider_id = pid; period = period; tokens_used = Column.integer total })
        (λ r. record r { tokens_used = add_column r.tokens_used total }) rows
]

unfoldable pub insert_and_aggregate :
    UsageLog → String → UsageTables → DbResult (Unit {0}) × UsageTables
unfolding add_account add_provider
insert_and_aggregate e period t = if is_some (row (λ r. r.id) e.id t.logs) then (failed, t) else (
  ok tt,
  record {
    logs = t.logs ++ e ∷ [];
    accounts = add_account e period t.accounts;
    providers = add_provider e period t.providers;
  },
)

abbrev pub all_read : (a b c d : Option ℤ) → Option (ℤ × ℤ × ℤ × ℤ)
all_read (some a) (some b) (some c) (some d) = some (a, b, c, d)
all_read _ _ _ _ = none

module _ (real_value : ℤ → ℤ → List ℤ → Option ℤ) where
  -- (prompt_tokens, completion_tokens, credits, calls).
  abbrev pub summary_of : Option AccountUsage → Option (ℤ × ℤ × ℤ × ℤ)
  summary_of none = some (pos 0, pos 0, pos 0, pos 0)
  summary_of (some r) =
      all_read (read_column real_value r.prompt_tokens) (read_column real_value r.completion_tokens)
        (read_column real_value r.credits) (read_column real_value r.calls)

  unfoldable pub account_summary : ℕ → String → UsageTables → Option (ℤ × ℤ × ℤ × ℤ)
  account_summary account_id period t =
      summary_of (find (is_account_period account_id period) t.accounts)

  unfoldable pub provider_summary : ℕ → String → UsageTables → Option ℤ
  provider_summary provider_id period t =
      elim (find (is_provider_period provider_id period) t.providers) [
        | none ↦ some (pos 0)
        | some r ↦ read_column real_value r.tokens_used
      ]

-- All entries or, where one fails, none.
unfoldable pub batch_insert : List UsageLog → UsageTables → DbResult (Unit {0}) × UsageTables
unfolding insert_all
batch_insert entries t = elim (insert_all (λ r. r.id) entries t.logs) [
  | none ↦ (failed, t)
  | some logs ↦ (ok tt, record t { logs = logs })
]

-- A column holds the given value, if one is given.
abbrev is_account : Option ℕ → UsageLog → Bool
is_account none e = true
is_account (some a) e = e.account_id == a

abbrev is_provider : Option ℕ → UsageLog → Bool
is_provider none e = true
is_provider (some p) e = elim e.provider_id [ none ↦ false | some q ↦ q == p ]

unfoldable pub list :
    (account_id provider_id : Option ℕ) (limit offset : ℤ) → UsageTables → List UsageLog
list account_id provider_id limit offset t = page limit offset (
    sort_by (λ e f. leb_ℤ f.created_at e.created_at)
      (keep (λ e. is_account account_id e && is_provider provider_id e) t.logs))
