-- ===== src/Api/Chat/Accounting.antt =====
-- crates/api/src/handlers/chat.rs: the prices of a call, and what is done once it is answered: the
-- settlement, the cache, the log, and the provider's quota with its alert.
use token_hub.Prelude.{
  ℕ, String, Bool, true, false, Option, none, some, map_option, ok, failed, if◌then◌else◌, ◌==◌,
}
use token_hub.Prelude.Int.{ℤ, pos, pos_part, ltb_ℤ, leb_ℤ, max_ℤ}
use token_hub.Prelude.I64.{mul64, div_trunc}
use token_hub.Domain.Usage.{UsageLog}
use token_hub.Domain.Provider.{LogicalModel}
use token_hub.Billing.Rates.{total, compute_credits}
use token_hub.Billing.Estimator.{Tokenizer, estimate_prompt_tokens}
use token_hub.Billing.UsageSource.{UpstreamUsage, ResolvedUsage, resolve_usage}
use token_hub.Credits.Settle.{settle_hold}
use token_hub.Storage.Provider.{Providers, Quota, add_usage, mark_alert_sent}
use token_hub.Storage.Usage.{insert_and_aggregate}
use token_hub.Api.Error.{ApiError}
use token_hub.Api.Chat.Request.{ChatResponse, ResponseUsage, Db, completion_text}

pub data Outcome : Type 0 where
  success : ChatResponse → Outcome
  error : ApiError → Outcome
  panic : Outcome

-- What the handler draws at random, or reads from the clock.
pub record Draws : Type 0 where
  pub hold_id : ℕ
  pub request_id : ℕ
  pub tx_id : ℕ
  pub log_id : ℕ
  pub now : ℤ
  pub period : String

-- The amount to hold: the prompt alone, and at least 1.
unfoldable pub est_credits : Tokenizer → String → LogicalModel → ℤ
est_credits bpe prompt m =
    max_ℤ
      (compute_credits
        (record { prompt_tokens = estimate_prompt_tokens bpe prompt; completion_tokens = pos 0 })
        m.input_rate_per_1k m.output_rate_per_1k)
      (pos 1)

abbrev pub upstream_usage : ChatResponse → Option UpstreamUsage
upstream_usage response =
    map_option
      (λ (u : ResponseUsage). record {
        prompt_tokens = some u.prompt_tokens;
        completion_tokens = some u.completion_tokens;
        total_tokens = some u.total_tokens;
      })
      response.usage

abbrev pub resolved : Tokenizer → String → ChatResponse → ResolvedUsage
resolved bpe prompt response =
    resolve_usage bpe (upstream_usage response) prompt (completion_text response)

unfoldable pub actual_credits : Tokenizer → String → LogicalModel → ChatResponse → ℤ
actual_credits bpe prompt m response =
    max_ℤ
      (compute_credits (resolved bpe prompt response).tokens m.input_rate_per_1k
        m.output_rate_per_1k)
      (pos 0)

-- `!alert_sent`, a limit above 0, and a share of at least the threshold.
unfoldable pub alert_due : Quota → Bool
alert_due (used, none, threshold, alert_sent) = false
alert_due (used, some lim, threshold, alert_sent) =
    if alert_sent
    then false
    else if ltb_ℤ (pos 0) lim
    then leb_ℤ threshold (div_trunc (mul64 used (pos 100)) (pos_part lim))
    else false

-- The providers after the call is counted, and whether the administrator is notified.
unfoldable pub count_quota : (provider_id : ℕ) (tokens now : ℤ) → Providers → Providers × Bool
unfolding alert_due
count_quota provider_id tokens now ps =
    let (r, after) = add_usage provider_id tokens now ps in
    elim r [
      | failed ↦ (after, false)
      | ok quota ↦
          if alert_due quota then (mark_alert_sent provider_id now after, true) else (after, false)
    ]

abbrev pub usage_entry :
    Draws
    → (account_id : ℕ) (model : String) (provider_id : ℕ) (upstream_model : String) → ResolvedUsage
    → ℤ
    → UsageLog
usage_entry d account_id model provider_id upstream_model r cost = record {
  id = d.log_id;
  account_id = account_id;
  logical_model = model;
  provider_id = some provider_id;
  upstream_model = some upstream_model;
  prompt_tokens = some r.tokens.prompt_tokens;
  completion_tokens = some r.tokens.completion_tokens;
  total_tokens = some (total r.tokens);
  credits_cost = cost;
  usage_source = r.source;
  status = "success";
  source_ip = none;
  created_at = d.now;
}

-- After the settlement: the cache, the log and the quota. The flag is the notification.
unfoldable pub record_call :
    Draws
    → (account_id : ℕ) (new_balance : ℤ) → UsageLog
    → (provider_id : ℕ) (tokens : ℤ) → ChatResponse
    → Db
    → Outcome × Db × Bool
record_call d account_id new_balance entry provider_id tokens response db =
    let cached = record db {
      balances = λ a. if a == account_id then some new_balance else db.balances a;
    } in
    let (r, usage) = insert_and_aggregate entry d.period db.usage in
    elim r [
      | failed ↦ (Outcome.error (ApiError.internal none), cached, false)
      | ok _ ↦
          let (providers, notified) = count_quota provider_id tokens d.now db.providers in
          (
            Outcome.success response,
            record cached { usage = usage; providers = providers },
            notified,
          )
    ]

-- Everything behind the loop, for a call that was answered.
unfoldable pub settle :
    Tokenizer
    → Draws
    → (account_id : ℕ) (model : String) (prompt : String) → LogicalModel
    → (provider_id : ℕ) (upstream_model : String) → ChatResponse
    → Db
    → Outcome × Db × Bool
settle bpe d account_id model prompt m provider_id upstream_model response db =
    let r = resolved bpe prompt response in
    let cost = actual_credits bpe prompt m response in
    let (s, ledger) = settle_hold d.tx_id d.hold_id cost d.now db.ledger in
    let after = record db { ledger = ledger } in
    elim s [
      | failed ↦ (Outcome.error (ApiError.internal none), after, false)
      | ok none ↦ (Outcome.error (ApiError.internal (some "settle failed")), after, false)
      | ok (some new_balance) ↦
          record_call d account_id new_balance
            (usage_entry d account_id model provider_id upstream_model r cost) provider_id
            (total r.tokens) response after
    ]
