-- ===== src/Storage/Tests.antt =====
-- crates/storage/src/repo: the theorems on providers and usage at small tables.
use token_hub.Prelude.{
  ℕ, false, Option, none, some, List, [], ◌∷◌, ◌≡◌, refl, if◌then◌else◌, ◌==◌, str_eq,
}
use token_hub.Prelude.Int.{ℤ, pos}
use token_hub.Prelude.I64.{i64_max}
use token_hub.Domain.Provider.{ProviderCredential, ProviderStatus}
use token_hub.Domain.Usage.{UsageLog, UsageSource}
use token_hub.Storage.Provider.{Providers}
use token_hub.Storage.Usage.{UsageTables, Column, insert_and_aggregate, account_summary}
use token_hub.Storage.Usage.Sums.{plus, contribution, fits, account_summary-insert}

abbrev provider : ℕ → ProviderCredential
provider id = record {
  id = id;
  name = "acme";
  provider_type = "openai";
  base_url = "https://acme.example/v1";
  api_key_enc = "key";
  status = ProviderStatus.active;
  disabled_reason = none;
  disabled_at = none;
  quota_limit = some (pos 1000);
  quota_used = pos 700;
  quota_threshold = pos 80;
  quota_alert_sent = false;
  quota_synced_at = none;
  created_at = pos 0;
  updated_at = pos 0;
}

abbrev two : Providers
two = provider 1 ∷ provider 2 ∷ []

abbrev entry : UsageLog
entry = record {
  id = 5;
  account_id = 7;
  logical_model = "gpt";
  provider_id = some 1;
  upstream_model = some "gpt-4o";
  prompt_tokens = some (pos 10);
  completion_tokens = none;
  total_tokens = none;
  credits_cost = pos 3;
  usage_source = UsageSource.upstream;
  status = "success";
  source_ip = none;
  created_at = pos 9;
}

-- The account has used as many completion tokens as 64 bits hold.
abbrev used : ℤ × ℤ × ℤ × ℤ
used = (pos 90, i64_max, pos 6, pos 2)

abbrev some_usage : UsageTables
some_usage = record {
  logs = [];
  accounts =
      record {
        account_id = 7;
        period = "202607";
        prompt_tokens = Column.integer (pos 90);
        completion_tokens = Column.integer i64_max;
        credits = Column.integer (pos 6);
        calls = Column.integer (pos 2);
      }
      ∷ [];
  providers = [];
}

logged : UsageTables
logged = (insert_and_aggregate entry "202607" some_usage).1

-- A REAL is never read as an integer.
abbrev unread : ℤ → ℤ → List ℤ → Option ℤ
unread a b later = none

account_summary-insert_example : account_summary unread 7 "202607" logged ≡ (
    if (if 7 == 7 then str_eq "202607" "202607" else false)
    then (if fits (plus used (contribution entry))
        then some (plus used (contribution entry))
        else none)
    else account_summary unread 7 "202607" some_usage)
unfolding logged insert_and_aggregate
account_summary-insert_example =
    account_summary-insert unread (λ a b e. refl) entry "202607" some_usage logged refl refl used
      (refl, refl, refl, refl) 7 "202607"
