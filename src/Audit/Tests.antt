-- ===== src/Audit/Tests.antt =====
-- crates/audit: the theorems at a short run of the worker.
use token_hub.Prelude.{ℕ, ◌+◌, Bool, true, false, none, some, [], ◌∷◌, ◌≡◌, refl}
use token_hub.Prelude.Int.{pos}
use token_hub.Prelude.Table.{insert_all}
use token_hub.Domain.Usage.{UsageLog, UsageSource}
use token_hub.Storage.Usage.{UsageTables}
use token_hub.Storage.Usage as UsageLogRepo
use token_hub.Storage.AuditLog as AuditLogRepo
use token_hub.Storage.AuditLog.{AuditLogRecord}
use token_hub.Audit.Sink.{AuditCommand, Faults, Worker, Event, run_worker}
use token_hub.Audit.Sink.Queue.{count}
use token_hub.Audit.Sink.Projection.{Events}
use token_hub.Audit.Sink.Kept.{sent_usage, sent_audit, run_worker_keeps}
use token_hub.Audit.Sink.Direct.{run_worker-batch_insert}

abbrev call : ℕ → UsageLog
call id = record {
  id = id;
  account_id = 7;
  logical_model = "gpt";
  provider_id = some 1;
  upstream_model = none;
  prompt_tokens = none;
  completion_tokens = none;
  total_tokens = none;
  credits_cost = pos 25;
  usage_source = UsageSource.upstream;
  status = "success";
  source_ip = none;
  created_at = pos 9;
}

abbrev change : ℕ → AuditLogRecord
change id = record {
  id = id;
  actor_kind = "admin";
  actor_id = some 1;
  action = "credits.adjust";
  target_type = none;
  target_id = none;
  detail = none;
  source_ip = none;
  created_at = pos 9;
}

abbrev good : Faults
good = record { database_up = true; file_writable = true }

abbrev down : Faults
down = record { database_up = false; file_writable = true }

abbrev dark : Faults
dark = record { database_up = false; file_writable = false }

abbrev start : Worker
start = record {
  usage_batch = [];
  audit_batch = [];
  usage = record { logs = []; accounts = []; providers = [] };
  audits = [];
  usage_file = [];
  audit_file = [];
}

abbrev of_call : ℕ → Event
of_call id = Event.recv (AuditCommand.usage_log (call id))

abbrev of_change : ℕ → Event
of_change id = Event.recv (AuditCommand.audit_log (change id))

-- The database is down when the first batch of two is full.
abbrev outage : Events
outage = (of_call 1, good) ∷ (of_call 2, down) ∷ (of_change 3, good) ∷ (of_call 4, good) ∷ []

run_worker_keeps_example :
    let after = run_worker 2 outage good start in
    (after.usage_batch ≡ [])
    × (after.audit_batch ≡ [])
    × ((p : UsageLog → Bool)
        → count p after.usage.logs + count p after.usage_file
          ≡ count p start.usage.logs
            + count p start.usage_file
            + count p start.usage_batch
            + count p (sent_usage outage))
    × ((p : AuditLogRecord → Bool)
        → count p after.audits + count p after.audit_file
          ≡ count p start.audits
            + count p start.audit_file
            + count p start.audit_batch
            + count p (sent_audit outage))
run_worker_keeps_example =
    run_worker_keeps 2 outage good start (refl, (refl, (refl, (refl, tt)))) refl

-- The database and the files fail while three records are sent.
abbrev blackout : Events
blackout = (of_call 1, dark) ∷ (of_change 3, dark) ∷ (of_call 2, dark) ∷ (Event.tick, dark) ∷ []

abbrev calm : Events
calm =
    (of_call 1, good)
    ∷ (of_change 3, good)
    ∷ (Event.tick, good)
    ∷ (of_call 2, good)
    ∷ (of_call 4, good)
    ∷ []

abbrev filled : UsageTables
filled = record { logs = call 1 ∷ call 2 ∷ call 4 ∷ []; accounts = []; providers = [] }

run_worker-batch_insert_example : run_worker 2 calm good start ≡ record {
  usage_batch = [];
  audit_batch = [];
  usage = filled;
  audits = change 3 ∷ [];
  usage_file = [];
  audit_file = [];
}
unfolding UsageLogRepo.batch_insert AuditLogRepo.batch_insert insert_all
run_worker-batch_insert_example =
    run_worker-batch_insert 2 calm good start filled (change 3 ∷ [])
      (refl, (refl, (refl, (refl, (refl, tt))))) refl refl refl
