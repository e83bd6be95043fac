-- ===== src/Audit/Sink/Direct.antt =====
-- crates/audit/src/sink.rs: while nothing fails the worker does what one insertion of all that was
-- sent would do.
use token_hub.Prelude.{
  ℕ, true, some, List, [], ◌++◌, ok, ◌≡◌, ◌∙◌, sym, arith, Option-cases, inl, inr,
}
use token_hub.Prelude.Table.{insert_all}
use token_hub.Domain.Usage.{UsageLog}
use token_hub.Storage.Usage as UsageLogRepo
use token_hub.Storage.Usage.{UsageTables}
use token_hub.Storage.AuditLog as AuditLogRepo
use token_hub.Storage.AuditLog.{AuditLogRecord, AuditLogs}
use token_hub.Audit.Sink.{Faults, Worker, run_worker}
use token_hub.Audit.Sink.Batching.{drain-insert_all}
use token_hub.Audit.Sink.Projection.{
  Events, usage_key, audit_key, usage_queue, audit_queue, usage_arrivals, audit_arrivals, run_usage,
  run_audit, run-Summaries,
}
use token_hub.Audit.Sink.Kept.{
  Always, Always-usage, Always-audit, up, sent_usage, sent_audit, arrived-usage, arrived-audit,
}

-- What an insertion that succeeds has done.
usage_inserted :
    (entries : List UsageLog) (t t' : UsageTables)
    → UsageLogRepo.batch_insert entries t ≡ (ok tt, t')
    → (insert_all usage_key entries t.logs ≡ some t'.logs)
      × (t'.accounts ≡ t.accounts)
      × (t'.providers ≡ t.providers)
unfolding UsageLogRepo.batch_insert
usage_inserted entries t t' e = elim (Option-cases (insert_all usage_key entries t.logs)) [
  | inl refused ↦ absurd (ground (arith, refused, e))
  | inr (logs, done) ↦ (ground (arith, done, e), ground (arith, done, e), ground (arith, done, e))
]

audit_inserted :
    (records : List AuditLogRecord) (logs logs' : AuditLogs)
    → AuditLogRepo.batch_insert records logs ≡ (ok tt, logs')
    → insert_all audit_key records logs ≡ some logs'
unfolding AuditLogRepo.batch_insert
audit_inserted records logs logs' e = elim (Option-cases (insert_all audit_key records logs)) [
  | inl refused ↦ absurd (ground (arith, refused, e))
  | inr (after, done) ↦ ground (arith, done, e)
]

worker_of :
    (w : Worker) (usage : UsageTables) (audits : AuditLogs) (usage_file : List UsageLog)
    (audit_file : List AuditLogRecord)
    → usage_queue w ≡ record { batch = []; rows = usage.logs; file = usage_file }
    → audit_queue w ≡ record { batch = []; rows = audits; file = audit_file }
    → w.usage.accounts ≡ usage.accounts
    → w.usage.providers ≡ usage.providers
    → w ≡ record {
      usage_batch = [];
      audit_batch = [];
      usage = usage;
      audits = audits;
      usage_file = usage_file;
      audit_file = audit_file;
    }
worker_of w usage audits usage_file audit_file u a accounts providers =
    ground (arith, u, a, accounts, providers)

-- Suppose that the database answers at every event, and that it would take the records that wait and
-- all that are sent, in their order, in one insertion of each kind. Then the worker, in whatever
-- batches and at whatever ticks, ends with the tables that those two insertions lead to, and writes
-- nothing to the files.
pub run_worker-batch_insert :
    (batch_size : ℕ) (events : Events) (last : Faults) (w : Worker) (usage : UsageTables)
    (audits : AuditLogs)
    → Always up events
    → up last ≡ true
    → UsageLogRepo.batch_insert (w.usage_batch ++ sent_usage events) w.usage ≡ (ok tt, usage)
    → AuditLogRepo.batch_insert (w.audit_batch ++ sent_audit events) w.audits ≡ (ok tt, audits)
    → run_worker batch_size events last w ≡ record {
      usage_batch = [];
      audit_batch = [];
      usage = usage;
      audits = audits;
      usage_file = w.usage_file;
      audit_file = w.audit_file;
    }
run_worker-batch_insert batch_size events last w usage audits answers end u a =
    let inserted = usage_inserted (w.usage_batch ++ sent_usage events) w.usage usage u in
    let recorded = audit_inserted (w.audit_batch ++ sent_audit events) w.audits audits a in
    let same = run-Summaries batch_size events last w in
    worker_of (run_worker batch_size events last w) usage audits w.usage_file w.audit_file
      (run_usage batch_size events last w
        ∙ drain-insert_all usage_key batch_size (usage_arrivals events) last (usage_queue w)
            usage.logs (Always-usage up events answers) end (rw (arrived-usage events) inserted.0))
      (run_audit batch_size events last w
        ∙ drain-insert_all audit_key batch_size (audit_arrivals events) last (audit_queue w) audits
            (Always-audit up events answers) end (rw (arrived-audit events) recorded))
      (same.0 ∙ sym inserted.1) (same.1 ∙ sym inserted.2)
