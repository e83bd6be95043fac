-- ===== src/Audit/Sink.antt =====
-- crates/audit/src/sink.rs. The channel keeps the order of the commands; the worker takes them one
-- after another, and a tick where none waits. What the world does at an event is the event's: whether
-- the database answers and whether the fallback file can be written. A file holds the records that
-- the program writes into it as JSON.
pub mod Queue
pub mod Batching
pub mod Projection
pub mod Kept
pub mod Single
pub mod Direct
use token_hub.Prelude.{
  ℕ, Bool, true, false, Option, none, some, List, [], ◌∷◌, ◌++◌, length, leb, DbResult, ok, failed,
  if◌then◌else◌,
}
use token_hub.Domain.Usage.{UsageLog}
use token_hub.Storage.Usage as UsageLogRepo
use token_hub.Storage.Usage.{UsageTables}
use token_hub.Storage.AuditLog as AuditLogRepo
use token_hub.Storage.AuditLog.{AuditLogRecord, AuditLogs}

pub data AuditCommand : Type 0 where
  usage_log : UsageLog → AuditCommand
  audit_log : AuditLogRecord → AuditCommand

pub record Faults : Type 0 where
  pub database_up : Bool
  pub file_writable : Bool

pub record Worker : Type 0 where
  pub usage_batch : List UsageLog
  pub audit_batch : List AuditLogRecord
  pub usage : UsageTables
  pub audits : AuditLogs
  pub usage_file : List UsageLog
  pub audit_file : List AuditLogRecord

-- `write_fallback`: an error is ignored.
abbrev pub write_fallback {ℓ} : {V : Type ℓ} → Faults → List V → List V → List V
write_fallback f lines file = if f.file_writable then file ++ lines else file

unfoldable pub flush_usage : Faults → Worker → Worker
unfolding UsageLogRepo.batch_insert
flush_usage f w = elim w.usage_batch [
  | [] ↦ w
  | _ ∷ _ ↦
      let (r, usage) =
        if f.database_up
        then UsageLogRepo.batch_insert w.usage_batch w.usage
        else (failed, w.usage) in
      elim r [
        | ok _ ↦ record w { usage = usage; usage_batch = [] }
        | failed ↦ record w {
          usage = usage;
          usage_file = write_fallback f w.usage_batch w.usage_file;
          usage_batch = [];
        }
      ]
]

unfoldable pub flush_audit : Faults → Worker → Worker
unfolding AuditLogRepo.batch_insert
flush_audit f w = elim w.audit_batch [
  | [] ↦ w
  | _ ∷ _ ↦
      let (r, audits) =
        if f.database_up
        then AuditLogRepo.batch_insert w.audit_batch w.audits
        else (failed, w.audits) in
      elim r [
        | ok _ ↦ record w { audits = audits; audit_batch = [] }
        | failed ↦ record w {
          audits = audits;
          audit_file = write_fallback f w.audit_batch w.audit_file;
          audit_batch = [];
        }
      ]
]

pub data Event : Type 0 where
  recv : AuditCommand → Event
  tick : Event

-- One round of the loop.
unfoldable pub step : (batch_size : ℕ) → Event → Faults → Worker → Worker
unfolding flush_usage flush_audit
step batch_size (recv (AuditCommand.usage_log e)) f w =
    let w' = record w { usage_batch = w.usage_batch ++ e ∷ [] } in
    if leb batch_size (length w'.usage_batch) then flush_usage f w' else w'
step batch_size (recv (AuditCommand.audit_log r)) f w =
    let w' = record w { audit_batch = w.audit_batch ++ r ∷ [] } in
    if leb batch_size (length w'.audit_batch) then flush_audit f w' else w'
step batch_size tick f w = flush_audit f (flush_usage f w)

-- The worker runs until the channel is closed, and then writes what is left.
unfoldable pub run_worker :
    (batch_size : ℕ) → List (Event × Faults) → (last : Faults) → Worker → Worker
unfolding step flush_usage flush_audit
run_worker batch_size [] last w = flush_audit last (flush_usage last w)
run_worker batch_size ((e, f) ∷ events) last w =
    run_worker batch_size events last (step batch_size e f w)
