-- ===== src/Storage/AuditLog.antt =====
-- crates/storage/src/repo/audit_log.rs: AuditLogRepo over the table audit_logs.
use token_hub.Prelude.{
  ℕ, String, Bool, true, Option, none, some, is_some, List, [], ◌∷◌, ◌++◌, DbResult, ok, failed,
  keep, ◌&&◌, if◌then◌else◌, str_eq,
}
use token_hub.Prelude.Int.{ℤ, leb_ℤ}
use token_hub.Prelude.Table.{row, insert_all}
use token_hub.Prelude.Page.{page}
use token_hub.Prelude.Sort.{sort_by}

pub record AuditLogRecord : Type 0 where
  pub id : ℕ
  pub actor_kind : String
  pub actor_id : Option ℕ
  pub action : String
  pub target_type : Option String
  pub target_id : Option ℕ
  pub detail : Option String
  pub source_ip : Option String
  pub created_at : ℤ

abbrev pub AuditLogs : Type 0
AuditLogs = List AuditLogRecord

abbrev pub log_row : ℕ → AuditLogs → Option AuditLogRecord
log_row id logs = row (λ r. r.id) id logs

-- A new random identifier is an argument.
unfoldable pub insert :
    (id : ℕ) (actor_kind : String) (actor_id : Option ℕ) (action : String)
    → (target_type : Option String) (target_id : Option ℕ) (detail source_ip : Option String)
      (now : ℤ)
    → AuditLogs
    → DbResult ℕ × AuditLogs
insert id actor_kind actor_id action target_type target_id detail source_ip now logs =
    if is_some (log_row id logs) then (failed, logs) else (
      ok id,
      logs
          ++ record {
            id = id;
            actor_kind = actor_kind;
            actor_id = actor_id;
            action = action;
            target_type = target_type;
            target_id = target_id;
            detail = detail;
            source_ip = source_ip;
            created_at = now;
          }
            ∷ [],
    )

-- An empty list is inserted without a transaction, to the same effect.
unfoldable pub batch_insert : List AuditLogRecord → AuditLogs → DbResult (Unit {0}) × AuditLogs
unfolding insert_all
batch_insert records logs = elim (insert_all (λ r. r.id) records logs) [
  | none ↦ (failed, logs)
  | some logs' ↦ (ok tt, logs')
]

-- A column's text is the given one, if one is given.
abbrev matches : Option String → String → Bool
matches none s = true
matches (some t) s = str_eq s t

unfoldable pub list :
    (actor_kind action : Option String) (limit offset : ℤ) → AuditLogs → List AuditLogRecord
list actor_kind action limit offset logs = page limit offset (
    sort_by (λ r s. leb_ℤ s.created_at r.created_at)
      (keep (λ r. matches actor_kind r.actor_kind && matches action r.action) logs))
