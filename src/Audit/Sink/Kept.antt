-- ===== src/Audit/Sink/Kept.antt =====
-- crates/audit/src/sink.rs: what becomes of the records that are sent to the worker.
use token_hub.Prelude.{ℕ, ◌+◌, ◌<◌, Bool, true, List, [], ◌∷◌, length, ◌≡◌, ◌∙◌, refl, ap, All}
use token_hub.Domain.Usage.{UsageLog}
use token_hub.Storage.AuditLog.{AuditLogRecord}
use token_hub.Audit.Sink.{AuditCommand, Faults, Worker, Event, step, run_worker}
use token_hub.Audit.Sink.Queue.{Queue, count, arrived, drain-count, drain_empties, advance_bound}
use token_hub.Audit.Sink.Projection.{
  Events, usage_key, audit_key, usage_queue, audit_queue, usage_arrival, audit_arrival,
  usage_arrivals, audit_arrivals, step_usage, step_audit, run_usage, run_audit,
}

-- The records of each kind that are sent, in their order.
abbrev pub sent_usage : Events → List UsageLog
sent_usage [] = []
sent_usage ((Event.recv (AuditCommand.usage_log e), f) ∷ events) = e ∷ sent_usage events
sent_usage ((Event.recv (AuditCommand.audit_log r), f) ∷ events) = sent_usage events
sent_usage ((Event.tick, f) ∷ events) = sent_usage events

abbrev pub sent_audit : Events → List AuditLogRecord
sent_audit [] = []
sent_audit ((Event.recv (AuditCommand.usage_log e), f) ∷ events) = sent_audit events
sent_audit ((Event.recv (AuditCommand.audit_log r), f) ∷ events) = r ∷ sent_audit events
sent_audit ((Event.tick, f) ∷ events) = sent_audit events

pub arrived-usage :
    (events : Events) → arrived usage_key (usage_arrivals events) ≡ sent_usage events
arrived-usage [] = refl
arrived-usage ((Event.recv (AuditCommand.usage_log e), f) ∷ events) =
    ap (λ es. e ∷ es) (arrived-usage events)
arrived-usage ((Event.recv (AuditCommand.audit_log r), f) ∷ events) = arrived-usage events
arrived-usage ((Event.tick, f) ∷ events) = arrived-usage events

pub arrived-audit :
    (events : Events) → arrived audit_key (audit_arrivals events) ≡ sent_audit events
arrived-audit [] = refl
arrived-audit ((Event.recv (AuditCommand.usage_log e), f) ∷ events) = arrived-audit events
arrived-audit ((Event.recv (AuditCommand.audit_log r), f) ∷ events) =
    ap (λ rs. r ∷ rs) (arrived-audit events)
arrived-audit ((Event.tick, f) ∷ events) = arrived-audit events

-- What holds of the faults at every event.
abbrev pub Always : (Faults → Bool) → Events → Type 0
Always test events = All (λ e. test e.1 ≡ true) events

pub Always-usage :
    (test : Faults → Bool) (events : Events)
    → Always test events
    → All (λ e. test e.1 ≡ true) (usage_arrivals events)
Always-usage test [] h = tt
Always-usage test ((e, f) ∷ events) h = (h.0, Always-usage test events h.1)

pub Always-audit :
    (test : Faults → Bool) (events : Events)
    → Always test events
    → All (λ e. test e.1 ≡ true) (audit_arrivals events)
Always-audit test [] h = tt
Always-audit test ((e, f) ∷ events) h = (h.0, Always-audit test events h.1)

abbrev pub writable : Faults → Bool
writable f = f.file_writable

abbrev pub up : Faults → Bool
up f = f.database_up

-- If the files can be written at every event and at the end, whatever the database does: when the
-- channel is closed and the worker has ended, nothing is left in its hands, and each record that was
-- sent, and each that was there before, stands exactly once in its table or its file: of every kind of
-- record there are as many as before and sent together.
pub run_worker_keeps :
    (batch_size : ℕ) (events : Events) (last : Faults) (w : Worker)
    → Always writable events
    → writable last ≡ true
    → let after = run_worker batch_size events last w in
      (after.usage_batch ≡ [])
      × (after.audit_batch ≡ [])
      × ((p : UsageLog → Bool)
          → count p after.usage.logs + count p after.usage_file
            ≡ count p w.usage.logs
              + count p w.usage_file
              + count p w.usage_batch
              + count p (sent_usage events))
      × ((p : AuditLogRecord → Bool)
          → count p after.audits + count p after.audit_file
            ≡ count p w.audits
              + count p w.audit_file
              + count p w.audit_batch
              + count p (sent_audit events))
run_worker_keeps batch_size events last w kept end =
    let usage = run_usage batch_size events last w in
    let audit = run_audit batch_size events last w in
    (
      ap (λ (q : Queue UsageLog). q.batch) usage
          ∙ drain_empties usage_key batch_size (usage_arrivals events) last (usage_queue w),
      ap (λ (q : Queue AuditLogRecord). q.batch) audit
          ∙ drain_empties audit_key batch_size (audit_arrivals events) last (audit_queue w),
      (λ p.
          ap (λ (q : Queue UsageLog). count p q.rows + count p q.file) usage
          ∙ drain-count usage_key p batch_size (usage_arrivals events) last (usage_queue w)
              (Always-usage writable events kept) end
          ∙ ap
              (λ (sent : List UsageLog).
                count p w.usage.logs + count p w.usage_file + count p w.usage_batch + count p sent)
              (arrived-usage events)),
      (λ p.
          ap (λ (q : Queue AuditLogRecord). count p q.rows + count p q.file) audit
          ∙ drain-count audit_key p batch_size (audit_arrivals events) last (audit_queue w)
              (Always-audit writable events kept) end
          ∙ ap
              (λ (sent : List AuditLogRecord).
                count p w.audits + count p w.audit_file + count p w.audit_batch + count p sent)
              (arrived-audit events)),
    )

-- Between two events each batch is shorter than its limit.
pub step_bound :
    (batch_size : ℕ) (e : Event) (f : Faults) (w : Worker)
    → length w.usage_batch < batch_size
    → length w.audit_batch < batch_size
    → (length (step batch_size e f w).usage_batch < batch_size)
      × (length (step batch_size e f w).audit_batch < batch_size)
step_bound batch_size e f w usage audit =
    let u = ap (λ (q : Queue UsageLog). length q.batch) (step_usage batch_size e f w) in
    let a = ap (λ (q : Queue AuditLogRecord). length q.batch) (step_audit batch_size e f w) in
    rw u (
      rw a (
        advance_bound usage_key batch_size (usage_arrival e) f (usage_queue w) usage,
        advance_bound audit_key batch_size (audit_arrival e) f (audit_queue w) audit,
      ))
