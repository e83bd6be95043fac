-- ===== src/Audit/Sink/Projection.antt =====
-- crates/audit/src/sink.rs: the worker is its two queues, side by side.
use token_hub.Prelude.{
  ℕ, List, [], ◌∷◌, ◌++◌, length, leb, ◌≡◌, ◌∙◌, refl, ap, inl, inr, arith, Bool-cases,
}
use token_hub.Domain.Usage.{UsageLog}
use token_hub.Storage.Usage as UsageLogRepo
use token_hub.Storage.AuditLog as AuditLogRepo
use token_hub.Storage.AuditLog.{AuditLogRecord}
use token_hub.Audit.Sink.{
  AuditCommand, Faults, Worker, Event, flush_usage, flush_audit, step, run_worker,
}
use token_hub.Audit.Sink.Queue.{Queue, Arrival, flush, advance, drain}

abbrev pub usage_key : UsageLog → ℕ
usage_key e = e.id

abbrev pub audit_key : AuditLogRecord → ℕ
audit_key r = r.id

abbrev pub usage_queue : Worker → Queue UsageLog
usage_queue w = record { batch = w.usage_batch; rows = w.usage.logs; file = w.usage_file }

abbrev pub audit_queue : Worker → Queue AuditLogRecord
audit_queue w = record { batch = w.audit_batch; rows = w.audits; file = w.audit_file }

abbrev pub usage_arrival : Event → Arrival UsageLog
usage_arrival (Event.recv (AuditCommand.usage_log e)) = Arrival.arrives e
usage_arrival (Event.recv (AuditCommand.audit_log r)) = Arrival.passes
usage_arrival Event.tick = Arrival.ticks

abbrev pub audit_arrival : Event → Arrival AuditLogRecord
audit_arrival (Event.recv (AuditCommand.usage_log e)) = Arrival.passes
audit_arrival (Event.recv (AuditCommand.audit_log r)) = Arrival.arrives r
audit_arrival Event.tick = Arrival.ticks

flush_usage_usage :
    (f : Faults) (w : Worker) → usage_queue (flush_usage f w) ≡ flush usage_key f (usage_queue w)
unfolding flush_usage UsageLogRepo.batch_insert
flush_usage_usage f w = by_batch w.usage_batch refl
  where
    by_batch :
        (b : List UsageLog)
        → w.usage_batch ≡ b
        → usage_queue (flush_usage f w) ≡ flush usage_key f (usage_queue w)
    by_batch [] e = ground (arith, e)
    by_batch (x ∷ b) e = ground (arith, e)

flush_usage_audit : (f : Faults) (w : Worker) → audit_queue (flush_usage f w) ≡ audit_queue w
unfolding flush_usage UsageLogRepo.batch_insert
flush_usage_audit f w = ground arith

flush_audit_audit :
    (f : Faults) (w : Worker) → audit_queue (flush_audit f w) ≡ flush audit_key f (audit_queue w)
unfolding flush_audit AuditLogRepo.batch_insert
flush_audit_audit f w = by_batch w.audit_batch refl
  where
    by_batch :
        (b : List AuditLogRecord)
        → w.audit_batch ≡ b
        → audit_queue (flush_audit f w) ≡ flush audit_key f (audit_queue w)
    by_batch [] e = ground (arith, e)
    by_batch (x ∷ b) e = ground (arith, e)

flush_audit_usage : (f : Faults) (w : Worker) → usage_queue (flush_audit f w) ≡ usage_queue w
unfolding flush_audit AuditLogRepo.batch_insert
flush_audit_usage f w = ground arith

-- The summaries are no concern of the worker.
abbrev pub Summaries : Worker → Worker → Type 0
Summaries w v = (w.usage.accounts ≡ v.usage.accounts) × (w.usage.providers ≡ v.usage.providers)

flush_usage-Summaries : (f : Faults) (w : Worker) → Summaries (flush_usage f w) w
unfolding flush_usage UsageLogRepo.batch_insert
flush_usage-Summaries f w = ground arith

flush_audit-Summaries : (f : Faults) (w : Worker) → Summaries (flush_audit f w) w
unfolding flush_audit AuditLogRepo.batch_insert
flush_audit-Summaries f w = ground arith

flush_both_usage :
    (f : Faults) (w : Worker)
    → usage_queue (flush_audit f (flush_usage f w)) ≡ flush usage_key f (usage_queue w)
flush_both_usage f w = flush_audit_usage f (flush_usage f w) ∙ flush_usage_usage f w

flush_both_audit :
    (f : Faults) (w : Worker)
    → audit_queue (flush_audit f (flush_usage f w)) ≡ flush audit_key f (audit_queue w)
flush_both_audit f w =
    flush_audit_audit f (flush_usage f w) ∙ ap (flush audit_key f) (flush_usage_audit f w)

abbrev pub Events : Type 0
Events = List (Event × Faults)

abbrev pub usage_arrivals : Events → List (Arrival UsageLog × Faults)
usage_arrivals [] = []
usage_arrivals ((e, f) ∷ events) = (usage_arrival e, f) ∷ usage_arrivals events

abbrev pub audit_arrivals : Events → List (Arrival AuditLogRecord × Faults)
audit_arrivals [] = []
audit_arrivals ((e, f) ∷ events) = (audit_arrival e, f) ∷ audit_arrivals events

module _ (batch_size : ℕ) where
  pub step_usage :
      (e : Event) (f : Faults) (w : Worker)
      → usage_queue (step batch_size e f w)
        ≡ advance usage_key batch_size (usage_arrival e) f (usage_queue w)
  unfolding step
  step_usage (Event.recv (AuditCommand.usage_log e)) f w =
      elim (Bool-cases (leb batch_size (length (w.usage_batch ++ e ∷ [])))) [
        | inl full ↦
            rw full (flush_usage_usage f (record w { usage_batch = w.usage_batch ++ e ∷ [] }))
        | inr room ↦ rw room refl
      ]
  step_usage (Event.recv (AuditCommand.audit_log r)) f w =
      elim (Bool-cases (leb batch_size (length (w.audit_batch ++ r ∷ [])))) [
        | inl full ↦
            rw full (flush_audit_usage f (record w { audit_batch = w.audit_batch ++ r ∷ [] }))
        | inr room ↦ rw room refl
      ]
  step_usage Event.tick f w = flush_both_usage f w

  pub step_audit :
      (e : Event) (f : Faults) (w : Worker)
      → audit_queue (step batch_size e f w)
        ≡ advance audit_key batch_size (audit_arrival e) f (audit_queue w)
  unfolding step
  step_audit (Event.recv (AuditCommand.usage_log e)) f w =
      elim (Bool-cases (leb batch_size (length (w.usage_batch ++ e ∷ [])))) [
        | inl full ↦
            rw full (flush_usage_audit f (record w { usage_batch = w.usage_batch ++ e ∷ [] }))
        | inr room ↦ rw room refl
      ]
  step_audit (Event.recv (AuditCommand.audit_log r)) f w =
      elim (Bool-cases (leb batch_size (length (w.audit_batch ++ r ∷ [])))) [
        | inl full ↦
            rw full (flush_audit_audit f (record w { audit_batch = w.audit_batch ++ r ∷ [] }))
        | inr room ↦ rw room refl
      ]
  step_audit Event.tick f w = flush_both_audit f w

  step-Summaries : (e : Event) (f : Faults) (w : Worker) → Summaries (step batch_size e f w) w
  unfolding step
  step-Summaries (Event.recv (AuditCommand.usage_log e)) f w =
      elim (Bool-cases (leb batch_size (length (w.usage_batch ++ e ∷ [])))) [
        | inl full ↦
            rw full (flush_usage-Summaries f (record w { usage_batch = w.usage_batch ++ e ∷ [] }))
        | inr room ↦ rw room (refl, refl)
      ]
  step-Summaries (Event.recv (AuditCommand.audit_log r)) f w =
      elim (Bool-cases (leb batch_size (length (w.audit_batch ++ r ∷ [])))) [
        | inl full ↦
            rw full (flush_audit-Summaries f (record w { audit_batch = w.audit_batch ++ r ∷ [] }))
        | inr room ↦ rw room (refl, refl)
      ]
  step-Summaries Event.tick f w =
      let a = flush_audit-Summaries f (flush_usage f w) in
      let u = flush_usage-Summaries f w in (a.0 ∙ u.0, a.1 ∙ u.1)

  pub run_usage :
      (events : Events) (last : Faults) (w : Worker)
      → usage_queue (run_worker batch_size events last w)
        ≡ drain usage_key batch_size (usage_arrivals events) last (usage_queue w)
  unfolding run_worker
  run_usage [] last w = flush_both_usage last w
  run_usage ((e, f) ∷ events) last w =
      run_usage events last (step batch_size e f w)
      ∙ ap (drain usage_key batch_size (usage_arrivals events) last) (step_usage e f w)

  pub run_audit :
      (events : Events) (last : Faults) (w : Worker)
      → audit_queue (run_worker batch_size events last w)
        ≡ drain audit_key batch_size (audit_arrivals events) last (audit_queue w)
  unfolding run_worker
  run_audit [] last w = flush_both_audit last w
  run_audit ((e, f) ∷ events) last w =
      run_audit events last (step batch_size e f w)
      ∙ ap (drain audit_key batch_size (audit_arrivals events) last) (step_audit e f w)

  pub run-Summaries :
      (events : Events) (last : Faults) (w : Worker)
      → Summaries (run_worker batch_size events last w) w
  unfolding run_worker
  run-Summaries [] last w =
      let a = flush_audit-Summaries last (flush_usage last w) in
      let u = flush_usage-Summaries last w in (a.0 ∙ u.0, a.1 ∙ u.1)
  run-Summaries ((e, f) ∷ events) last w =
      let r = run-Summaries events last (step batch_size e f w) in
      let s = step-Summaries e f w in (r.0 ∙ s.0, r.1 ∙ s.1)
