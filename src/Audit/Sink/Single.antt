-- ===== src/Audit/Sink/Single.antt =====
-- crates/audit/src/sink.rs: no record is written twice, and none stays with the worker, whatever fails.
use token_hub.Prelude.{ℕ, ◌+◌, Bool}
use token_hub.Audit.Sink.Queue.{Queue, count}

module _ {ℓ} {V : Type ℓ} (key : V → ℕ) (p : V → Bool) where
  -- All that a queue holds, wherever.
  abbrev total : Queue V → ℕ
  total q = count p q.rows + count p q.file + count p q.batch
