-- ===== src/Audit/Sink/Batching.antt =====
-- crates/audit/src/sink.rs: while nothing fails, the batches cannot be noticed.
use token_hub.Prelude.{
  ℕ, true, some, is_some, List, [], ◌∷◌, ◌++◌, length, leb, ◌≡◌, ◌∙◌, refl, ap, inl, inr, arith,
  All, Bool-cases,
}
use mathlib.Core.List.{append_assoc}
use token_hub.Prelude.Table.{row, insert_all}
use token_hub.Audit.Sink.{Faults}
use token_hub.Audit.Sink.Queue.{Queue, Arrival, flush, flush_cases, advance, drain, arrived}

module _ {ℓ} {V : Type ℓ} (key : V → ℕ) where
  -- An insertion of two lists that succeeds is one of the first and then one of the second.
  insert_all-split :
      (xs ys rows final : List V)
      → insert_all key (xs ++ ys) rows ≡ some final
      → (between : List V) × (insert_all key xs rows ≡ some between)
        × (insert_all key ys between ≡ some final)
  unfolding insert_all
  insert_all-split [] ys rows final e = (rows, refl, e)
  insert_all-split (x ∷ xs) ys rows final e = elim (Bool-cases (is_some (row key (key x) rows))) [
    | inl taken ↦ absurd (ground (arith, e))
    | inr free ↦ rw free (insert_all-split xs ys (rows ++ x ∷ []) final (rw free at e))
  ]

  -- What is still to be stored: the batch, and then the rest.
  abbrev Stores : List V → List V → Queue V → Type ℓ
  Stores rest final q = insert_all key (q.batch ++ rest) q.rows ≡ some final

  flush-Stores :
      (f : Faults) (rest final : List V) (q : Queue V)
      → f.database_up ≡ true
      → Stores rest final q
      → Stores rest final (flush key f q)
        × ((flush key f q).file ≡ q.file)
        × ((flush key f q).batch ≡ [])
  flush-Stores f rest final q up e =
      let (between, first, second) = insert_all-split q.batch rest q.rows final e in
      elim (flush_cases key f q) [
        | inl (empty, same) ↦ rw same (e, refl, empty)
        | inr full ↦ rw full (rw (up, first) (second, refl, refl))
      ]

  advance-Stores :
      (batch_size : ℕ) (a : Arrival V) (f : Faults) (rest : List (Arrival V × Faults))
      (final : List V) (q : Queue V)
      → f.database_up ≡ true
      → Stores (arrived key ((a, f) ∷ rest)) final q
      → Stores (arrived key rest) final (advance key batch_size a f q)
        × ((advance key batch_size a f q).file ≡ q.file)
  advance-Stores batch_size Arrival.passes f rest final q up e = (e, refl)
  advance-Stores batch_size Arrival.ticks f rest final q up e =
      let done = flush-Stores f (arrived key rest) final q up e in (done.0, done.1)
  advance-Stores batch_size (Arrival.arrives v) f rest final q up e =
      let pushed : Queue V = record q { batch = q.batch ++ v ∷ [] } in
      let kept : Stores (arrived key rest) final pushed =
        rw (append_assoc q.batch (v ∷ []) (arrived key rest)) e in
      let done = flush-Stores f (arrived key rest) final pushed up kept in
      elim (Bool-cases (leb batch_size (length pushed.batch))) [
        | inl full ↦ rw full (done.0, done.1)
        | inr room ↦ rw room (kept, refl)
      ]

  drained :
      (q : Queue V) (final file : List V)
      → q.batch ≡ []
      → q.rows ≡ final
      → q.file ≡ file
      → q ≡ record { batch = []; rows = final; file = file }
  drained q final file b r f = ground (arith, b, r, f)

  -- If the database answers at every event, and would take all that arrived, one after another, behind
  -- what it holds: then it holds just that in the end, and nothing was written to the file.
  pub drain-insert_all :
      (batch_size : ℕ) (events : List (Arrival V × Faults)) (last : Faults) (q : Queue V)
      (final : List V)
      → All (λ e. e.1.database_up ≡ true) events
      → last.database_up ≡ true
      → insert_all key (q.batch ++ arrived key events) q.rows ≡ some final
      → drain key batch_size events last q ≡ record { batch = []; rows = final; file = q.file }
  unfolding insert_all
  drain-insert_all batch_size [] last q final up end e =
      let (stores, file, empty) = flush-Stores last [] final q end e in
      let whole : some (flush key last q).rows ≡ some final = rw empty at stores in
      drained (flush key last q) final q.file empty (ground (arith, whole)) file
  drain-insert_all batch_size ((a, f) ∷ rest) last q final up end e =
      let (stores, file) = advance-Stores batch_size a f rest final q up.0 e in
      drain-insert_all batch_size rest last (advance key batch_size a f q) final up.1 end stores
      ∙ ap (λ file. record { batch = []; rows = final; file = file }) file
