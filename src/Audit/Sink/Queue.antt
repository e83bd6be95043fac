-- ===== src/Audit/Sink/Queue.antt =====
-- crates/audit/src/sink.rs: one of the two batches by itself, with its table and its file.
use token_hub.Prelude.{
  ℕ, ◌+◌, ◌<◌, Bool, true, Option, none, some, is_some, List, [], ◌∷◌, ◌++◌, length, leb, ◌≡◌, ◌∙◌,
  ◌⊎◌, refl, ap, inl, inr, arith, All, Bool-cases, Option-cases, if◌then◌else◌,
}
use token_hub.Prelude.Table.{row, insert_all}
use token_hub.Audit.Sink.{Faults, write_fallback}

pub record Queue {ℓ} (V : Type ℓ) : Type ℓ where
  pub batch : List V
  pub rows : List V
  pub file : List V

pub data Arrival {ℓ} (V : Type ℓ) : Type ℓ where
  arrives : V → Arrival V
  ticks : Arrival V
  passes : Arrival V

-- How many elements pass a test.
abbrev pub count {ℓ} : {V : Type ℓ} → (V → Bool) → List V → ℕ
count p [] = 0
count p (v ∷ vs) = (if p v then 1 else 0) + count p vs

pub count-append {ℓ} :
    {V : Type ℓ} (p : V → Bool) (xs ys : List V) → count p (xs ++ ys) ≡ count p xs + count p ys
count-append p [] ys = omega arith
count-append p (x ∷ xs) ys = omega (arith, count-append p xs ys)

module _ {ℓ} {V : Type ℓ} (key : V → ℕ) where
  abbrev pub stored : Faults → Queue V → Option (List V)
  stored f q = if f.database_up then insert_all key q.batch q.rows else none

  abbrev pub flushed : Faults → Option (List V) → Queue V → Queue V
  flushed f (some rows) q = record { batch = []; rows = rows; file = q.file }
  flushed f none q = record { batch = []; rows = q.rows; file = write_fallback f q.batch q.file }

  abbrev pub flush : Faults → Queue V → Queue V
  flush f q = elim q.batch [ [] ↦ q | _ ∷ _ ↦ flushed f (stored f q) q ]

  abbrev pub advance : ℕ → Arrival V → Faults → Queue V → Queue V
  advance batch_size (arrives v) f q =
      let q' = record q { batch = q.batch ++ v ∷ [] } in
      if leb batch_size (length q'.batch) then flush f q' else q'
  advance batch_size ticks f q = flush f q
  advance batch_size passes f q = q

  abbrev pub drain : ℕ → List (Arrival V × Faults) → Faults → Queue V → Queue V
  drain batch_size [] last q = flush last q
  drain batch_size ((a, f) ∷ rest) last q = drain batch_size rest last (advance batch_size a f q)

  -- What arrived.
  abbrev pub arrived : List (Arrival V × Faults) → List V
  arrived [] = []
  arrived ((arrives v, f) ∷ rest) = v ∷ arrived rest
  arrived ((ticks, f) ∷ rest) = arrived rest
  arrived ((passes, f) ∷ rest) = arrived rest

  pub flush_cases :
      (f : Faults) (q : Queue V)
      → ((q.batch ≡ []) × (flush f q ≡ q)) ⊎ (flush f q ≡ flushed f (stored f q) q)
  flush_cases f q = by_batch q.batch refl
    where
      by_batch :
          (b : List V)
          → q.batch ≡ b
          → ((q.batch ≡ []) × (flush f q ≡ q)) ⊎ (flush f q ≡ flushed f (stored f q) q)
      by_batch [] e = inl (e, ground (arith, e))
      by_batch (v ∷ b) e = inr (ground (arith, e))

  flushed_empties : (f : Faults) (o : Option (List V)) (q : Queue V) → (flushed f o q).batch ≡ []
  flushed_empties f none q = refl
  flushed_empties f (some rows) q = refl

  module _ (p : V → Bool) where
    pub count-insert_all :
        (new rows after : List V)
        → insert_all key new rows ≡ some after
        → count p after ≡ count p rows + count p new
    unfolding insert_all
    count-insert_all [] rows after e = ground (arith, e)
    count-insert_all (v ∷ new) rows after e = elim (Bool-cases (is_some (row key (key v) rows))) [
      | inl taken ↦ absurd (ground (arith, e))
      | inr free ↦
          let rest = count-insert_all new (rows ++ v ∷ []) after (ground (arith, e)) in
          let split = count-append p rows (v ∷ []) in omega arith
    ]

    -- All that a queue holds, wherever.
    abbrev total : Queue V → ℕ
    total q = count p q.rows + count p q.file + count p q.batch

    flushed-total :
        (f : Faults) (q : Queue V)
        → f.file_writable ≡ true
        → total (flushed f (stored f q) q) ≡ total q
    flushed-total f q writable = elim (Option-cases (stored f q)) [
      | inl refused ↦
          let split = count-append p q.file q.batch in
          rw (refused, flushed) (rw writable (omega arith))
      | inr (rows, kept) ↦
          let new = count-insert_all q.batch q.rows rows (ground (arith, kept)) in
          rw (kept, flushed) (omega arith)
    ]

    flush-total : (f : Faults) (q : Queue V) → f.file_writable ≡ true → total (flush f q) ≡ total q
    flush-total f q writable = elim (flush_cases f q) [
      | inl (empty, same) ↦ ap total same
      | inr full ↦ ap total full ∙ flushed-total f q writable
    ]

    advance-total :
        (batch_size : ℕ) (a : Arrival V) (f : Faults) (q : Queue V)
        → f.file_writable ≡ true
        → total (advance batch_size a f q) ≡ total q + count p (arrived ((a, f) ∷ []))
    advance-total batch_size passes f q writable = omega arith
    advance-total batch_size ticks f q writable = omega (arith, flush-total f q writable)
    advance-total batch_size (arrives v) f q writable =
        let pushed : Queue V = record q { batch = q.batch ++ v ∷ [] } in
        let split = count-append p q.batch (v ∷ []) in
        let after = flush-total f pushed writable in
        elim (Bool-cases (leb batch_size (length pushed.batch))) [
          | inl full ↦ rw full (omega arith)
          | inr room ↦ rw room (omega arith)
        ]

    pub arrived_step :
        (a : Arrival V) (f : Faults) (rest : List (Arrival V × Faults))
        → count p (arrived ((a, f) ∷ rest))
          ≡ count p (arrived ((a, f) ∷ [])) + count p (arrived rest)
    arrived_step (arrives v) f rest = omega arith
    arrived_step ticks f rest = omega arith
    arrived_step passes f rest = omega arith

    drain-total :
        (batch_size : ℕ) (events : List (Arrival V × Faults)) (last : Faults) (q : Queue V)
        → All (λ e. e.1.file_writable ≡ true) events
        → last.file_writable ≡ true
        → total (drain batch_size events last q) ≡ total q + count p (arrived events)
    drain-total batch_size [] last q writable end = omega (arith, flush-total last q end)
    drain-total batch_size ((a, f) ∷ rest) last q writable end =
        let one = advance-total batch_size a f q writable.0 in
        let more = drain-total batch_size rest last (advance batch_size a f q) writable.1 end in
        let parts = arrived_step a f rest in omega arith

  -- The worker leaves nothing in its hands.
  flush_empties : (f : Faults) (q : Queue V) → (flush f q).batch ≡ []
  flush_empties f q = elim (flush_cases f q) [
    | inl (empty, same) ↦ ap (λ (r : Queue V). r.batch) same ∙ empty
    | inr full ↦ ap (λ (r : Queue V). r.batch) full ∙ flushed_empties f (stored f q) q
  ]

  pub drain_empties :
      (batch_size : ℕ) (events : List (Arrival V × Faults)) (last : Faults) (q : Queue V)
      → (drain batch_size events last q).batch ≡ []
  drain_empties batch_size [] last q = flush_empties last q
  drain_empties batch_size ((a, f) ∷ rest) last q =
      drain_empties batch_size rest last (advance batch_size a f q)

  -- Each element that arrives, and each that was there, ends once: in the table or in the file.
  pub drain-count :
      (p : V → Bool) (batch_size : ℕ) (events : List (Arrival V × Faults)) (last : Faults)
      (q : Queue V)
      → All (λ e. e.1.file_writable ≡ true) events
      → last.file_writable ≡ true
      → let after = drain batch_size events last q in
        count p after.rows + count p after.file
        ≡ count p q.rows + count p q.file + count p q.batch + count p (arrived events)
  drain-count p batch_size events last q writable end = omega (
    arith,
    drain-total p batch_size events last q writable end,
    ap (count p) (drain_empties batch_size events last q),
  )

  -- Between two events a batch is shorter than its limit.
  pub advance_bound :
      (batch_size : ℕ) (a : Arrival V) (f : Faults) (q : Queue V)
      → length q.batch < batch_size
      → length (advance batch_size a f q).batch < batch_size
  advance_bound batch_size passes f q short = short
  advance_bound batch_size ticks f q short = omega (arith, ap length (flush_empties f q))
  advance_bound batch_size (arrives v) f q short =
      let pushed : Queue V = record q { batch = q.batch ++ v ∷ [] } in
      let empty = ap length (flush_empties f pushed) in
      elim (Bool-cases (leb batch_size (length pushed.batch))) [
        | inl full ↦ rw full (omega arith)
        | inr room ↦ rw room (ground arith)
      ]
