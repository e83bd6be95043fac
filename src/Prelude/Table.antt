-- ===== src/Prelude/Table.antt =====
-- A table of the database: its rows, with the statements that the repositories run. A primary key
-- is a text that is only compared, and stands here as a number.
use Prim.Native.Nat.{ℕ, ◌+◌}
use mathlib.Core.Bool.{Bool, false}
use mathlib.Core.Path.{◌≡◌, refl, ap}
use mathlib.Core.Logic.{inl, inr}
use mathlib.Core.Option.{Option, none, some}
use mathlib.Core.List.{List, [], ◌∷◌, ◌++◌}
use native.Mathlib.Omega.{arith}
use token_hub.Prelude.Tests.{◌==◌, if◌then◌else◌, map_option, unwrap_or, is_some, Bool-cases}

module _ {ℓ} {V : Type ℓ} where
  -- `SELECT … WHERE p`, of which the caller takes the first row.
  abbrev pub find : (V → Bool) → List V → Option V
  find p [] = none
  find p (r ∷ rows) = if p r then some r else find p rows

  -- `UPDATE … SET f WHERE p`, and its `rows_affected`.
  abbrev pub update_where : (V → Bool) → (V → V) → List V → List V
  update_where p f [] = []
  update_where p f (r ∷ rows) = (if p r then f r else r) ∷ update_where p f rows

  abbrev pub rows_affected : (V → Bool) → List V → ℕ
  rows_affected p [] = 0
  rows_affected p (r ∷ rows) = if p r then 1 + rows_affected p rows else rows_affected p rows

  -- `DELETE … WHERE p`.
  abbrev pub delete_where : (V → Bool) → List V → List V
  delete_where p [] = []
  delete_where p (r ∷ rows) = if p r then delete_where p rows else r ∷ delete_where p rows

module _ {ℓ} {V : Type ℓ} (key : V → ℕ) where
  -- The row with a key.
  abbrev pub row : ℕ → List V → Option V
  row k = find (λ r. key r == k)

  -- The key is the table's primary key.
  abbrev pub Unique : List V → Type ℓ
  Unique [] = Unit
  Unique (r ∷ rows) = (row (key r) rows ≡ none) × Unique rows

  abbrev pub KeepsKey : (V → V) → Type ℓ
  KeepsKey f = (r : V) → key (f r) ≡ key r

  pub row-update_where :
      (p : V → Bool) (f : V → V)
      → KeepsKey f
      → (k : ℕ) (rows : List V)
      → row k (update_where p f rows) ≡ map_option (λ r. if p r then f r else r) (row k rows)
  row-update_where p f kept k [] = refl
  row-update_where p f kept k (r ∷ rows) = ground (arith, kept r, row-update_where p f kept k rows)

  pub update_where-Unique :
      (p : V → Bool) (f : V → V)
      → KeepsKey f
      → (rows : List V) → Unique rows
      → Unique (update_where p f rows)
  update_where-Unique p f kept [] u = tt
  update_where-Unique p f kept (r ∷ rows) u =
      ground (
        arith,
        kept r,
        row-update_where p f kept (key r) rows,
        update_where-Unique p f kept rows u.1,
      )

  pub rows_affected_key :
      (k : ℕ) (q : V → Bool) (rows : List V)
      → Unique rows
      → rows_affected (λ r. if key r == k then q r else false) rows
        ≡ unwrap_or (map_option (λ r. if q r then 1 else 0) (row k rows)) 0
  rows_affected_key k q [] u = refl
  rows_affected_key k q (r ∷ rows) u = ground (arith, rows_affected_key k q rows u.1)

  pub row-insert :
      (k : ℕ) (r : V) (rows : List V)
      → row (key r) rows ≡ none
      → row k (rows ++ r ∷ []) ≡ (if key r == k then some r else row k rows)
  row-insert k r [] new = refl
  row-insert k r (s ∷ rows) new = ground (arith, row-insert k r rows)

  pub insert-Unique :
      (r : V) (rows : List V) → row (key r) rows ≡ none → Unique rows → Unique (rows ++ r ∷ [])
  insert-Unique r [] new u = (refl, tt)
  insert-Unique r (s ∷ rows) new u =
      ground (arith, row-insert (key s) r rows, insert-Unique r rows, u)

  pub key-row : (k : ℕ) (rows : List V) (r : V) → row k rows ≡ some r → key r ≡ k
  key-row k [] r e = cc
  key-row k (s ∷ rows) r e = ground (arith, key-row k rows r)

-- `INSERT` for each of some rows in one transaction: all of them or, where a key is taken, none.
unfoldable pub insert_all {ℓ} : {V : Type ℓ} → (V → ℕ) → List V → List V → Option (List V)
insert_all key [] rows = some rows
insert_all key (v ∷ new) rows =
    let rest = insert_all key new (rows ++ v ∷ []) in
    if is_some (row key (key v) rows) then none else rest

module _ {ℓ} {V : Type ℓ} (p : V → Bool) where
  -- A statement that affects no row changes nothing.
  pub update_where_none :
      (f : V → V) (rows : List V) → rows_affected p rows ≡ 0 → update_where p f rows ≡ rows
  update_where_none f [] none_hit = refl
  update_where_none f (r ∷ rows) none_hit = elim (Bool-cases (p r)) [
    | inl hit ↦ absurd (ground (arith, hit))
    | inr miss ↦ rw miss (ap (λ rest. r ∷ rest) (update_where_none f rows (ground arith)))
  ]

  pub delete_where_none : (rows : List V) → rows_affected p rows ≡ 0 → delete_where p rows ≡ rows
  delete_where_none [] none_hit = refl
  delete_where_none (r ∷ rows) none_hit = elim (Bool-cases (p r)) [
    | inl hit ↦ absurd (ground (arith, hit))
    | inr miss ↦ rw miss (ap (λ rest. r ∷ rest) (delete_where_none rows (ground arith)))
  ]

pub rows_affected-row {ℓ} :
    {V : Type ℓ} (key : V → ℕ) (k : ℕ) (rows : List V)
    → row key k rows ≡ none
    → rows_affected (λ r. key r == k) rows ≡ 0
rows_affected-row key k [] missing = refl
rows_affected-row key k (r ∷ rows) missing = elim (Bool-cases (key r == k)) [
  | inl hit ↦ absurd (ground (arith, hit))
  | inr miss ↦ rw miss (rows_affected-row key k rows (ground arith))
]
