-- ===== src/Table.antt =====
-- A database table: its rows in an order that nothing relies on, and the statements by a text
-- column, which is the primary key or a column with a unique index (src/document_core/store.py).
pub mod Reads
pub mod Unique
use document_feeder.Prelude.{
  String, Bool, not, Option, List, [], ◌∷◌, ◌++◌, ◌==◌, ◌≡◌, false, find_first, exists, select,
  update_rows,
}

module _ {ℓ} {A : Type ℓ} (key : A → String) where
  -- `session.get(Row, k)`, or `select(Row).where(Row.column == k)`
  abbrev pub lookup : String → List A → Option A
  lookup k = find_first (λ r. key r == k)

  abbrev pub has : String → List A → Bool
  has k = exists (λ r. key r == k)

  -- the row's columns are written
  abbrev pub modify : String → (A → A) → List A → List A
  modify k = update_rows (λ r. key r == k)

  -- `session.delete(row)`, or `delete(Row).where(Row.column == k)`
  abbrev pub remove : String → List A → List A
  remove k = select (λ r. not (key r == k))

  -- `session.add(row)`
  abbrev pub add : A → List A → List A
  add r t = t ++ r ∷ []

  -- no two rows have the same value in the column
  abbrev pub IsUnique : List A → Type 0
  IsUnique [] = Unit
  IsUnique (r ∷ t) = (has (key r) t ≡ false) × IsUnique t
