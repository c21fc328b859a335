-- ===== src/Adapters/Table.antt =====
-- A table of locks with a primary key, as a database keeps it, by its statements.
use agent_diaries_core.Prelude.{ℕ, ◌≡◌, ◌⊎◌, Bool, Option, none, some, Text, if◌then◌else◌}
use agent_diaries_core.Shared.{Error}
use agent_diaries_core.Shared.Effect.{M, ok, err}

-- What an INSERT ends with: a key that is there already is a conflict.
pub data Outcome (S : Type 0) : Type 0 where
  inserted : S → Outcome S
  conflict : Outcome S
  refused : Error → Outcome S

module _ {R : Type 0} where
  -- A row after a DELETE or an UPDATE of the rows that meet a condition.
  abbrev pub kept : (R → Bool) → Option R → Option R
  kept p none = none
  kept p (some r) = if p r then none else some r

  abbrev pub updated : (R → Bool) → R → Option R → Option R × ℕ
  updated p r none = (none, 0)
  updated p r (some old) = if p old then (some r, 1) else (some old, 0)

pub record LockTable (R : Type 0) : Type 1 where
  pub Store : Type 0
  pub select : Text → Store → Option R
  pub insert : Text → R → Store → Outcome Store
  pub delete : Text → (R → Bool) → M Store (Unit {0})
  -- The table and the number of rows that were changed.
  pub update : Text → (R → Bool) → R → Store → Store × ℕ
  pub insert-inserted :
      (k : Text) (r : R) (s t : Store)
      → insert k r s ≡ inserted t
      → (select k s ≡ none) × (select k t ≡ some r)
  pub select-delete :
      (k : Text) (p : R → Bool) (s t : Store)
      → delete k p s ≡ (t, ok tt)
      → select k t ≡ kept p (select k s)
  -- After an error, as of a lost connection, the DELETE was run or not.
  pub select-delete_failed :
      (k : Text) (p : R → Bool) (s t : Store) (e : Error)
      → delete k p s ≡ (t, err e)
      → (select k t ≡ select k s) ⊎ (select k t ≡ kept p (select k s))
  pub select-update :
      (k : Text) (p : R → Bool) (r : R) (s : Store)
      → (select k (update k p r s).0, (update k p r s).1) ≡ updated p r (select k s)
