-- ===== src/Adapters/Mongo.antt =====
-- src/adapters/mongo.ts: `withLock` of `MongoStorage`. A lock is a document, which the database itself
-- removes when it has grown old.
use agent_diaries_core.Prelude.{ℕ, ◌++◌, Bool, true, false, Text, codes}
use agent_diaries_core.Shared.{Error, thrown}
use agent_diaries_core.Shared.Effect.{M, Result, ok, err}
use agent_diaries_core.Adapters.Table.{Outcome, inserted, conflict, refused, LockTable}
use agent_diaries_core.Adapters.Retry.{Run, with_lock}

unfoldable pub timeout_of : Text → Error
timeout_of key = thrown (codes "[MongoStorage] Lock timeout on key: " ++ key)

module _ (table : LockTable ℕ) (hash_string : Text → Text) where
  open table use {Store, insert, delete}

  unfoldable pub lock_id_of : Text → Text
  lock_id_of key = codes "lock:" ++ hash_string key

  unfoldable pub after_insert : Store → Outcome Store → Store × Result Bool
  after_insert s (inserted t) = (t, ok true)
  after_insert s conflict = (s, ok false)
  after_insert s (refused e) = (s, err e)

  unfoldable pub acquire_lock : Text → ℕ → M Store Bool
  unfolding after_insert
  acquire_lock lock_id now s = after_insert s (insert lock_id now s)

  -- An error is thrown in place of the result.
  unfoldable pub release_lock : Text → M Store (Unit {0})
  release_lock lock_id = delete lock_id (λ t. true)

  -- `ensureIndex` is given.
  unfoldable pub with_mongo_lock :
      {A : Type 0}
      → M Store (Unit {0})
      → Text
      → (ℕ → ℕ)
      → (ℕ → Store → Store)
      → M Store A
      → Store
      → Run Store A
  unfolding with_lock acquire_lock release_lock lock_id_of timeout_of
  with_mongo_lock ensure_index key time meanwhile fn s =
      with_lock (λ n. acquire_lock (lock_id_of key) (time n)) meanwhile (timeout_of key)
        ensure_index 150 fn (release_lock (lock_id_of key)) s
