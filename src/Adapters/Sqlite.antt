-- ===== src/Adapters/Sqlite.antt =====
-- src/adapters/sqlite.ts: `withLock` of `SqliteStorage`, whose row is the time of the lock. The
-- statements of a try run without a break, as the driver is synchronous.
use agent_diaries_core.Prelude.{
  ℕ, ◌+◌, ◌++◌, Bool, true, false, Option, none, some, Text, codes, ltb, ◌==◌, if◌then◌else◌,
}
use agent_diaries_core.Shared.{Error, thrown}
use agent_diaries_core.Shared.Effect.{M, Result, ok, err, return}
use agent_diaries_core.Adapters.Table.{Outcome, inserted, conflict, refused, LockTable}
use agent_diaries_core.Adapters.Retry.{Run, logged, with_lock}

abbrev pub lock_ttl_ms : ℕ
lock_ttl_ms = 10000

unfoldable pub lock_key_of : Text → Text
lock_key_of key = codes "lock:" ++ key

unfoldable pub timeout_of : Text → Error
timeout_of key = thrown (codes "[SqliteStorage] Lock timeout on key: " ++ key)

module _ (table : LockTable ℕ) where
  open table use {Store, select, insert, delete}

  -- The transaction that replaces an expired lock, and that an error of either statement rolls back.
  unfoldable pub after_cleanup : Store → Outcome Store → Store × Result Bool
  after_cleanup s (inserted t) = (t, ok true)
  after_cleanup s conflict = (s, ok false)
  after_cleanup s (refused e) = (s, ok false)

  unfoldable pub replace : Text → ℕ → Store → Store × Result (Unit {0}) → Store × Result Bool
  unfolding after_cleanup
  replace lock_key now s (t, ok x) = after_cleanup s (insert lock_key now t)
  replace lock_key now s (t, err e) = (s, ok false)

  unfoldable pub take_over : Text → ℕ → Store → Option ℕ → Store × Result Bool
  unfolding replace
  take_over lock_key now s none = (s, ok false)
  take_over lock_key now s (some locked_at) =
      if ltb (locked_at + lock_ttl_ms) now
      then replace lock_key now s (delete lock_key (λ t. t == locked_at) s)
      else (s, ok false)

  unfoldable pub after_insert : Text → ℕ → Store → Outcome Store → Store × Result Bool
  unfolding take_over
  after_insert lock_key now s (inserted t) = (t, ok true)
  after_insert lock_key now s conflict = take_over lock_key now s (select lock_key s)
  after_insert lock_key now s (refused e) = (s, err e)

  unfoldable pub acquire_lock : Text → ℕ → M Store Bool
  unfolding after_insert
  acquire_lock lock_key now s = after_insert lock_key now s (insert lock_key now s)

  -- The row goes, whoever has written it; an error is logged.
  unfoldable pub release_lock : Text → M Store (Unit {0})
  release_lock lock_key = logged (delete lock_key (λ t. true))

  -- With the readings of the clock, and with what other processes do during the waits.
  unfoldable pub with_sqlite_lock :
      {A : Type 0} → Text → (ℕ → ℕ) → (ℕ → Store → Store) → M Store A → Store → Run Store A
  unfolding with_lock acquire_lock release_lock lock_key_of timeout_of
  with_sqlite_lock key time meanwhile fn s =
      with_lock (λ n. acquire_lock (lock_key_of key) (time n)) meanwhile (timeout_of key)
        (return tt) 60 fn (release_lock (lock_key_of key)) s
