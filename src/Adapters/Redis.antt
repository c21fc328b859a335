-- ===== src/Adapters/Redis.antt =====
-- src/adapters/redis.ts: `withLock` of `RedisStorage`. `SET NX` inserts the value of the caller under a
-- key, which the server itself removes after the given time.
use agent_diaries_core.Prelude.{ℕ, ◌++◌, ite, Bool, true, false, Text, Text-discrete, codes}
use agent_diaries_core.Shared.{Error, thrown}
use agent_diaries_core.Shared.Effect.{M, Result, ok, err, return}
use agent_diaries_core.Adapters.Table.{Outcome, inserted, conflict, refused, LockTable}
use agent_diaries_core.Adapters.Retry.{Run, with_lock}

unfoldable pub get_key : Text → Text → Text
get_key prefix key = prefix ++ key

unfoldable pub lock_key_of : Text → Text → Text
unfolding get_key
lock_key_of prefix key = get_key prefix key ++ codes ":lock"

unfoldable pub timeout_of : Text → Error
timeout_of key = thrown (codes "[RedisStorage] Lock timeout on key: " ++ key)

-- The value under the key, and the time after which the server removes it.
pub record Entry : Type 0 where
  pub lock_value : Text
  pub expires_at : ℕ

module _ (server : LockTable Entry) where
  open server use {Store, insert, delete}

  -- `result === "OK"`
  unfoldable pub after_set : Store → Outcome Store → Store × Result Bool
  after_set s (inserted t) = (t, ok true)
  after_set s conflict = (s, ok false)
  after_set s (refused e) = (s, err e)

  unfoldable pub acquire_lock : Text → Text → ℕ → M Store Bool
  unfolding after_set
  acquire_lock lock_key lock_value expires_at s =
      after_set s (insert lock_key (record { lock_value = lock_value; expires_at = expires_at }) s)

  -- The script that compares the value before it deletes the key.
  unfoldable pub release_lock : Text → Text → M Store (Unit {0})
  release_lock lock_key lock_value =
      delete lock_key (λ e. ite (Text-discrete e.lock_value lock_value) true false)

  unfoldable pub with_redis_lock :
      {A : Type 0}
      → Text
      → Text
      → Text
      → (ℕ → ℕ)
      → (ℕ → Store → Store)
      → M Store A
      → Store
      → Run Store A
  unfolding with_lock acquire_lock release_lock lock_key_of timeout_of
  with_redis_lock prefix key lock_value expiry meanwhile fn s =
      with_lock (λ n. acquire_lock (lock_key_of prefix key) lock_value (expiry n)) meanwhile
        (timeout_of key) (return tt) 60 fn (release_lock (lock_key_of prefix key) lock_value) s
