-- ===== src/Adapters/Retry.antt =====
-- src/adapters: the loop in which `withLock` of each adapter tries to get its lock, and the function
-- that runs under it. What the others do between two tries, a try itself, the release and what comes
-- before the first try are given.
pub mod Ending
use Prim.Native.Nat.{◌^◌, min}
use agent_diaries_core.Prelude.{ℕ, zero, suc, ◌*◌, Bool, true, false, List, [], ◌∷◌}
use agent_diaries_core.Shared.{Error}
use agent_diaries_core.Shared.Effect.{M, Result, ok, err, return, catch}

-- The wait after a try, without the random part of less than 50 ms.
unfoldable pub backoff : ℕ → ℕ
backoff attempt = min (10 * 2 ^ attempt) 500

-- What is left after the loop, and its waits.
pub record Run (S A : Type 0) : Type 0 where
  pub store : S
  pub result : Result A
  pub waits : List ℕ

-- What a `finally` block leaves of the result: its error, if it throws one.
unfoldable pub after_finally : {A : Type 0} → Result A → Result (Unit {0}) → Result A
after_finally result (ok x) = result
after_finally result (err e) = err e

module _ {S : Type 0} where
  -- A try got the lock, or it waits and goes on, or the database failed.
  unfoldable pub after_try : ℕ → S × Result Bool → (S → Run S (Unit {0})) → Run S (Unit {0})
  after_try wait (t, ok true) more = record { store = t; result = ok tt; waits = [] }
  after_try wait (t, ok false) more = let r = more t in record r { waits = wait ∷ r.waits }
  after_try wait (t, err e) more = record { store = t; result = err e; waits = [] }

  unfoldable pub finish :
      {A : Type 0} → M S A → M S (Unit {0}) → S → List ℕ → Result (Unit {0}) → Run S A
  unfolding after_finally
  finish fn release t waits (err e) = record { store = t; result = err e; waits = waits }
  finish fn release t waits (ok x) =
      let (u, result) = fn t in
      let (v, released) = release u in
      record { store = v; result = after_finally result released; waits = waits }

  -- The release of Postgres and SQLite, which logs an error and goes on.
  abbrev pub logged : M S (Unit {0}) → M S (Unit {0})
  logged release = catch release (λ e. return tt)

module _ {S : Type 0} (acquire_lock : ℕ → M S Bool) (meanwhile : ℕ → S → S) (timeout : Error) where
  -- `while (!acquireLock())` from a given try on, with as many tries after it as are left.
  unfoldable pub loop : ℕ → ℕ → S → Run S (Unit {0})
  unfolding backoff after_try
  loop zero attempt s =
      after_try (backoff attempt) (acquire_lock attempt s)
        (λ t. record { store = meanwhile attempt t; result = err timeout; waits = [] })
  loop (suc left) attempt s =
      after_try (backoff attempt) (acquire_lock attempt s)
        (λ t. loop left (suc attempt) (meanwhile attempt t))

  -- The release is run whether the function returns or throws.
  unfoldable pub lock_and_run :
      {A : Type 0} → ℕ → M S A → M S (Unit {0}) → S × Result (Unit {0}) → Run S A
  unfolding loop finish
  lock_and_run limit fn release (s, err e) = record { store = s; result = err e; waits = [] }
  lock_and_run limit fn release (s, ok x) =
      let r = loop limit 0 s in finish fn release r.store r.waits r.result

  -- `ensureInitialized` or `ensureIndex` comes first, where there is one.
  unfoldable pub with_lock :
      {A : Type 0} → M S (Unit {0}) → ℕ → M S A → M S (Unit {0}) → S → Run S A
  unfolding lock_and_run
  with_lock prepare limit fn release s = lock_and_run limit fn release (prepare s)
