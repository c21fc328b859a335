-- ===== src/Memory/Mutex.antt =====
-- src/memory/MemoryProviders.ts: `MemoryLockProvider.withLock`, the mutex of a key. Each call joins
-- a chain of promises: it waits for the promise of the call before it, which is resolved when
-- every earlier call of the key has released its hold.
pub mod Fairness
pub mod Progress
use agent_diaries_core.Prelude.{
  ◌≡◌, ite, Bool, true, false, ◌&&◌, List, [], ◌∷◌, ◌++◌, Text, Text-discrete,
}

-- Before `await prev` is over, inside `fn`, and after the `finally`.
pub data Phase : Type 0 where
  waiting running released : Phase

unfoldable pub Phase-discrete : Discrete Phase
Phase-discrete = hlevel

-- A call of `withLock`, with its key.
pub record Call : Type 0 where
  pub key : Text
  pub phase : Phase

-- The calls in the order in which they were made.
abbrev pub Queue : Type 0
Queue = List Call

-- The hold is appended to the key's chain.
unfoldable pub join : Text → Queue → Queue
join key q = q ++ record { key = key; phase = waiting } ∷ []

-- Is the chain of the key, up to here, resolved?
unfoldable pub is_resolved : Text → Queue → Bool
unfolding Phase-discrete
is_resolved key [] = true
is_resolved key (c ∷ cs) =
    ite (Text-discrete c.key key) (ite (Phase-discrete c.phase released) true false) true
    && is_resolved key cs

-- What the event loop does with the calls: a new call joins, a call whose turn has come starts
-- `fn`, and a call whose `fn` has returned or thrown releases its hold.
pub data Step : Queue → Queue → Type 0 where
  joins : (key : Text) (q : Queue) → Step q (join key q)
  starts :
      (key : Text) (before after : Queue)
      → is_resolved key before ≡ true
      → Step
          (before ++ record { key = key; phase = waiting } ∷ after)
          (before ++ record { key = key; phase = running } ∷ after)
  releases :
      (key : Text) (before after : Queue)
      → Step
          (before ++ record { key = key; phase = running } ∷ after)
          (before ++ record { key = key; phase = released } ∷ after)

pub data Reach : Queue → Type 0 where
  empty : Reach []
  then : {q r : Queue} → Reach q → Step q r → Reach r
