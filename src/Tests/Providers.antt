-- ===== src/Tests/Providers.antt =====
-- Locks, caches, workers and search providers in small runs.
use agent_diaries_core.Prelude.{
  ◌≤◌, ◌≡◌, refl, ◌≢◌, true, false, List, [], ◌∷◌, some, arith, codes, Text-discrete, All, length,
  filter,
}
use agent_diaries_core.JsMap
use agent_diaries_core.Shared.{WorkerMetadata, active}
use agent_diaries_core.Memory.Leases.{
  Locks, Request, acquire, release, renew, acquire_lock, release_lock, serve_all, key_of, is_leased,
}
use agent_diaries_core.Memory.Leases.Exclusive.{acquire_lock-exclusive}
use agent_diaries_core.Memory.Mutex.{
  waiting, running, released, Queue, join, Reach, empty, then, joins, starts, is_resolved,
}
use agent_diaries_core.Memory.Mutex.Fairness.{IsFair, runs, Reach-IsFair, Reach-exclusive}
use agent_diaries_core.Memory.Mutex.Progress.{Steps, waiting-Steps}
use agent_diaries_core.Workers.{get_worker}

-- Another client tries to take the lease, to end it and to prolong it.
abbrev intruder : List Request
intruder =
    acquire (codes "k") 50 30 (codes "t")
    ∷ release (codes "k") (codes "t")
    ∷ acquire (codes "jj") 50 31 (codes "u")
    ∷ renew (codes "k") (codes "t") 50 32
    ∷ []

abbrev lease_state : Locks
lease_state = (acquire_lock (codes "k") 100 10 (codes "t1") []).0

other_token : codes "t" ≢ codes "t1"
other_token e = cc

other_key : codes "jj" ≢ codes "k"
other_key e = cc

granted : (acquire_lock (codes "k") 100 10 (codes "t1") []).1 ≡ some (codes "t1")
unfolding acquire_lock is_leased JsMap.get
granted = refl

acquire_lock-exclusive_example :
    All (λ a. key_of a.0 ≡ codes "k" → a.1 ≡ false) (serve_all intruder lease_state).1
    × ((release_lock (codes "k") (codes "t1") (serve_all intruder lease_state).0).1 ≡ true)
acquire_lock-exclusive_example =
    acquire_lock-exclusive (codes "k") (codes "t1") 100 10 intruder [] granted
      (λ _. omega arith, (λ _. other_token, (λ e. absurd (other_key e), (λ _. other_token, tt))))

-- Two calls of a key: the first has started.
abbrev two_calls : Queue
two_calls =
    record { key = codes "k"; phase = running } ∷ record { key = codes "k"; phase = waiting } ∷ []

two_calls-Reach : Reach two_calls
unfolding join is_resolved
two_calls-Reach =
    then
      (then (then empty (joins (codes "k") []))
        (joins (codes "k") (record { key = codes "k"; phase = waiting } ∷ [])))
      (starts (codes "k") [] (record { key = codes "k"; phase = waiting } ∷ []) refl)

Reach-exclusive_example : length (filter (runs (codes "k")) two_calls) ≤ 1
Reach-exclusive_example = Reach-exclusive (codes "k") two_calls-Reach

Reach-IsFair_example : IsFair two_calls
Reach-IsFair_example = Reach-IsFair two_calls-Reach

waiting-Steps_example : Steps two_calls (
    record { key = codes "k"; phase = released } ∷ record { key = codes "k"; phase = running } ∷ [])
unfolding Text-discrete
waiting-Steps_example =
    waiting-Steps (codes "k") (record { key = codes "k"; phase = running } ∷ []) []

abbrev worker : WorkerMetadata
worker = record {
  worker_id = codes "w";
  hostname = codes "h";
  pid = 1;
  version = codes "2.0.0";
  heartbeat = 0;
  status = active;
  started_time = 0;
  last_activity = 0;
}

registered : get_worker (codes "w") ((codes "w", worker) ∷ []) ≡ some worker
unfolding get_worker JsMap.get Text-discrete
registered = refl
