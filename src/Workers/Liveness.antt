-- ===== src/Workers/Liveness.antt =====
-- Heartbeats and pruning.
use agent_diaries_core.Prelude.{
  ℕ, ◌+◌, ◌≤◌, ◌≡◌, refl, ◌∙◌, ap, Bool, false, [], ◌∷◌, Option, none, some, arith, Text,
  if◌then◌else◌, Bool-cases, inl, inr,
}
use agent_diaries_core.JsMap.{JsMap, get-set_self}
use agent_diaries_core.JsMap
use agent_diaries_core.Shared.{WorkerMetadata, offline}
use agent_diaries_core.Workers.{
  Workers, update_worker, beat, heartbeat, get_worker, is_stale, prune_stale_workers,
}

-- What pruning makes of a worker.
abbrev pub pruned_worker : ℕ → ℕ → WorkerMetadata → WorkerMetadata
pruned_worker max now worker =
    if is_stale max now worker then record worker { status = offline } else worker

abbrev pub pruned_entry : ℕ → ℕ → Option WorkerMetadata → Option WorkerMetadata
pruned_entry max now none = none
pruned_entry max now (some worker) = some (pruned_worker max now worker)

-- Pruning removes nobody: it sets exactly the stale workers offline.
pub get_worker-prune_stale_workers :
    (id : Text) (max now : ℕ) (ws : Workers)
    → get_worker id (prune_stale_workers max now ws).0 ≡ pruned_entry max now (get_worker id ws)
unfolding get_worker prune_stale_workers JsMap.get
get_worker-prune_stale_workers id max now [] = refl
get_worker-prune_stale_workers id max now ((j, x) ∷ ws) =
    ground (arith, get_worker-prune_stale_workers id max now ws)

is_stale-offline :
    (max now : ℕ) (x : WorkerMetadata)
    → is_stale max now (record x { status = offline }) ≡ is_stale max now x
unfolding is_stale
is_stale-offline max now x = refl

get_worker-heartbeat :
    (id : Text) (now : ℕ) (ws : Workers) (worker : WorkerMetadata)
    → get_worker id ws ≡ some worker
    → get_worker id (heartbeat id now ws).0 ≡ some (beat now worker)
unfolding heartbeat get_worker
get_worker-heartbeat id now ws worker e = rw (e, update_worker, get-set_self)

-- A second run at the same time reports the same workers and changes nothing.
pub prune_stale_workers-twice :
    (max now : ℕ) (ws : Workers)
    → prune_stale_workers max now (prune_stale_workers max now ws).0
      ≡ prune_stale_workers max now ws
unfolding prune_stale_workers
prune_stale_workers-twice max now [] = refl
prune_stale_workers-twice max now ((j, x) ∷ ws) = elim (Bool-cases (is_stale max now x)) [
  | inl stale ↦ rw (stale, is_stale-offline max now x ∙ stale, prune_stale_workers-twice max now ws)
  | inr fresh ↦ rw (fresh, fresh, prune_stale_workers-twice max now ws)
]

is_stale-beat :
    (max now later : ℕ) (x : WorkerMetadata)
    → later ≤ now + max
    → is_stale max later (beat now x) ≡ false
unfolding is_stale beat
is_stale-beat max now later x l = ground arith

if_false : {b : Bool} (x y : WorkerMetadata) → b ≡ false → (if b then x else y) ≡ y
if_false x y e = rw e

-- A worker that has sent a heartbeat within the window is active after pruning.
pub prune_stale_workers-after_heartbeat :
    (id : Text) (max now later : ℕ) (ws : Workers) (worker : WorkerMetadata)
    → get_worker id ws ≡ some worker
    → later ≤ now + max
    → get_worker id (prune_stale_workers max later (heartbeat id now ws).0).0
      ≡ some (beat now worker)
prune_stale_workers-after_heartbeat id max now later ws worker e l =
    rw
      (
        get_worker-prune_stale_workers id max later (heartbeat id now ws).0,
        get_worker-heartbeat id now ws worker e,
      )
      (ap some (if_false _ _ (is_stale-beat max now later worker l)))
