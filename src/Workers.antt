-- ===== src/Workers.antt =====
-- src/core/workers/WorkerRegistry.ts. The host's name, process and random identifiers, and the
-- clock, are arguments.
pub mod Liveness
use agent_diaries_core.Prelude.{
  ℕ, zero, suc, ◌+◌, Bool, true, false, List, [], ◌∷◌, Option, none, some, Text, codes, ltb,
  if◌then◌else◌,
}
use agent_diaries_core.JsMap.{JsMap}
use agent_diaries_core.JsMap
use agent_diaries_core.Shared.{WorkerMetadata, WorkerStatus, active, offline}

abbrev pub Workers : Type 0
Workers = JsMap WorkerMetadata

-- `a || b` on texts and on numbers.
abbrev pub or_text : Option Text → Text → Text
or_text none b = b
or_text (some []) b = b
or_text (some (c ∷ cs)) b = c ∷ cs

abbrev pub or_number : Option ℕ → ℕ → ℕ
or_number none b = b
or_number (some zero) b = b
or_number (some (suc n)) b = suc n

abbrev pub or_status : Option WorkerStatus → WorkerStatus → WorkerStatus
or_status none b = b
or_status (some a) b = a

-- What the process supplies.
pub record Host : Type 0 where
  pub hostname : Text
  pub pid : ℕ
  pub uuid : Text

-- `Partial<WorkerMetadata>`
pub record WorkerOptions : Type 0 where
  pub worker_id : Option Text
  pub hostname : Option Text
  pub pid : Option ℕ
  pub version : Option Text
  pub status : Option WorkerStatus
  pub started_time : Option ℕ
  pub last_activity : Option ℕ

abbrev pub sdk_version : Text
sdk_version = codes "2.0.0"

unfoldable pub new_worker : Host → WorkerOptions → ℕ → WorkerMetadata
new_worker host o now = record {
  worker_id = or_text o.worker_id host.uuid;
  hostname = or_text o.hostname host.hostname;
  pid = or_number o.pid host.pid;
  version = or_text o.version sdk_version;
  heartbeat = now;
  status = or_status o.status active;
  started_time = or_number o.started_time now;
  last_activity = or_number o.last_activity now;
}

unfoldable pub register_worker : Host → WorkerOptions → ℕ → Workers → Workers × WorkerMetadata
unfolding new_worker
register_worker host o now ws =
    let worker = new_worker host o now in (JsMap.set worker.worker_id worker ws, worker)

unfoldable pub unregister_worker : Text → Workers → Workers × Bool
unregister_worker id ws = (JsMap.delete id ws, JsMap.has id ws)

-- The worker of the identifier is changed in place, if there is one.
unfoldable pub update_worker :
    Text → (WorkerMetadata → WorkerMetadata) → Workers → Option WorkerMetadata → Workers × Bool
update_worker id f ws none = (ws, false)
update_worker id f ws (some worker) = (JsMap.set id (f worker) ws, true)

unfoldable pub beat : ℕ → WorkerMetadata → WorkerMetadata
beat now worker = record worker { heartbeat = now; last_activity = now; status = active }

unfoldable pub heartbeat : Text → ℕ → Workers → Workers × Bool
unfolding update_worker beat
heartbeat id now ws = update_worker id (beat now) ws (JsMap.get id ws)

unfoldable pub set_worker_status : Text → WorkerStatus → ℕ → Workers → Workers × Bool
unfolding update_worker
set_worker_status id status now ws =
    update_worker id (λ worker. record worker { status = status; last_activity = now }) ws
      (JsMap.get id ws)

unfoldable pub get_worker : Text → Workers → Option WorkerMetadata
get_worker id ws = JsMap.get id ws

unfoldable pub list_workers : Workers → List WorkerMetadata
list_workers ws = JsMap.values ws

-- `now - worker.heartbeat > maxInactivityMs`
unfoldable pub is_stale : ℕ → ℕ → WorkerMetadata → Bool
is_stale max_inactivity now worker = ltb (worker.heartbeat + max_inactivity) now

-- A stale worker stays in the registry, as offline, and is reported.
unfoldable pub prune_stale_workers : ℕ → ℕ → Workers → Workers × List Text
unfolding is_stale
prune_stale_workers max_inactivity now [] = ([], [])
prune_stale_workers max_inactivity now ((id, worker) ∷ ws) =
    let (rest, pruned) = prune_stale_workers max_inactivity now ws in
    if is_stale max_inactivity now worker
    then ((id, record worker { status = offline }) ∷ rest, id ∷ pruned)
    else ((id, worker) ∷ rest, pruned)
