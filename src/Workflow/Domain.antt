-- ===== src/Workflow/Domain.antt =====
-- The world of the repositories and of the coordinator: the persistence provider, the worker
-- registry and the events emitted so far. The clock and `randomUUID` are the host's: the n-th
-- reading of each is a parameter.
use agent_diaries_core.Prelude.{ℕ, zero, suc, ◌+◌, List, [], ◌∷◌, Option, none, some, Text}
use agent_diaries_core.Shared.{Value, TimelineEvent, MetricRecord, DomainEvent}
use agent_diaries_core.Shared.Effect.{◌>>◌, ◌>>=◌, M, ok, return}
use agent_diaries_core.Workers.{Workers}
use agent_diaries_core.Memory.Persistence.{Persistence, save_timeline_event, save_metric}

pub record Env : Type 0 where
  pub time : ℕ → ℕ
  pub uuid : ℕ → Text

pub record World : Type 0 where
  pub db : Persistence
  pub workers : Workers
  pub events : List DomainEvent  -- the newest first
  pub ticks : ℕ
  pub ids : ℕ

abbrev pub date_now : Env → M World ℕ
date_now env w = (record w { ticks = w.ticks + 1 }, ok (env.time w.ticks))

abbrev pub random_uuid : Env → M World Text
random_uuid env w = (record w { ids = w.ids + 1 }, ok (env.uuid w.ids))

abbrev pub emit : DomainEvent → M World (Unit {0})
emit e w = (record w { events = e ∷ w.events }, ok tt)

abbrev pub update_db : (Persistence → Persistence) → M World (Unit {0})
update_db f w = (record w { db = f w.db }, ok tt)

-- `Omit<TimelineEvent, "id" | "timestamp">` with the two as options.
pub record EventInput : Type 0 where
  pub id : Option Text
  pub timestamp : Option ℕ
  pub type : Text
  pub workflow_id : Option Text
  pub payload : Value

-- `a || b` reads `b` only if `a` is falsy.
unfoldable pub id_or_uuid : Env → Option Text → M World Text
id_or_uuid env none = random_uuid env
id_or_uuid env (some []) = random_uuid env
id_or_uuid env (some (c ∷ cs)) = return (c ∷ cs)

unfoldable pub time_or_now : Env → Option ℕ → M World ℕ
time_or_now env none = date_now env
time_or_now env (some zero) = date_now env
time_or_now env (some (suc n)) = return (suc n)

unfoldable pub append_event : Env → EventInput → M World TimelineEvent
unfolding id_or_uuid time_or_now save_timeline_event
append_event env e = do
  id ← id_or_uuid env e.id
  timestamp ← time_or_now env e.timestamp
  let full : TimelineEvent = record {
    id = id;
    workflow_id = e.workflow_id;
    type = e.type;
    timestamp = timestamp;
    payload = e.payload;
  }
  update_db (save_timeline_event full)
  return full

abbrev pub event_of : Text → Text → Value → EventInput
event_of workflow_id type payload = record {
  id = none;
  timestamp = none;
  type = type;
  workflow_id = some workflow_id;
  payload = payload;
}

unfoldable pub record_metric : Env → Text → ℕ → List (Text × Text) → M World MetricRecord
unfolding save_metric
record_metric env name value tags = do
  now ← date_now env
  let metric : MetricRecord = record { name = name; value = value; tags = tags; timestamp = now }
  update_db (save_metric metric)
  return metric
