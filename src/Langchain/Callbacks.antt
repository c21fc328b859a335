-- ===== src/Langchain/Callbacks.antt =====
-- src/langchain/AgentDiariesCallbackHandler.ts. The payload of an event is given as it is built, and
-- its JSON text by the host.
pub mod Recording
pub mod Log
use agent_diaries_core.Prelude.{
  ℕ, zero, suc, ◌+◌, ite, Bool, true, false, List, [], ◌∷◌, ◌++◌, Option, none, some, Text,
  Text-discrete, codes, filter, length, ltb, if◌then◌else◌,
}
use agent_diaries_core.Windows.{last}
use agent_diaries_core.Shared.{Value}
use agent_diaries_core.Shared.Effect.{M, Result, ok, err, return, ◌>>◌}
use agent_diaries_core.Diary.{Config, World}
use agent_diaries_core.Diary.Claims.{Times, execute_once}

-- `LangChainEventType`
pub data EventType : Type 0 where
  llm_start llm_end llm_error : EventType
  chain_start chain_end chain_error : EventType
  tool_start tool_end tool_error : EventType
  retriever_start retriever_end retriever_error : EventType
  agent_action agent_finish : EventType

unfoldable pub EventType-discrete : Discrete EventType
EventType-discrete = hlevel

unfoldable pub type_name : EventType → Text
type_name llm_start = codes "llm_start"
type_name llm_end = codes "llm_end"
type_name llm_error = codes "llm_error"
type_name chain_start = codes "chain_start"
type_name chain_end = codes "chain_end"
type_name chain_error = codes "chain_error"
type_name tool_start = codes "tool_start"
type_name tool_end = codes "tool_end"
type_name tool_error = codes "tool_error"
type_name retriever_start = codes "retriever_start"
type_name retriever_end = codes "retriever_end"
type_name retriever_error = codes "retriever_error"
type_name agent_action = codes "agent_action"
type_name agent_finish = codes "agent_finish"

-- `LangChainEvent`
pub record Event : Type 0 where
  pub type : EventType
  pub run_id : Text
  pub parent_run_id : Option Text
  pub timestamp : ℕ
  pub name : Option Text
  pub payload : Value

-- `CallbackHandlerStats`
pub record Stats : Type 0 where
  pub llm_calls : ℕ
  pub llm_errors : ℕ
  pub tool_calls : ℕ
  pub tool_errors : ℕ
  pub chain_calls : ℕ
  pub chain_errors : ℕ
  pub retriever_calls : ℕ
  pub retriever_errors : ℕ
  pub total_events : ℕ

abbrev pub no_stats : Stats
no_stats = record {
  llm_calls = 0;
  llm_errors = 0;
  tool_calls = 0;
  tool_errors = 0;
  chain_calls = 0;
  chain_errors = 0;
  retriever_calls = 0;
  retriever_errors = 0;
  total_events = 0;
}

-- The options, and what the host gives: decimal numbers and JSON texts.
pub record Options : Type 0 where
  pub persist_events : Bool
  pub max_events : ℕ
  pub on_event : Option (Event → Result (Unit {0}))
  pub agent_id : Option Text
  pub decimal : ℕ → Text
  pub json : Event → Text

unfoldable pub diary_of : Options → Config
diary_of o = record {
  agent_id = elim o.agent_id [ none ↦ codes "langchain-callbacks" | some t ↦ t ];
  max_history = some o.max_events;
  default_ttl_ms = none;
  hash_fn = none;
  on_task_expired = none;
}

pub record Handler : Type 0 where
  pub events : List Event
  pub stats : Stats
  pub world : World

-- The readings of the clock of one call: for the event, for its key and for the diary.
pub record Clock : Type 0 where
  pub stamp : ℕ
  pub keyed : ℕ
  pub times : Times

-- `xs.slice(-n)`, where `-0` is 0
unfoldable pub slice_last : ℕ → List Event → List Event
slice_last zero xs = xs
slice_last (suc n) xs = last (suc n) xs

unfoldable pub store_event : ℕ → Event → List Event → List Event
unfolding slice_last
store_event max e es =
    if ltb max (length (es ++ e ∷ [])) then slice_last max (es ++ e ∷ []) else es ++ e ∷ []

unfoldable pub notify : Option (Event → Result (Unit {0})) → Event → M Handler (Unit {0})
notify none e h = (h, ok tt)
notify (some f) e h = (h, f e)

abbrev pub task_key : Options → Event → ℕ → Text
task_key o e now =
    codes "cb:" ++ type_name e.type ++ codes ":" ++ e.run_id ++ codes ":" ++ o.decimal now

abbrev pub forget : {A : Type 0} → Result A → Result (Unit {0})
forget (ok a) = ok tt
forget (err e) = err e

unfoldable pub persist : Options → Event → Clock → Bool → M Handler (Unit {0})
unfolding type_name diary_of execute_once
persist o e c false h = (h, ok tt)
persist o e c true h =
    let (w, r) =
      execute_once (λ t. some t) (diary_of o) (task_key o e c.keyed) (return (o.json e)) none
        c.times h.world in
    (record h { world = w }, forget r)

unfoldable pub record_event : Options → Event → Clock → M Handler (Unit {0})
unfolding store_event notify persist
record_event o e c h = (notify o.on_event e >> persist o e c o.persist_events) (record h {
  events = store_event o.max_events e h.events;
  stats = record h.stats { total_events = h.stats.total_events + 1 };
})

-- `name ?? llm.name`
abbrev pub or_name : Option Text → Text → Option Text
or_name none t = some t
or_name (some n) t = some n

abbrev pub event_of : EventType → Text → Option Text → ℕ → Option Text → Value → Event
event_of type run_id parent now name payload = record {
  type = type;
  run_id = run_id;
  parent_run_id = parent;
  timestamp = now;
  name = name;
  payload = payload;
}

abbrev pub count : (Stats → Stats) → Handler → Handler
count f h = record h { stats = f h.stats }

module _ (o : Options) (c : Clock) (run : Text) (parent : Option Text) (payload : Value) where
  unfoldable pub handle_llm_start : Text → Option Text → M Handler (Unit {0})
  unfolding record_event
  handle_llm_start llm name h =
      record_event o (event_of llm_start run parent c.stamp (or_name name llm) payload) c
        (count (λ s. record s { llm_calls = s.llm_calls + 1 }) h)

  unfoldable pub handle_llm_end : M Handler (Unit {0})
  unfolding record_event
  handle_llm_end h = record_event o (event_of llm_end run parent c.stamp none payload) c h

  unfoldable pub handle_llm_error : M Handler (Unit {0})
  unfolding record_event
  handle_llm_error h =
      record_event o (event_of llm_error run parent c.stamp none payload) c
        (count (λ s. record s { llm_errors = s.llm_errors + 1 }) h)

  unfoldable pub handle_tool_start : Text → Option Text → M Handler (Unit {0})
  unfolding record_event
  handle_tool_start tool name h =
      record_event o (event_of tool_start run parent c.stamp (or_name name tool) payload) c
        (count (λ s. record s { tool_calls = s.tool_calls + 1 }) h)

  unfoldable pub handle_tool_end : M Handler (Unit {0})
  unfolding record_event
  handle_tool_end h = record_event o (event_of tool_end run parent c.stamp none payload) c h

  unfoldable pub handle_tool_error : M Handler (Unit {0})
  unfolding record_event
  handle_tool_error h =
      record_event o (event_of tool_error run parent c.stamp none payload) c
        (count (λ s. record s { tool_errors = s.tool_errors + 1 }) h)

  unfoldable pub handle_chain_start : Text → Option Text → M Handler (Unit {0})
  unfolding record_event
  handle_chain_start chain name h =
      record_event o (event_of chain_start run parent c.stamp (or_name name chain) payload) c
        (count (λ s. record s { chain_calls = s.chain_calls + 1 }) h)

  unfoldable pub handle_chain_end : M Handler (Unit {0})
  unfolding record_event
  handle_chain_end h = record_event o (event_of chain_end run parent c.stamp none payload) c h

  unfoldable pub handle_chain_error : M Handler (Unit {0})
  unfolding record_event
  handle_chain_error h =
      record_event o (event_of chain_error run parent c.stamp none payload) c
        (count (λ s. record s { chain_errors = s.chain_errors + 1 }) h)

  unfoldable pub handle_retriever_start : Text → Option Text → M Handler (Unit {0})
  unfolding record_event
  handle_retriever_start retriever name h =
      record_event o (event_of retriever_start run parent c.stamp (or_name name retriever) payload)
        c (count (λ s. record s { retriever_calls = s.retriever_calls + 1 }) h)

  unfoldable pub handle_retriever_end : M Handler (Unit {0})
  unfolding record_event
  handle_retriever_end h =
      record_event o (event_of retriever_end run parent c.stamp none payload) c h

  unfoldable pub handle_retriever_error : M Handler (Unit {0})
  unfolding record_event
  handle_retriever_error h =
      record_event o (event_of retriever_error run parent c.stamp none payload) c
        (count (λ s. record s { retriever_errors = s.retriever_errors + 1 }) h)

  unfoldable pub handle_agent_action : Text → M Handler (Unit {0})
  unfolding record_event
  handle_agent_action tool h =
      record_event o (event_of agent_action run parent c.stamp (some tool) payload) c h

  unfoldable pub handle_agent_finish : M Handler (Unit {0})
  unfolding record_event
  handle_agent_finish h = record_event o (event_of agent_finish run parent c.stamp none payload) c h

unfoldable pub get_events_by_run_id : Text → Handler → List Event
get_events_by_run_id run h = filter (λ e. ite (Text-discrete e.run_id run) true false) h.events

unfoldable pub get_events_by_type : EventType → Handler → List Event
unfolding EventType-discrete
get_events_by_type type h = filter (λ e. ite (EventType-discrete e.type type) true false) h.events

unfoldable pub reset : Handler → Handler
reset h = record h { events = []; stats = no_stats }
