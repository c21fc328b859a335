-- ===== src/Shared.antt =====
-- src/shared/types.ts: the records that the components exchange, and the errors that they throw.
-- An optional field is an `Option`; `any` is `Value`, which no component but its owner inspects.
pub mod Signature
pub mod Effect
use agent_diaries_core.Prelude.{ℕ, ◌++◌, List, [], ◌∷◌, Option, Bool, Text, codes}

pub data Value : Type 0 where
  undefined null : Value
  boolean : Bool → Value
  number : ℕ → Value
  string : Text → Value
  json : Text → Value  -- an object or an array, by its serialised form

pub data WorkflowState : Type 0 where
  created queued claimed running waiting completed failed cancelled expired : WorkflowState

unfoldable pub WorkflowState-discrete : Discrete WorkflowState
WorkflowState-discrete = hlevel

pub record WorkflowRecord : Type 0 where
  pub id : Text
  pub name : Text
  pub state : WorkflowState
  pub signature : Option Text
  pub worker_id : Option Text
  pub payload : Value
  pub result : Value
  pub fail_reason : Option Text
  pub created_at : ℕ
  pub updated_at : ℕ
  pub completed_at : Option ℕ
  pub ttl_ms : Option ℕ

pub data TaskStatus : Type 0 where
  pending done failed : TaskStatus

unfoldable pub TaskStatus-discrete : Discrete TaskStatus
TaskStatus-discrete = hlevel

-- `status` is optional here: `getRecordStatus` allows for records that were stored without one.
pub record TaskRecord : Type 0 where
  pub title : Text
  pub signature : Text
  pub result : Option Text
  pub status : Option TaskStatus
  pub fail_reason : Option Text
  pub timestamp : ℕ
  pub ttl_ms : Option ℕ

pub record AgentState : Type 0 where
  pub last_run : ℕ
  pub seen_signatures : List Text
  pub run_count : ℕ
  pub history : List TaskRecord

pub data SpanStatus : Type 0 where
  ok error : SpanStatus

pub record SpanRecord : Type 0 where
  pub span_id : Text
  pub trace_id : Text
  pub parent_span_id : Option Text
  pub name : Text
  pub start_time : ℕ
  pub end_time : Option ℕ
  pub status : SpanStatus
  pub attributes : List (Text × Value)

pub data TraceStatus : Type 0 where
  active completed failed : TraceStatus

pub record TraceRecord : Type 0 where
  pub trace_id : Text
  pub workflow_id : Option Text
  pub name : Text
  pub start_time : ℕ
  pub end_time : Option ℕ
  pub spans : List SpanRecord
  pub status : TraceStatus

pub record TimelineEvent : Type 0 where
  pub id : Text
  pub workflow_id : Option Text
  pub type : Text
  pub timestamp : ℕ
  pub payload : Value

pub record MetricRecord : Type 0 where
  pub name : Text
  pub value : ℕ
  pub tags : List (Text × Text)
  pub timestamp : ℕ

pub data WorkerStatus : Type 0 where
  active idle offline : WorkerStatus

pub record WorkerMetadata : Type 0 where
  pub worker_id : Text
  pub hostname : Text
  pub pid : ℕ
  pub version : Text
  pub heartbeat : ℕ
  pub status : WorkerStatus
  pub started_time : ℕ
  pub last_activity : ℕ

-- The workflow, trace and agent events of `DomainEvents`.
pub data DomainEvent : Type 0 where
  workflow_created : WorkflowRecord → DomainEvent
  workflow_claimed : Text → Text → DomainEvent
  workflow_started : Text → DomainEvent
  workflow_completed : Text → Value → DomainEvent
  workflow_failed : Text → Option Text → DomainEvent
  workflow_reused : Text → Text → DomainEvent
  trace_recorded : TraceRecord → DomainEvent
  diary_updated : Text → AgentState → DomainEvent
  agent_started : Text → Text → Option Text → DomainEvent
  -- the agent, the trace, the workflow, the duration and the tools used or the error
  agent_completed : Text → Text → Option Text → ℕ → List Text → DomainEvent
  agent_failed : Text → Text → Option Text → ℕ → Text → DomainEvent

-- `thrown` is an error of the code that a caller passes in.
pub data Error : Type 0 where
  not_claimed : Text → Text → Error  -- the task, and the method that wants it claimed
  not_found : Text → Error
  claim_refused : Text → Error
  invalid_transition : WorkflowState → WorkflowState → Error
  agent_not_found : Text → Error
  agent_invalid : Text → List Text → Error
  thrown : Text → Error

pub state_name : WorkflowState → Text
state_name created = codes "CREATED"
state_name queued = codes "QUEUED"
state_name claimed = codes "CLAIMED"
state_name running = codes "RUNNING"
state_name waiting = codes "WAITING"
state_name completed = codes "COMPLETED"
state_name failed = codes "FAILED"
state_name cancelled = codes "CANCELLED"
state_name expired = codes "EXPIRED"

-- `Array.prototype.join`
unfoldable pub join : Text → List Text → Text
join separator [] = []
join separator (t ∷ []) = t
join separator (t ∷ u ∷ ts) = t ++ separator ++ join separator (u ∷ ts)

unfoldable pub message : Error → Text
unfolding state_name join
message (not_claimed t method) =
    codes "[AgentDiary] Task \""
    ++ t
    ++ codes "\" was not claimed. Call claimTask() before "
    ++ method
    ++ codes "()."
message (not_found t) = codes "Workflow \"" ++ t ++ codes "\" not found."
message (claim_refused t) = codes "Failed to claim workflow \"" ++ t ++ codes "\"."
message (invalid_transition s t) =
    codes "Invalid workflow state transition from \""
    ++ state_name s
    ++ codes "\" to \""
    ++ state_name t
    ++ codes "\"."
message (agent_not_found t) =
    codes "[AgentLifecycle] Agent \"" ++ t ++ codes "\" is not registered."
message (agent_invalid t errors) =
    codes "[AgentLifecycle] Validation failed for agent \""
    ++ t
    ++ codes "\": "
    ++ join (codes "; ") errors
message (thrown t) = t
