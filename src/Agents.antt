-- ===== src/Agents.antt =====
-- src/agents/contracts.ts and src/agents/AgentRegistry.ts. What an agent does is given by functions
-- of its input; its health check by what it ends with.
pub mod Statistics
use agent_diaries_core.Prelude.{
  ℕ, suc, Bool, false, List, [], ◌∷◌, map, Option, none, some, Text, codes, filter, any, all,
  length,
}
use agent_diaries_core.JsMap.{JsMap}
use agent_diaries_core.JsMap
use agent_diaries_core.Shared.{Value, thrown, message}
use agent_diaries_core.Shared.Effect.{Result, ok, err, M}
use agent_diaries_core.Tools.Registry.{Registry, same_text, includes}
use agent_diaries_core.Workflow.Domain.{World}

-- `AgentCategory`, by its text.
abbrev pub Category : Type 0
Category = Text

pub record Capability : Type 0 where
  pub name : Text
  pub version : Option Text
  pub description : Option Text

pub record Metadata : Type 0 where
  pub id : Text
  pub name : Text
  pub version : Text
  pub category : Category
  pub capabilities : List Capability
  pub description : Option Text
  pub author : Option Text
  pub required_tools : Option (List Text)
  pub tags : Option (List Text)

-- `AgentResult`; the cost is not inspected.
pub record AgentResult : Type 0 where
  pub success : Bool
  pub payload : Value
  pub error : Option Text
  pub duration_ms : ℕ
  pub agent_id : Text
  pub trace_id : Option Text
  pub tools_used : Option (List Text)
  pub cost : Value

pub record Validation : Type 0 where
  pub valid : Bool
  pub errors : Option (List Text)

pub record HealthStatus : Type 0 where
  pub healthy : Bool
  pub message : Option Text
  pub last_checked : Option ℕ

-- `AgentContext`. The signal is its time limit; loggers are left out.
pub record Context : Type 0 where
  pub trace_id : Text
  pub workflow_id : Option Text
  pub agent_id : Text
  pub timeout : ℕ
  pub tools : Registry
  pub metadata : List (Text × Value)

pub record Agent : Type 0 where
  pub metadata : Metadata
  pub validate : Value → Result Validation
  pub execute : Value → Context → M World AgentResult
  pub health_check : Result HealthStatus

abbrev pub Agents : Type 0
Agents = JsMap Agent

unfoldable pub register_named : Agent → Agents → Text → Agents × Result (Unit {0})
register_named a m [] =
    (m, err (thrown (codes "[AgentRegistry] Agent must have a valid metadata.id.")))
register_named a m (c ∷ cs) = (JsMap.set (c ∷ cs) a m, ok tt)

unfoldable pub register : Agent → Agents → Agents × Result (Unit {0})
unfolding register_named
register a m = register_named a m a.metadata.id

unfoldable pub unregister : Text → Agents → Agents × Bool
unregister id m = (JsMap.delete id m, JsMap.has id m)

unfoldable pub get : Text → Agents → Option Agent
get id m = JsMap.get id m

unfoldable pub has_capability : Text → Agent → Bool
has_capability name a = any (λ c. same_text c.name name) a.metadata.capabilities

unfoldable pub find_by_capability : Text → Agents → List Agent
unfolding has_capability
find_by_capability name m = filter (has_capability name) (JsMap.values m)

unfoldable pub find_by_category : Category → Agents → List Agent
find_by_category category m = filter (λ a. same_text a.metadata.category category) (JsMap.values m)

-- `AgentListOptions`. An empty text is as good as none.
pub record ListOptions : Type 0 where
  pub category : Option Category
  pub capability : Option Text
  pub tags : Option (List Text)

unfoldable pub keep_category : Option Category → List Agent → List Agent
keep_category none as_given = as_given
keep_category (some []) as_given = as_given
keep_category (some (c ∷ cs)) as_given =
    filter (λ a. same_text a.metadata.category (c ∷ cs)) as_given

unfoldable pub keep_capability : Option Text → List Agent → List Agent
unfolding has_capability
keep_capability none as_given = as_given
keep_capability (some []) as_given = as_given
keep_capability (some (c ∷ cs)) as_given = filter (has_capability (c ∷ cs)) as_given

abbrev pub has_tags : List Text → Option (List Text) → Bool
has_tags required none = false
has_tags required (some tags) = all (includes tags) required

unfoldable pub keep_tags : Option (List Text) → List Agent → List Agent
keep_tags none as_given = as_given
keep_tags (some []) as_given = as_given
keep_tags (some (t ∷ ts)) as_given = filter (λ a. has_tags (t ∷ ts) a.metadata.tags) as_given

unfoldable pub list : ListOptions → Agents → List Metadata
unfolding keep_category keep_capability keep_tags
list o m =
    map (λ a. a.metadata)
      (keep_tags o.tags (keep_capability o.capability (keep_category o.category (JsMap.values m))))

-- `AgentHealthReport`
pub record HealthReport : Type 0 where
  pub agent_id : Text
  pub healthy : Bool
  pub message : Option Text
  pub last_checked : ℕ

abbrev pub or_now : Option ℕ → ℕ → ℕ
or_now none now = now
or_now (some t) now = t

-- `err?.message || "healthCheck threw an error"`
abbrev pub check_message : Text → Text
check_message [] = codes "healthCheck threw an error"
check_message (c ∷ cs) = c ∷ cs

unfoldable pub report_of : Text → ℕ → Result HealthStatus → HealthReport
report_of id now (ok s) = record {
  agent_id = id;
  healthy = s.healthy;
  message = s.message;
  last_checked = or_now s.last_checked now;
}
report_of id now (err e) = record {
  agent_id = id;
  healthy = false;
  message = some (check_message (message e));
  last_checked = now;
}

unfoldable pub health_check : ℕ → Agents → List HealthReport
unfolding report_of
health_check now m = map (λ a. report_of a.metadata.id now a.health_check) (JsMap.values m)

unfoldable pub size : Agents → ℕ
size m = length m
