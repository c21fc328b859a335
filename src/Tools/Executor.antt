-- ===== src/Tools/Executor.antt =====
-- src/tools/ToolExecutor.ts. What a tool does at each attempt, and how long it takes, is a
-- parameter; the abort signals are seen only by what the attempt ends with.
pub mod Retries
pub mod Runs
use agent_diaries_core.Prelude.{
  ℕ, zero, suc, ◌+◌, ◌*◌, ite, Bool, true, false, not, ◌&&◌, ◌||◌, List, [], ◌∷◌, ◌++◌, Option,
  none, some, Text, Text-discrete, codes, filter, any, if◌then◌else◌,
}
use agent_diaries_core.Shared.{Value, undefined}

pub record ToolResult : Type 0 where
  pub success : Bool
  pub data_of : Value
  pub error : Option Text
  pub duration_ms : ℕ
  pub cached : Option Bool

-- An attempt returns, or raises: is it an `AbortError`, and is the merged signal aborted?
pub data Attempt : Type 0 where
  returned : ToolResult → ℕ → Attempt
  raised : Bool → Bool → Text → ℕ → Attempt

pub record ToolContext : Type 0 where
  pub agent_id : Option Text
  pub trace_id : Option Text

-- A tool with the input of one run: its answer to `validate`, the errors, if the input is not
-- valid, and its attempts.
pub record Call : Type 0 where
  pub name : Text
  pub permissions : List Text
  pub invalid : Option (List Text)
  pub attempts : ℕ → Attempt
  pub has_event_bus : Bool
  pub context : ToolContext

pub record Options : Type 0 where
  pub max_retries : ℕ
  pub retry_delay_ms : ℕ
  pub granted_permissions : Option (List Text)

-- `ToolExecuted`
pub record Event : Type 0 where
  pub tool_name : Text
  pub agent_id : Option Text
  pub trace_id : Option Text
  pub success : Bool
  pub duration_ms : ℕ
  pub cached : Option Bool
  pub retry_count : ℕ
  pub cancelled : Bool
  pub timed_out : Bool

-- The events, the delays between attempts, the newest first, and the number of attempts made.
pub record Log : Type 0 where
  pub events : List Event
  pub delays : List ℕ
  pub made : ℕ

-- `if (!eventBus) return`
abbrev pub announced : Bool → Event → List Event → List Event
announced true e es = e ∷ es
announced false e es = es

unfoldable pub emit_event : Call → ToolResult → ℕ → Bool → Bool → Log → Log × ToolResult
emit_event call r retries cancelled timed_out log =
    let event : Event = record {
      tool_name = call.name;
      agent_id = call.context.agent_id;
      trace_id = call.context.trace_id;
      success = r.success;
      duration_ms = r.duration_ms;
      cached = r.cached;
      retry_count = retries;
      cancelled = cancelled;
      timed_out = timed_out;
    } in
    (record log { events = announced call.has_event_bus event log.events }, r)

unfoldable pub failure : Text → ℕ → ToolResult
failure error ms = record {
  success = false;
  data_of = undefined;
  error = some error;
  duration_ms = ms;
  cached = none;
}

-- `${attempt}` is printed by the host.
unfoldable pub exhausted : Call → (ℕ → Text) → ℕ → Text → Text
exhausted call print n message =
    codes "[ToolExecutor] \""
    ++ call.name
    ++ codes "\" failed after "
    ++ print n
    ++ codes " attempt(s): "
    ++ message

unfoldable pub cancelled_text : Call → Text
cancelled_text call = codes "[ToolExecutor] Execution cancelled for \"" ++ call.name ++ codes "\""

-- The `while` loop from an attempt on, with the number of retries that are left.
module _ (print : ℕ → Text) (call : Call) (delay_ms : ℕ) where
  unfoldable pub end_attempt : ℕ → Log → Log × ToolResult → Attempt → Log × ToolResult
  unfolding emit_event failure cancelled_text
  end_attempt n log next (returned r ms) =
      emit_event call (record r { duration_ms = ms }) n false false log
  end_attempt n log next (raised abort aborted message ms) =
      if abort || aborted
      then emit_event call (failure (cancelled_text call) ms) n true (aborted && abort) log
      else next

  -- What follows the last attempt that failed; one that returned does not come here.
  unfoldable pub give_up : ℕ → Log → Attempt → Log × ToolResult
  unfolding emit_event failure exhausted
  give_up n log (returned r ms) = (log, r)
  give_up n log (raised abort aborted message ms) =
      emit_event call (failure (exhausted call print (suc n) message) ms) (suc n) false false log

  unfoldable pub loop : ℕ → ℕ → Log → Log × ToolResult
  unfolding end_attempt give_up
  loop zero n log =
      let now : Log = record log { made = log.made + 1 } in
      end_attempt n now (give_up n now (call.attempts n)) (call.attempts n)
  loop (suc left) n log =
      let now : Log = record log { made = log.made + 1 } in
      let later : Log = record now { delays = delay_ms * suc n ∷ now.delays } in
      let rest = loop left (suc n) later in end_attempt n now rest (call.attempts n)

abbrev pub includes : List Text → Text → Bool
includes ps p = any (λ q. ite (Text-discrete q p) true false) ps

-- The permissions that the tool asks for and the agent does not have.
unfoldable pub denied : List Text → List Text → List Text
denied granted wanted = filter (λ p. not (includes granted p)) wanted

unfoldable pub joined : Text → List Text → Text
joined sep [] = []
joined sep (t ∷ []) = t
joined sep (t ∷ u ∷ ts) = t ++ sep ++ joined sep (u ∷ ts)

unfoldable pub invalid_text : Call → List Text → Text
unfolding joined
invalid_text call errors =
    codes "[ToolExecutor] Input validation failed for \""
    ++ call.name
    ++ codes "\": "
    ++ joined (codes "; ") errors

unfoldable pub denied_text : Call → List Text → Text
unfolding joined
denied_text call ps =
    codes "[ToolExecutor] Permission denied for \""
    ++ call.name
    ++ codes "\". Missing: "
    ++ joined (codes ", ") ps

unfoldable pub run_valid : (ℕ → Text) → Call → Options → Log → Option (List Text) → Log × ToolResult
unfolding loop emit_event failure invalid_text
run_valid print call o log none = loop print call o.retry_delay_ms o.max_retries 0 log
run_valid print call o log (some errors) =
    emit_event call (failure (invalid_text call errors) 0) 0 false false log

unfoldable pub run_permitted : (ℕ → Text) → Call → Options → Log → List Text → Log × ToolResult
unfolding run_valid emit_event failure denied_text
run_permitted print call o log [] = run_valid print call o log call.invalid
run_permitted print call o log (p ∷ ps) =
    emit_event call (failure (denied_text call (p ∷ ps)) 0) 0 false false log

unfoldable pub run_granted :
    (ℕ → Text) → Call → Options → Log → Option (List Text) → Log × ToolResult
unfolding run_permitted denied run_valid
run_granted print call o log none = run_valid print call o log call.invalid
run_granted print call o log (some granted) =
    run_permitted print call o log (denied granted call.permissions)

unfoldable pub run : (ℕ → Text) → Call → Options → Log → Log × ToolResult
unfolding run_granted
run print call o log = run_granted print call o log o.granted_permissions
