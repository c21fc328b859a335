-- ===== src/Runtime/Environment/Turns.antt =====
-- src/runtime/ExecutionEnvironment.ts and src/runtime/AgentRuntime.ts: the calls of a runtime as the
-- event loop runs them, in turns. Warm-ups and shut-downs may overlap each other and other calls.
use agent_diaries_core.Prelude.{
  ℕ, zero, suc, ◌+◌, Bool, true, false, ◌&&◌, List, [], ◌∷◌, ◌++◌, length, ◌==◌,
}
use agent_diaries_core.Tools.Registry.{Tool}
use agent_diaries_core.Agents.{Agent}
use agent_diaries_core.Runtime.Environment.{
  Environment, fresh, Warming, Progress, waits, answers, begin_warmup, continue_warmup,
  begin_shutdown, end_shutdown, register_tool, register_agent, health_check,
}

-- What the event loop does next: a call begins, or one that waits goes on.
pub data Turn : Type 0 where
  begins_warmup : ℕ → Turn
  continues_warmup : ℕ → ℕ → Turn
  begins_shutdown : Turn
  ends_shutdown : Turn
  adds_tool : Tool → Turn
  adds_agent : Agent → Turn
  checks : ℕ → ℕ → Turn

-- The environment, the warm-ups that wait and the number of shut-downs that wait.
pub record Runtime : Type 0 where
  pub environment : Environment
  pub warming : List Warming
  pub closing : ℕ

abbrev pub new_runtime : Runtime
new_runtime = record { environment = fresh; warming = []; closing = 0 }

abbrev pub still_waiting : Progress → List Warming
still_waiting (waits x) = x ∷ []
still_waiting (answers r) = []

-- The warm-up with a given number goes on.
unfoldable pub continue_at : ℕ → ℕ → Environment → List Warming → Environment × List Warming
unfolding continue_warmup
continue_at n now e [] = (e, [])
continue_at zero now e (x ∷ xs) = let (f, p) = continue_warmup now e x in (f, still_waiting p ++ xs)
continue_at (suc n) now e (x ∷ xs) = let (f, ys) = continue_at n now e xs in (f, x ∷ ys)

abbrev pub one_if : Bool → ℕ
one_if true = 1
one_if false = 0

unfoldable pub finish_shutdown : Runtime → ℕ → Runtime
finish_shutdown r zero = r
finish_shutdown r (suc n) = record r { environment = end_shutdown r.environment; closing = n }

unfoldable pub advance : Turn → Runtime → Runtime
unfolding begin_warmup continue_at begin_shutdown finish_shutdown register_tool register_agent
    health_check
advance (begins_warmup start) r =
    let (e, p) = begin_warmup start r.environment in
    record r { environment = e; warming = r.warming ++ still_waiting p }
advance (continues_warmup n now) r =
    let (e, xs) = continue_at n now r.environment r.warming in
    record r { environment = e; warming = xs }
advance begins_shutdown r =
    let (e, goes_on) = begin_shutdown r.environment in
    record r { environment = e; closing = r.closing + one_if goes_on }
advance ends_shutdown r = finish_shutdown r r.closing
advance (adds_tool t) r = record r { environment = register_tool t r.environment }
advance (adds_agent a) r = record r { environment = (register_agent a r.environment).0 }
advance (checks m n) r = record r { environment = (health_check m n r.environment).0 }

unfoldable pub advance_all : List Turn → Runtime → Runtime
unfolding advance
advance_all [] r = r
advance_all (t ∷ ts) r = advance_all ts (advance t r)

-- A warm-up begins while none waits, and so does a shut-down.
abbrev pub is_free : Turn → Runtime → Bool
is_free (begins_warmup start) r = length r.warming == 0
is_free begins_shutdown r = r.closing == 0
is_free _ r = true

unfoldable pub is_serial : List Turn → Runtime → Bool
unfolding advance
is_serial [] r = true
is_serial (t ∷ ts) r = is_free t r && is_serial ts (advance t r)
