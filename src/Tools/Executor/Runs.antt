-- ===== src/Tools/Executor/Runs.antt =====
-- Whole runs of a tool, the checks included.
use agent_diaries_core.Prelude.{
  ℕ, suc, ◌+◌, ◌≤◌, ◌≡◌, refl, sym, ◌∙◌, ap, inl, inr, true, false, List, [], ◌∷◌, Option, none,
  some, arith, Text, length, Bool-cases, Memᴰ, if◌then◌else◌,
}
use mathlib.Core.List.Memᴰ
use agent_diaries_core.Tools.Executor.{
  ToolResult, Call, Options, Log, emit_event, failure, loop, invalid_text, denied_text, includes,
  denied, run_valid, run_permitted, run_granted, run,
}
use agent_diaries_core.Tools.Executor.Retries.{
  announced-length, fails, Decides, verdict, loop-IsAccounted, loop-Decides, loop_exhausted,
}

-- No permission is missing, or none is asked for.
abbrev pub IsGranted : Option (List Text) → Call → Type 0
IsGranted none call = Unit {0}
IsGranted (some granted) call = denied granted call.permissions ≡ []

-- The checks let the call through.
abbrev pub IsAdmitted : Call → Options → Type 0
IsAdmitted call o = IsGranted o.granted_permissions call × (call.invalid ≡ none)

granted_loop :
    (print : ℕ → Text) (call : Call) (o : Options) (log : Log) (g : Option (List Text))
    → IsGranted g call
    → call.invalid ≡ none
    → run_granted print call o log g ≡ loop print call o.retry_delay_ms o.max_retries 0 log
unfolding run_granted run_permitted run_valid
granted_loop print call o log none g v = rw v refl
granted_loop print call o log (some granted) g v = rw (g, v) refl

-- The list of denied permissions is not empty.
denied-Memᴰ :
    (granted ps : List Text) (p : Text)
    → Memᴰ p ps
    → includes granted p ≡ false
    → (q : Text) × (qs : List Text) × (denied granted ps ≡ q ∷ qs)
unfolding denied
denied-Memᴰ granted (x ∷ ps) p (Memᴰ.head q) e =
    (x, denied granted ps, rw (ap (includes granted) (sym q) ∙ e) refl)
denied-Memᴰ granted (x ∷ ps) p (Memᴰ.tail m) e = elim (Bool-cases (includes granted x)) [
  | inl b ↦ rw b (denied-Memᴰ granted ps p m e)
  | inr b ↦ (x, denied granted ps, rw b refl)
]
denied-Memᴰ granted [] p m e = absurd (Memᴰ.not-nil m)

permitted_denied :
    (print : ℕ → Text) (call : Call) (o : Options) (log : Log) (q : Text) (qs : List Text)
    → ((run_permitted print call o log (q ∷ qs)).1.success ≡ false)
      × ((run_permitted print call o log (q ∷ qs)).0.made ≡ log.made)
unfolding run_permitted emit_event failure
permitted_denied print call o log q qs = (refl, refl)

refusal-accounted :
    (call : Call) (r : ToolResult) (k : ℕ) (log : Log)
    → (length (emit_event call r 0 false false log).0.events
        ≡ (if call.has_event_bus then 1 else 0) + length log.events)
      × ((emit_event call r 0 false false log).0.made ≤ log.made + suc k)
unfolding emit_event
refusal-accounted call r k log = (announced-length call.has_event_bus _ log.events, omega arith)

valid-accounted :
    (print : ℕ → Text) (call : Call) (o : Options) (log : Log) (v : Option (List Text))
    → (length (run_valid print call o log v).0.events
        ≡ (if call.has_event_bus then 1 else 0) + length log.events)
      × ((run_valid print call o log v).0.made ≤ log.made + suc o.max_retries)
unfolding run_valid
valid-accounted print call o log none =
    let (e, l, g) = loop-IsAccounted print call o.retry_delay_ms o.max_retries 0 log in (e, l)
valid-accounted print call o log (some errors) =
    refusal-accounted call (failure (invalid_text call errors) 0) o.max_retries log

permitted-accounted :
    (print : ℕ → Text) (call : Call) (o : Options) (log : Log) (d : List Text)
    → (length (run_permitted print call o log d).0.events
        ≡ (if call.has_event_bus then 1 else 0) + length log.events)
      × ((run_permitted print call o log d).0.made ≤ log.made + suc o.max_retries)
unfolding run_permitted
permitted-accounted print call o log [] = valid-accounted print call o log call.invalid
permitted-accounted print call o log (p ∷ ps) =
    refusal-accounted call (failure (denied_text call (p ∷ ps)) 0) o.max_retries log

granted-accounted :
    (print : ℕ → Text) (call : Call) (o : Options) (log : Log) (g : Option (List Text))
    → (length (run_granted print call o log g).0.events
        ≡ (if call.has_event_bus then 1 else 0) + length log.events)
      × ((run_granted print call o log g).0.made ≤ log.made + suc o.max_retries)
unfolding run_granted
granted-accounted print call o log none = valid-accounted print call o log call.invalid
granted-accounted print call o log (some granted) =
    permitted-accounted print call o log (denied granted call.permissions)

run-loop :
    (print : ℕ → Text) (call : Call) (o : Options) (log : Log)
    → IsAdmitted call o
    → run print call o log ≡ loop print call o.retry_delay_ms o.max_retries 0 log
unfolding run
run-loop print call o log (g, v) = granted_loop print call o log o.granted_permissions g v

-- A call that the checks let through ends with the first attempt that returns, or that is
-- cancelled, if the retries reach so far: the answer is that attempt's, and no attempt follows.
pub run-Decides :
    (print : ℕ → Text) (call : Call) (o : Options) (log : Log) (m : ℕ)
    → IsAdmitted call o
    → m ≤ o.max_retries
    → Decides print call o.retry_delay_ms 0 m
    → ((run print call o log).1 ≡ verdict print call o.retry_delay_ms (call.attempts m))
      × ((run print call o log).0.made ≡ log.made + suc m)
run-Decides print call o log m a l d =
    rw (run-loop print call o log a)
      (loop-Decides print call o.retry_delay_ms o.max_retries m 0 m log l (omega arith) d)

-- When all attempts fail, the first and every retry, the answer is a failure after exactly one
-- attempt more than there are retries, with a delay before each retry.
pub run_exhausted :
    (print : ℕ → Text) (call : Call) (o : Options) (log : Log)
    → IsAdmitted call o
    → ((i : ℕ) → i ≤ o.max_retries → fails (call.attempts i) ≡ true)
    → ((run print call o log).1.success ≡ false)
      × ((run print call o log).0.made ≡ log.made + suc o.max_retries)
      × (length (run print call o log).0.delays ≡ length log.delays + o.max_retries)
run_exhausted print call o log a h =
    rw (run-loop print call o log a)
      (loop_exhausted print call o.retry_delay_ms o.max_retries 0 log (λ i _ l. h i (omega arith)))

-- A tool that asks for a permission that was not granted is not tried at all: the answer is a
-- failure, and the log has no attempt more.
pub run-denied :
    (print : ℕ → Text) (call : Call) (o : Options) (log : Log) (granted : List Text) (p : Text)
    → o.granted_permissions ≡ some granted
    → Memᴰ p call.permissions
    → includes granted p ≡ false
    → ((run print call o log).1.success ≡ false) × ((run print call o log).0.made ≡ log.made)
unfolding run
run-denied print call o log granted p g m e =
    let (q, qs, d) = denied-Memᴰ granted call.permissions p m e in
    rw (g, run_granted, d) (permitted_denied print call o log q qs)

-- Every run makes at most one attempt more than there are retries, and announces itself by exactly
-- one event, if there is a bus.
pub run-accounted :
    (print : ℕ → Text) (call : Call) (o : Options) (log : Log)
    → (length (run print call o log).0.events
        ≡ (if call.has_event_bus then 1 else 0) + length log.events)
      × ((run print call o log).0.made ≤ log.made + suc o.max_retries)
unfolding run
run-accounted print call o log = granted-accounted print call o log o.granted_permissions
