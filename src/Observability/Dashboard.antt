-- ===== src/Observability/Dashboard.antt =====
-- src/core/dashboard/Dashboard.ts. The time in front of each line is not kept.
use agent_diaries_core.Prelude.{
  ℕ, zero, suc, ◌≤◌, ◌≡◌, refl, sym, ◌∙◌, ap, Bool, true, false, List, [], ◌∷◌, ◌++◌, Option, none,
  some, arith, Text, codes, length, take, filter, ltb, if◌then◌else◌, Bool-cases, inl, inr, ite,
  length-take, take_of_length-le,
}
use agent_diaries_core.Shared.{
  WorkflowRecord, WorkflowState, WorkflowState-discrete, completed, failed, DomainEvent,
  workflow_created, workflow_completed, workflow_failed,
}
use agent_diaries_core.Memory.Persistence.{Persistence, list_workflows}
use agent_diaries_core.Workers.{or_text}

-- `pop`
unfoldable pub pop : List Text → List Text
pop [] = []
pop (x ∷ []) = []
pop (x ∷ y ∷ ys) = x ∷ pop (y ∷ ys)

-- `logEvent`
unfoldable pub log_event : Text → List Text → List Text
unfolding pop
log_event line recent =
    if ltb 50 (length (line ∷ recent)) then pop (line ∷ recent) else line ∷ recent

abbrev pub reason_of : Option Text → Text
reason_of reason = or_text reason (codes "No reason")

-- The line that a subscription logs.
unfoldable pub line_of : DomainEvent → Option Text
line_of (workflow_created wf) = some (codes "Workflow created: " ++ wf.id)
line_of (workflow_completed id result) = some (codes "Workflow completed: " ++ id)
line_of (workflow_failed id reason) =
    some (codes "Workflow failed: " ++ id ++ codes " (" ++ reason_of reason ++ codes ")")
line_of _ = none

abbrev pub log_line : Option Text → List Text → List Text
log_line none recent = recent
log_line (some line) recent = log_event line recent

unfoldable pub on_event : DomainEvent → List Text → List Text
unfolding line_of log_event
on_event e recent = log_line (line_of e) recent

-- The events, in the order in which they are emitted.
unfoldable pub on_events : List DomainEvent → List Text → List Text
unfolding on_event
on_events [] recent = recent
on_events (e ∷ es) recent = on_events es (on_event e recent)

pub record Overview : Type 0 where
  pub active_workers : ℕ
  pub total_workflows : ℕ
  pub completed_workflows : ℕ
  pub failed_workflows : ℕ
  pub recent_events : List Text

abbrev pub in_state : WorkflowState → WorkflowRecord → Bool
unfolding WorkflowState-discrete
in_state s wf = ite (WorkflowState-discrete wf.state s) true false

unfoldable pub get_overview : Persistence → List Text → Overview
unfolding list_workflows
get_overview p recent =
    let history = list_workflows [] p in
    record {
      active_workers = 1;
      total_workflows = length history;
      completed_workflows = length (filter (in_state completed) history);
      failed_workflows = length (filter (in_state failed) history);
      recent_events = recent;
    }

-- All lines so far, the newest first.
abbrev pub add_line : Option Text → List Text → List Text
add_line none lines = lines
add_line (some line) lines = line ∷ lines

abbrev pub lines_of : List DomainEvent → List Text → List Text
lines_of [] lines = lines
lines_of (e ∷ es) lines = lines_of es (add_line (line_of e) lines)

pop-take : (n : ℕ) (xs : List Text) → length xs ≡ suc n → pop xs ≡ take n xs
unfolding pop
pop-take n [] e = absurd (omega arith)
pop-take zero (x ∷ []) e = refl
pop-take (suc n) (x ∷ []) e = absurd (omega arith)
pop-take zero (x ∷ y ∷ ys) e = absurd (omega arith)
pop-take (suc n) (x ∷ y ∷ ys) e = ap (◌∷◌ x) (pop-take n (y ∷ ys) (omega arith))

take-take : (m n : ℕ) (xs : List Text) → m ≤ n → take m (take n xs) ≡ take m xs
take-take zero n xs l = refl
take-take (suc m) zero xs l = absurd (omega arith)
take-take (suc m) (suc n) [] l = refl
take-take (suc m) (suc n) (x ∷ xs) l = ap (◌∷◌ x) (take-take m n xs (omega arith))

log_event-take :
    (line : Text) (lines : List Text) → log_event line (take 50 lines) ≡ take 50 (line ∷ lines)
unfolding log_event
log_event-take line lines = elim (Bool-cases (ltb 50 (length (line ∷ take 50 lines)))) [
  | inl e ↦
      let n = length-take 50 lines in
      let full : length (line ∷ take 50 lines) ≡ suc 50 = ground arith in
      rw e (
        pop-take 50 (line ∷ take 50 lines) full
        ∙ ap (◌∷◌ line) (take-take 49 50 lines (omega arith)))
  | inr e ↦
      let n = length-take 50 lines in
      let short : length lines ≤ 49 = ground arith in
      rw e (
        ap (◌∷◌ line)
          (take_of_length-le 50 lines (omega arith) ∙ sym (take_of_length-le 49 lines short)))
]

on_event-take :
    (o : Option Text) (lines : List Text) → log_line o (take 50 lines) ≡ take 50 (add_line o lines)
on_event-take none lines = refl
on_event-take (some line) lines = log_event-take line lines

-- After any events the dashboard shows the newest 50 of all lines, the newest first.
pub on_events-newest :
    (es : List DomainEvent) (lines : List Text)
    → on_events es (take 50 lines) ≡ take 50 (lines_of es lines)
unfolding on_events on_event
on_events-newest [] lines = refl
on_events-newest (e ∷ es) lines =
    ap (on_events es) (on_event-take (line_of e) lines)
    ∙ on_events-newest es (add_line (line_of e) lines)
