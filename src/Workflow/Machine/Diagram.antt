-- ===== src/Workflow/Machine/Diagram.antt =====
-- The diagram of the transitions that the machine lets through.
use agent_diaries_core.Prelude.{◌≡◌, refl, ◌≢◌, ◌⊎◌, true, arith}
use agent_diaries_core.Shared.{
  WorkflowState, queued, claimed, running, waiting, completed, failed, cancelled, expired,
}
use agent_diaries_core.Workflow.Machine.{can_transition, is_terminal}

-- Transitions, one after the other.
pub data Reaches (s : WorkflowState) : WorkflowState → Type 0 where
  here : Reaches s s
  then : {t u : WorkflowState} → Reaches s t → can_transition t u ≡ true → Reaches s u

-- A completed or cancelled workflow.
abbrev pub IsFinal : WorkflowState → Type 0
IsFinal s = (s ≡ completed) ⊎ (s ≡ cancelled)

final_step : (s t : WorkflowState) → IsFinal s → can_transition s t ≡ true → t ≡ s
unfolding can_transition
final_step s t f e = ground arith

-- Nothing leads out of a completed or cancelled workflow.
pub Reaches-final : {s t : WorkflowState} → IsFinal s → Reaches s t → t ≡ s
Reaches-final f here = refl
Reaches-final {s} f (then {t = t} {u = u} r e) =
    let stays : t ≡ s = Reaches-final f r in final_step s u f (rw stays at e)

by_claim : (s : WorkflowState) → can_transition s claimed ≡ true → Reaches s completed
unfolding can_transition
by_claim s e = then (then here e) refl

-- Every workflow that is not cancelled can still be completed.
pub Reaches-completed : (s : WorkflowState) → s ≢ cancelled → Reaches s completed
unfolding can_transition
Reaches-completed cancelled h = absurd (h refl)
Reaches-completed completed h = here
Reaches-completed running h = then here refl
Reaches-completed waiting h = then {t = running} (then here refl) refl
Reaches-completed s h = by_claim s refl

-- A state that `isTerminal` accepts is left only from `FAILED` and `EXPIRED`, for `QUEUED` or
-- `CLAIMED`; `COMPLETED` and `CANCELLED` are not left.
pub terminal_exits :
    (s t : WorkflowState)
    → is_terminal s ≡ true
    → can_transition s t ≡ true
    → (t ≡ s) ⊎ (((s ≡ failed) ⊎ (s ≡ expired)) × ((t ≡ queued) ⊎ (t ≡ claimed)))
unfolding is_terminal can_transition
terminal_exits s t e h = ground arith
