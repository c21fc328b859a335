-- ===== src/Workflow/Machine.antt =====
-- src/core/state/WorkflowStateMachine.ts
pub mod Diagram
use agent_diaries_core.Prelude.{ite, Bool, true, false, ◌||◌, List, [], ◌∷◌, any, if◌then◌else◌}
use agent_diaries_core.Shared.{
  WorkflowState, WorkflowState-discrete, created, queued, claimed, running, waiting, completed,
  failed, cancelled, expired, invalid_transition,
}
use agent_diaries_core.Shared.Effect.{M, return, throw}

-- `allowedTransitions`
unfoldable pub allowed_transitions : WorkflowState → List WorkflowState
allowed_transitions created = queued ∷ claimed ∷ running ∷ cancelled ∷ []
allowed_transitions queued = claimed ∷ running ∷ cancelled ∷ expired ∷ []
allowed_transitions claimed = running ∷ completed ∷ failed ∷ cancelled ∷ expired ∷ []
allowed_transitions running = waiting ∷ completed ∷ failed ∷ cancelled ∷ expired ∷ []
allowed_transitions waiting = running ∷ failed ∷ cancelled ∷ expired ∷ []
allowed_transitions completed = []
allowed_transitions failed = queued ∷ claimed ∷ []
allowed_transitions cancelled = []
allowed_transitions expired = queued ∷ claimed ∷ []

abbrev pub same_state : WorkflowState → WorkflowState → Bool
same_state s t = ite (WorkflowState-discrete s t) true false

unfoldable pub can_transition : WorkflowState → WorkflowState → Bool
unfolding allowed_transitions WorkflowState-discrete
can_transition from to = same_state from to || any (same_state to) (allowed_transitions from)

unfoldable pub validate_transition : {S : Type 0} → WorkflowState → WorkflowState → M S (Unit {0})
validate_transition from to =
    if can_transition from to then return tt else throw (invalid_transition from to)

unfoldable pub is_terminal : WorkflowState → Bool
unfolding WorkflowState-discrete
is_terminal s =
    same_state s completed || same_state s cancelled || same_state s failed || same_state s expired
