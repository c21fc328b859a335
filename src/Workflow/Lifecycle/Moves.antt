-- ===== src/Workflow/Lifecycle/Moves.antt =====
-- src/core/repositories/index.ts: the calls that move one workflow, with all their outcomes.
use agent_diaries_core.Prelude.{
  ℕ, ◌+◌, ◌≡◌, ◌≢◌, refl, sym, ◌∙◌, ap, ◌∷◌, Bool, Bool-cases, Option-cases, inl, inr, true, false,
  Option, none, some, Text,
}
use agent_diaries_core.Shared.{
  Value, Error, not_found, invalid_transition, WorkflowRecord, WorkflowState, claimed, completed,
  failed, cancelled, DomainEvent, workflow_completed, workflow_failed,
}
use agent_diaries_core.Shared.Effect.{M, Result, ok, err, return, ◌>>=◌, ◌>>◌, bind-ok, bind-err}
use agent_diaries_core.Memory.Persistence.{get_workflow, save_workflow}
use agent_diaries_core.Workflow.Domain.{Env, World, emit}
use agent_diaries_core.Workflow.Machine.{can_transition, validate_transition}
use agent_diaries_core.Workflow.Repository
use agent_diaries_core.Workflow.Lifecycle.Steps.{get-saved, get-saved_ne}

pub data Move : Type 0 where
  claims : Text → Move
  completes : Value → Move
  fails : Option Text → Move
  cancels : Move

abbrev pub target : Move → WorkflowState
target (claims worker_id) = claimed
target (completes result) = completed
target (fails reason) = failed
target cancels = cancelled

-- The method, which answers `true` where it returns nothing.
unfoldable pub perform : Env → Text → Move → M World Bool
unfolding Repository.claim_workflow Repository.complete_workflow Repository.fail_workflow
    Repository.cancel_workflow
perform env id (claims worker_id) = Repository.claim_workflow env id worker_id
perform env id (completes result) = Repository.complete_workflow env id result >> return true
perform env id (fails reason) = Repository.fail_workflow env id reason >> return true
perform env id cancels = Repository.cancel_workflow env id >> return true

-- The record after a move.
abbrev pub moved : Move → ℕ → WorkflowRecord → WorkflowRecord
moved (claims worker_id) now wf = record wf {
  state = claimed;
  updated_at = now;
  worker_id = some worker_id;
}
moved (completes result) now wf = record wf {
  state = completed;
  updated_at = now;
  result = result;
  completed_at = some now;
}
moved (fails reason) now wf = record wf { state = failed; updated_at = now; fail_reason = reason }
moved cancels now wf = record wf { state = cancelled; updated_at = now }

-- A claim of a workflow that is not there fails; the other moves throw.
abbrev pub missing : Text → Move → Result Bool
missing id (claims worker_id) = ok false
missing id m = err (not_found id)

pub data Decided (env : Env) (id : Text) (m : Move) (w : World) (p : World × Result Bool)
    : Type 0 where
  absent : get_workflow id w.db ≡ none → p ≡ (w, missing id m) → Decided env id m w p
  refused :
      (wf : WorkflowRecord)
      → get_workflow id w.db ≡ some wf
      → can_transition wf.state (target m) ≡ false
      → p ≡ (w, err (invalid_transition wf.state (target m)))
      → Decided env id m w p
  stored :
      (wf : WorkflowRecord)
      → get_workflow id w.db ≡ some wf
      → can_transition wf.state (target m) ≡ true
      → p.1 ≡ ok true
      → get_workflow id p.0.db ≡ some (moved m (env.time w.ticks) wf)
      → ((other : Text) → other ≢ id → get_workflow other p.0.db ≡ get_workflow other w.db)
      → Decided env id m w p

abbrev with_result : Value → ℕ → WorkflowRecord → WorkflowRecord
with_result result now wf = record wf { result = result; completed_at = some now }

abbrev with_reason : Option Text → ℕ → WorkflowRecord → WorkflowRecord
with_reason reason now wf = record wf { fail_reason = reason }

abbrev as_it_is : ℕ → WorkflowRecord → WorkflowRecord
as_it_is now wf = wf

-- What the methods other than a claim do after the look-up.
module _ (env : Env) (goal : WorkflowState) (edit : ℕ → WorkflowRecord → WorkflowRecord) (id : Text)
    (w : World) where
  abbrev find_and_move : M World (Unit {0})
  find_and_move = Repository.find_workflow id >>= Repository.move_found env goal edit id

  abbrev announced : DomainEvent → M World Bool
  announced event = (find_and_move >> emit event) >> return true

  not_there : get_workflow id w.db ≡ none → find_and_move w ≡ (w, err (not_found id))
  unfolding Repository.move_found
  not_there e = rw e refl

  not_allowed :
      (wf : WorkflowRecord)
      → get_workflow id w.db ≡ some wf
      → can_transition wf.state goal ≡ false
      → find_and_move w ≡ (w, err (invalid_transition wf.state goal))
  unfolding Repository.move_found Repository.move validate_transition
  not_allowed wf e f = rw (e, f) refl

  is_moved :
      (wf : WorkflowRecord)
      → get_workflow id w.db ≡ some wf
      → can_transition wf.state goal ≡ true
      → let now = env.time w.ticks in
        let new = edit now (record wf { state = goal; updated_at = now }) in
        find_and_move w ≡ (record w { ticks = w.ticks + 1; db = save_workflow new w.db }, ok tt)
  unfolding Repository.move_found Repository.move validate_transition
  is_moved wf e f = rw (e, f) refl

  announced-err :
      (event : DomainEvent) {x : Error}
      → find_and_move w ≡ (w, err x)
      → announced event w ≡ (w, err x)
  announced-err event e =
      bind-err (find_and_move >> emit event) (λ _. return true)
        (bind-err find_and_move (λ _. emit event) e)

  announced-ok :
      (event : DomainEvent) {u : World}
      → find_and_move w ≡ (u, ok tt)
      → announced event w ≡ (record u { events = event ∷ u.events }, ok true)
  announced-ok event e =
      bind-ok (find_and_move >> emit event) (λ _. return true)
        (bind-ok find_and_move (λ _. emit event) e)

absent-Decided :
    (env : Env) (id : Text) (m : Move) (w : World)
    → get_workflow id w.db ≡ none
    → Decided env id m w (perform env id m w)
unfolding perform Repository.claim_workflow Repository.complete_workflow Repository.fail_workflow
    Repository.cancel_workflow Repository.claim_found Repository.move_found
absent-Decided env id (claims worker_id) w e = absent e (rw e refl)
absent-Decided env id (completes result) w e = absent e (
    announced-err env completed (with_result result) id w (workflow_completed id result)
      (not_there env completed (with_result result) id w e))
absent-Decided env id (fails reason) w e = absent e (
    announced-err env failed (with_reason reason) id w (workflow_failed id reason)
      (not_there env failed (with_reason reason) id w e))
absent-Decided env id cancels w e = absent e (
    bind-err (find_and_move env cancelled as_it_is id w) (λ _. return true)
      (not_there env cancelled as_it_is id w e))

refused-Decided :
    (env : Env) (id : Text) (m : Move) (w : World) (wf : WorkflowRecord)
    → get_workflow id w.db ≡ some wf
    → can_transition wf.state (target m) ≡ false
    → Decided env id m w (perform env id m w)
unfolding perform Repository.claim_workflow Repository.complete_workflow Repository.fail_workflow
    Repository.cancel_workflow Repository.claim_found Repository.move_found Repository.move
    validate_transition
refused-Decided env id (claims worker_id) w wf e f = refused wf e f (rw (e, f) refl)
refused-Decided env id (completes result) w wf e f = refused wf e f (
    announced-err env completed (with_result result) id w (workflow_completed id result)
      (not_allowed env completed (with_result result) id w wf e f))
refused-Decided env id (fails reason) w wf e f = refused wf e f (
    announced-err env failed (with_reason reason) id w (workflow_failed id reason)
      (not_allowed env failed (with_reason reason) id w wf e f))
refused-Decided env id cancels w wf e f = refused wf e f (
    bind-err (find_and_move env cancelled as_it_is id w) (λ _. return true)
      (not_allowed env cancelled as_it_is id w wf e f))

-- What is stored is found again, and nothing else has changed.
saved-Decided :
    (env : Env) (id : Text) (m : Move) (w : World) (wf : WorkflowRecord) (p : World × Result Bool)
    → get_workflow id w.db ≡ some wf
    → can_transition wf.state (target m) ≡ true
    → (moved m (env.time w.ticks) wf).id ≡ id
    → (p.1 ≡ ok true) × (p.0.db ≡ save_workflow (moved m (env.time w.ticks) wf) w.db)
    → Decided env id m w p
saved-Decided env id m w wf p e f k (is, h) =
    let new = moved m (env.time w.ticks) wf in
    stored wf e f is (ap (get_workflow id) h ∙ get-saved new w.db k)
      (λ other n. ap (get_workflow other) h ∙ get-saved_ne new w.db (λ x. n (sym x ∙ k)))

both : {p : World × Result Bool} {u : World} → p ≡ (u, ok true) → (p.1 ≡ ok true) × (p.0.db ≡ u.db)
both e = (ap (λ p. p.1) e, ap (λ p. p.0.db) e)

stored-Decided :
    (env : Env) (id : Text) (m : Move) (w : World) (wf : WorkflowRecord)
    → get_workflow id w.db ≡ some wf
    → can_transition wf.state (target m) ≡ true
    → wf.id ≡ id
    → Decided env id m w (perform env id m w)
unfolding perform Repository.claim_workflow Repository.complete_workflow Repository.fail_workflow
    Repository.cancel_workflow Repository.claim_found Repository.move_found Repository.move
    validate_transition
stored-Decided env id (claims worker_id) w wf e f k =
    saved-Decided env id (claims worker_id) w wf _ e f k (rw (e, f) (refl, refl))
stored-Decided env id (completes result) w wf e f k =
    saved-Decided env id (completes result) w wf _ e f k (
      both (
        announced-ok env completed (with_result result) id w (workflow_completed id result)
          (is_moved env completed (with_result result) id w wf e f)))
stored-Decided env id (fails reason) w wf e f k = saved-Decided env id (fails reason) w wf _ e f k (
    both (
      announced-ok env failed (with_reason reason) id w (workflow_failed id reason)
        (is_moved env failed (with_reason reason) id w wf e f)))
stored-Decided env id cancels w wf e f k = saved-Decided env id cancels w wf _ e f k (
    both (
      bind-ok (find_and_move env cancelled as_it_is id w) (λ _. return true)
        (is_moved env cancelled as_it_is id w wf e f)))

-- A claim, completion, failure or cancellation of a workflow that is stored under its identifier
-- makes one transition that the state machine allows: the workflow is stored in its new state, with
-- what the call gives it and the time, and no other workflow changes. Where the machine does not
-- allow it the call throws that and changes nothing, and so it does for a workflow that is not
-- there, but that a claim answers false then.
pub perform-Decided :
    (env : Env) (id : Text) (m : Move) (w : World)
    → ((wf : WorkflowRecord) → get_workflow id w.db ≡ some wf → wf.id ≡ id)
    → Decided env id m w (perform env id m w)
perform-Decided env id m w keyed = elim (Option-cases (get_workflow id w.db)) [
  | inl e ↦ absent-Decided env id m w e
  | inr (wf, e) ↦ elim (Bool-cases (can_transition wf.state (target m))) [
    | inl f ↦ stored-Decided env id m w wf e f (keyed wf e)
    | inr f ↦ refused-Decided env id m w wf e f
  ]
]
