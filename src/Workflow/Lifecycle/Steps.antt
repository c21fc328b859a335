-- ===== src/Workflow/Lifecycle/Steps.antt =====
-- Each step of the coordinator keeps the worlds sound and moves workflows along the diagram.
use agent_diaries_core.Prelude.{
  ℕ, ◌+◌, ◌≤◌, ◌≡◌, refl, sym, ◌∙◌, ap, ◌≢◌, if_pos, true, Option, none, some, arith, Text,
  Text-discrete, Bool-cases, Option-cases, inl, inr,
}
use agent_diaries_core.JsMap
use agent_diaries_core.Shared.{
  Value, WorkflowRecord, WorkflowState, DomainEvent, workflow_claimed, workflow_completed,
  workflow_failed, completed, failed, cancelled, claimed,
}
use agent_diaries_core.Shared.Effect.{M, Preserves, Preserves-bind, kept-bind, return, ◌>>=◌, ◌>>◌}
use agent_diaries_core.Memory.Persistence.{Persistence, get_workflow, save_workflow}
use agent_diaries_core.Workflow.Domain.{Env, World, emit}
use agent_diaries_core.Workflow.Machine.{can_transition, validate_transition}
use agent_diaries_core.Workflow.Machine.Diagram.{then}
use agent_diaries_core.Workflow.Repository
use agent_diaries_core.Workflow.Lifecycle.{AreDistinct, IsSound, Follows, at}

pub get-saved :
    (new : WorkflowRecord) (p : Persistence) {id : Text}
    → new.id ≡ id
    → get_workflow id (save_workflow new p) ≡ some new
unfolding get_workflow save_workflow
get-saved new p {id} e =
    JsMap.get-set id new.id new p.workflows ∙ if_pos (Text-discrete new.id id) e _ _

pub get-saved_ne :
    (new : WorkflowRecord) (p : Persistence) {id : Text}
    → new.id ≢ id
    → get_workflow id (save_workflow new p) ≡ get_workflow id p
unfolding get_workflow save_workflow
get-saved_ne new p {id} ne = JsMap.get-set_ne id new.id new p.workflows ne

module _ (env : Env) (key : Text) (from : WorkflowState) where
  abbrev pub Along : World → Type 0
  Along w = IsSound env w × Follows key from w

  -- A step that leaves the workflows alone, and may use up identifiers.
  pub keeps-Along :
      (w v : World) → v.db.workflows ≡ w.db.workflows → w.ids ≤ v.ids → Along w → Along v
  unfolding get_workflow
  keeps-Along w v e l (s, at wf g r) = (
    record {
      keyed = λ id x h. s.keyed id x (ap (JsMap.get id) (sym e) ∙ h);
      fresh = λ n m. ap (JsMap.get (env.uuid n)) e ∙ s.fresh n (omega arith);
    },
    at wf (ap (JsMap.get key) e ∙ g) r,
  )

  emit-Along : (e : DomainEvent) → Preserves Along (emit e)
  emit-Along e w a = keeps-Along w _ refl (omega arith) a

  -- A workflow is stored over an earlier one.
  save-Along :
      (wf new : WorkflowRecord) (w : World)
      → get_workflow new.id w.db ≡ some wf
      → can_transition wf.state new.state ≡ true
      → Along w
      → Along (record w { db = save_workflow new w.db })
  save-Along wf new w g t (s, at x h r) = (
    record {
      keyed = λ id y e. elim (Text-discrete new.id id) [
        | yes p ↦ let q : some new ≡ some y = sym (get-saved new w.db p) ∙ e in cc
        | no p ↦ s.keyed id y (sym (get-saved_ne new w.db p) ∙ e)
      ];
      fresh = λ n l. elim (Text-discrete new.id (env.uuid n)) [
        | yes p ↦ let q : get_workflow new.id w.db ≡ none = rw p (s.fresh n l) in cc
        | no p ↦ get-saved_ne new w.db p ∙ s.fresh n l
      ];
    },
    elim (Text-discrete new.id key) [
      | yes p ↦ let old : x ≡ wf = cc in at new (get-saved new w.db p) (then r (rw old t))
      | no p ↦ at x (get-saved_ne new w.db p ∙ h) r
    ],
  )

  move-Along :
      (target : WorkflowState) (edit : ℕ → WorkflowRecord → WorkflowRecord) (wf : WorkflowRecord)
      → ((now : ℕ) (x : WorkflowRecord) → (edit now x).id ≡ x.id × (edit now x).state ≡ x.state)
      → (w : World) → get_workflow wf.id w.db ≡ some wf
      → Along w
      → Along (Repository.move env target edit wf w).0
  unfolding Repository.move validate_transition
  move-Along target edit wf same w g a = elim (Bool-cases (can_transition wf.state target)) [
    | inl legal ↦
        let moved : WorkflowRecord = record wf { state = target; updated_at = env.time w.ticks } in
        let new = edit (env.time w.ticks) moved in
        let v : World = record w { ticks = w.ticks + 1 } in
        rw legal (
          save-Along wf new v (rw (same (env.time w.ticks) moved).0 g)
            (rw (same (env.time w.ticks) moved).1 legal) (keeps-Along w v refl (omega arith) a))
    | inr illegal ↦ rw illegal a
  ]

  -- What the methods do with the workflow that they look up.
  found-Along :
      {A : Type 0} (id : Text) (f : Option WorkflowRecord → M World A)
      → ((w : World) → Along w → Along (f none w).0)
      → ((wf : WorkflowRecord) (w : World)
          → get_workflow wf.id w.db ≡ some wf
          → Along w
          → Along (f (some wf) w).0)
      → Preserves Along (Repository.find_workflow id >>= f)
  found-Along id f h k w a = elim (Option-cases (get_workflow id w.db)) [
    | inl e ↦ rw e (h w a)
    | inr (wf, e) ↦ rw e (k wf w (ap (λ k. get_workflow k w.db) (a.0.keyed id wf e) ∙ e) a)
  ]

  pub claim_workflow-Along :
      (id worker_id : Text) → Preserves Along (Repository.claim_workflow env id worker_id)
  unfolding Repository.claim_workflow Repository.claim_found get_workflow
  claim_workflow-Along id worker_id =
      found-Along id (Repository.claim_found env id worker_id) (λ w a. a)
        λ wf w g a.
          let edit : ℕ → WorkflowRecord → WorkflowRecord =
            λ now x. record x { worker_id = some worker_id } in
          kept-bind Along (Repository.move env claimed edit wf)
            (λ _. emit (workflow_claimed id worker_id) >> return true) w
            (move-Along claimed edit wf (λ now x. (refl, refl)) w g a)
            (λ _ v. keeps-Along v _ refl (omega arith))

  move_found-Along :
      (target : WorkflowState) (edit : ℕ → WorkflowRecord → WorkflowRecord) (id : Text)
      → ((now : ℕ) (x : WorkflowRecord) → (edit now x).id ≡ x.id × (edit now x).state ≡ x.state)
      → Preserves Along (Repository.find_workflow id >>= Repository.move_found env target edit id)
  unfolding Repository.move_found
  move_found-Along target edit id same =
      found-Along id (Repository.move_found env target edit id) (λ w a. a)
        (λ wf w g. move-Along target edit wf same w g)

  pub complete_workflow-Along :
      (id : Text) (result : Value) → Preserves Along (Repository.complete_workflow env id result)
  unfolding Repository.complete_workflow get_workflow
  complete_workflow-Along id result =
      let edit : ℕ → WorkflowRecord → WorkflowRecord =
        λ now wf. record wf { result = result; completed_at = some now } in
      Preserves-bind Along
        (Repository.find_workflow id >>= Repository.move_found env completed edit id)
        (λ _. emit (workflow_completed id result))
        (move_found-Along completed edit id (λ now x. (refl, refl)))
        (λ _. emit-Along (workflow_completed id result))

  pub fail_workflow-Along :
      (id : Text) (reason : Option Text) → Preserves Along (Repository.fail_workflow env id reason)
  unfolding Repository.fail_workflow get_workflow
  fail_workflow-Along id reason =
      let edit : ℕ → WorkflowRecord → WorkflowRecord =
        λ now wf. record wf { fail_reason = reason } in
      Preserves-bind Along
        (Repository.find_workflow id >>= Repository.move_found env failed edit id)
        (λ _. emit (workflow_failed id reason))
        (move_found-Along failed edit id (λ now x. (refl, refl)))
        (λ _. emit-Along (workflow_failed id reason))

  pub cancel_workflow-Along : (id : Text) → Preserves Along (Repository.cancel_workflow env id)
  unfolding Repository.cancel_workflow get_workflow
  cancel_workflow-Along id = move_found-Along cancelled (λ now wf. wf) id (λ now x. (refl, refl))

  pub create_workflow-Along :
      AreDistinct env
      → (name : Text) (payload : Value) (o : Repository.Options)
      → Preserves Along (Repository.create_workflow env name payload o)
  unfolding Repository.create_workflow Repository.new_workflow
  create_workflow-Along d name payload o w (s, at x h r) =
      let id = env.uuid w.ids in
      let new = Repository.new_workflow id name payload o (env.time w.ticks) in
      let unused : get_workflow id w.db ≡ none = s.fresh w.ids (omega arith) in
      (
        record {
          keyed = λ k y e. elim (Text-discrete id k) [
            | yes p ↦
                let q : some new ≡ some y = sym (get-saved new w.db p) ∙ e in
                let same : new ≡ y = cc in ap (λ z. z.id) (sym same) ∙ p
            | no p ↦ s.keyed k y (sym (get-saved_ne new w.db p) ∙ e)
          ];
          fresh = λ n l. elim (Text-discrete id (env.uuid n)) [
            | yes p ↦ let q : w.ids ≡ n = d w.ids n p in absurd (omega arith)
            | no p ↦ get-saved_ne new w.db p ∙ s.fresh n (omega arith)
          ];
        },
        elim (Text-discrete id key) [
          | yes p ↦
              let q : get_workflow key w.db ≡ none =
                ap (λ k. get_workflow k w.db) (sym p) ∙ unused in
              absurd cc
          | no p ↦ at x (get-saved_ne new w.db p ∙ h) r
        ],
      )
