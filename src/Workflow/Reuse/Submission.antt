-- ===== src/Workflow/Reuse/Submission.antt =====
-- A submission that a reusable workflow answers.
use agent_diaries_core.Prelude.{
  ℕ, ◌≤◌, ◌≡◌, refl, sym, ap, subst, List, [], ◌∷◌, Option, some, Text, All, Memᴰ,
}
use mathlib.Core.List.Memᴰ
use agent_diaries_core.Shared.{Value, WorkflowRecord}
use agent_diaries_core.Shared.Effect.{Result, ok, bind-ok}
use agent_diaries_core.Workflow.Domain.{Env, World, append_event, id_or_uuid, time_or_now}
use agent_diaries_core.Workflow.Repository.{Options, find_reusable_workflow}
use agent_diaries_core.Workflow.Coordinator
use agent_diaries_core.Workflow.Coordinator.{Payloads}
use agent_diaries_core.Workflow.Reuse.{
  IsReusable, Reuse, none_stored, reused, stored_workflows, find_reusable_workflow-Reuse,
}

All-Memᴰ :
    (P : WorkflowRecord → Type 0) {x : WorkflowRecord} (xs : List WorkflowRecord)
    → All P xs
    → Memᴰ x xs
    → P x
All-Memᴰ P (y ∷ ys) (p, h) (Memᴰ.head e) = subst P (sym e) p
All-Memᴰ P (y ∷ ys) (p, h) (Memᴰ.tail m) = All-Memᴰ P ys h m
All-Memᴰ P [] h m = absurd (Memᴰ.not-nil m)

-- A completed workflow of the signature is answered, no older than `x`, and none is stored.
abbrev pub IsReuse : Text → WorkflowRecord → World → World × Result WorkflowRecord → Type 0
IsReuse signature x w p =
    (wf : WorkflowRecord) × IsReusable signature wf
    × x.created_at ≤ wf.created_at
    × (p.1 ≡ ok wf)
    × (p.0.db.workflows ≡ w.db.workflows)

module _ (env : Env) (payloads : Payloads) (name : Text) (payload : Value) (o : Options) (c : ℕ)
    (cs : Text) where
  submit_signed-IsReuse :
      (x : WorkflowRecord) (w : World) (p : World × Result (Option WorkflowRecord))
      → find_reusable_workflow (c ∷ cs) w ≡ p
      → Reuse (c ∷ cs) w p
      → Memᴰ x (stored_workflows w)
      → IsReusable (c ∷ cs) x
      → IsReuse
          (c ∷ cs)
          x
          w
          (Coordinator.submit_signed env payloads name payload o (some (c ∷ cs)) w)
  unfolding Coordinator.submit_signed Coordinator.reuse_or_create append_event id_or_uuid
      time_or_now
  submit_signed-IsReuse x w p e (none_stored h) m r =
      absurd (All-Memᴰ (λ y. ¬ IsReusable (c ∷ cs) y) (stored_workflows w) h m r)
  submit_signed-IsReuse x w p e (reused wf k q h) m r =
      let ends =
        bind-ok (find_reusable_workflow (c ∷ cs))
          (Coordinator.reuse_or_create env payloads name payload o (c ∷ cs)) e in
      (
        wf,
        q,
        All-Memᴰ (λ y. IsReusable (c ∷ cs) y → y.created_at ≤ wf.created_at) (stored_workflows w) h
            m r,
        ap (λ p. p.1) ends,
        ap (λ p. p.0.db.workflows) ends,
      )

-- A submission under the signature of a completed workflow answers a completed workflow of that
-- signature, no older than the given one, and creates none: the stored workflows stay as they are.
pub submit_workflow-reuses :
    (env : Env) (payloads : Payloads) (name : Text) (payload : Value) (o : Options) (c : ℕ)
    (cs : Text) (x : WorkflowRecord) (w : World)
    → o.signature ≡ some (c ∷ cs)
    → Memᴰ x (stored_workflows w)
    → IsReusable (c ∷ cs) x
    → IsReuse (c ∷ cs) x w (Coordinator.submit_workflow env payloads name payload o w)
unfolding Coordinator.submit_workflow
submit_workflow-reuses env payloads name payload o c cs x w e m r =
    subst (λ s. IsReuse (c ∷ cs) x w (Coordinator.submit_signed env payloads name payload o s w))
      (sym e)
      (submit_signed-IsReuse env payloads name payload o c cs x w _ refl
        (find_reusable_workflow-Reuse (c ∷ cs) w) m r)
