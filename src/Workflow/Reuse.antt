-- ===== src/Workflow/Reuse.antt =====
-- Deduplication by signature: `findReusableWorkflow` and `submitWorkflow`.
pub mod Submission
use agent_diaries_core.Prelude.{
  ◌≤◌, ◌≡◌, refl, ap, Bool, true, false, List, [], ◌∷◌, Option, none, some, arith, Text, All, all,
  filter, leb, Bool-cases, inl, inr, Text-discrete, Memᴰ,
}
use agent_diaries_core.JsMap
use mathlib.Core.List.Memᴰ
use agent_diaries_core.Shared.{WorkflowRecord, completed, workflow_reused}
use agent_diaries_core.Shared.Effect.{Result, ok}
use agent_diaries_core.Memory.Persistence.{meets, list_workflows, same_text}
use agent_diaries_core.Workflow.Domain.{World}
use agent_diaries_core.Workflow.Repository.{
  insert_newest, newest_first, reusable_by, reuse_first, find_reusable_workflow,
}
use agent_diaries_core.Workflow.Coordinator

-- The first of a list is none of them older.
abbrev pub IsNewest : WorkflowRecord → List WorkflowRecord → Type 0
IsNewest wf list = All (λ x. x.created_at ≤ wf.created_at) list

-- The newest of the workflows, the earlier one of two of the same time.
pub data Chosen (list : List WorkflowRecord) : Option WorkflowRecord → Type 0 where
  nothing : list ≡ [] → Chosen list none
  newest : (wf : WorkflowRecord) → Memᴰ wf list → IsNewest wf list → Chosen list (some wf)

pub first : List WorkflowRecord → Option WorkflowRecord
first [] = none
first (x ∷ xs) = some x

IsNewest-le :
    (a b : WorkflowRecord) (list : List WorkflowRecord)
    → a.created_at ≤ b.created_at
    → IsNewest a list
    → IsNewest b list
IsNewest-le a b [] l h = tt
IsNewest-le a b (x ∷ xs) l (p, h) = (omega arith, IsNewest-le a b xs l h)

first-insert_newest :
    (x : WorkflowRecord) (xs ys : List WorkflowRecord)
    → Chosen xs (first ys)
    → Chosen (x ∷ xs) (first (insert_newest x ys))
unfolding first insert_newest
first-insert_newest x xs [] (nothing e) = newest x (Memᴰ.head refl) (omega arith, rw e tt)
first-insert_newest x xs (y ∷ ys) (newest wf m n) =
    elim (Bool-cases (leb y.created_at x.created_at)) [
      | inl l ↦ rw l (newest x (Memᴰ.head refl) (omega arith, IsNewest-le y x xs (ground arith) n))
      | inr l ↦ rw l (newest y (Memᴰ.tail m) (ground arith, n))
    ]

first-newest_first : (xs : List WorkflowRecord) → Chosen xs (first (newest_first xs))
unfolding first newest_first
first-newest_first [] = nothing refl
first-newest_first (x ∷ xs) = first-insert_newest x xs (newest_first xs) (first-newest_first xs)

-- A completed workflow with this signature.
abbrev pub IsReusable : Text → WorkflowRecord → Type 0
IsReusable signature wf = wf.signature ≡ some signature × wf.state ≡ completed

same_text-true : (a b : Text) → same_text a b ≡ true → a ≡ b
same_text-true a b e = elim (Text-discrete a b) [ yes p ↦ p | no p ↦ absurd (ground arith) ]

meets-IsReusable :
    (signature : Text) (wf : WorkflowRecord)
    → all (meets wf) (reusable_by signature) ≡ true
    → IsReusable signature wf
unfolding meets
meets-IsReusable signature wf e = ground arith

IsReusable-meets :
    (signature : Text) (wf : WorkflowRecord)
    → IsReusable signature wf
    → all (meets wf) (reusable_by signature) ≡ true
unfolding meets
IsReusable-meets signature wf (s, c) = ground arith

abbrev pub stored_workflows : World → List WorkflowRecord
stored_workflows w = JsMap.values w.db.workflows

-- What the look-up of a reusable workflow comes to.
pub data Reuse (signature : Text) (w : World)
    : World × Result (Option WorkflowRecord) → Type 0 where
  none_stored :
      All (λ x. ¬ IsReusable signature x) (stored_workflows w) → Reuse signature w (w, ok none)
  reused :
      (wf : WorkflowRecord)
      → Memᴰ wf (stored_workflows w)
      → IsReusable signature wf
      → All (λ x. IsReusable signature x → x.created_at ≤ wf.created_at) (stored_workflows w)
      → Reuse signature w
          (record w { events = workflow_reused wf.id signature ∷ w.events }, ok (some wf))

module _ (signature : Text) where
  test : WorkflowRecord → Bool
  test wf = all (meets wf) (reusable_by signature)

  in_cons :
      (x y : WorkflowRecord) (zs : List WorkflowRecord) {ys : List WorkflowRecord}
      → IsReusable signature y
      → (Memᴰ x zs → Memᴰ x ys × IsReusable signature x)
      → Memᴰ x (y ∷ zs)
      → Memᴰ x (y ∷ ys) × IsReusable signature x
  in_cons x y zs r h (Memᴰ.head e) = (Memᴰ.head e, rw e r)
  in_cons x y zs r h (Memᴰ.tail m) = let (n, q) = h m in (Memᴰ.tail n, q)

  not_met : (y : WorkflowRecord) → test y ≡ false → ¬ IsReusable signature y
  unfolding test
  not_met y e r = let k = IsReusable-meets signature y r in cc

  filter-Memᴰ :
      (x : WorkflowRecord) (xs : List WorkflowRecord)
      → Memᴰ x (filter test xs)
      → Memᴰ x xs × IsReusable signature x
  unfolding test
  filter-Memᴰ x [] m = absurd (Memᴰ.not-nil m)
  filter-Memᴰ x (y ∷ ys) m = elim (Bool-cases (all (meets y) (reusable_by signature))) [
    | inl e ↦
        in_cons x y (filter test ys) (meets-IsReusable signature y e) (filter-Memᴰ x ys) (rw e at m)
    | inr e ↦ let (n, r) = filter-Memᴰ x ys (rw e at m) in (Memᴰ.tail n, r)
  ]

  filter-IsNewest :
      (wf : WorkflowRecord) (xs : List WorkflowRecord)
      → IsNewest wf (filter test xs)
      → All (λ x. IsReusable signature x → x.created_at ≤ wf.created_at) xs
  unfolding test
  filter-IsNewest wf [] h = tt
  filter-IsNewest wf (y ∷ ys) h = elim (Bool-cases (all (meets y) (reusable_by signature))) [
    | inl e ↦ let (l, k) = rw e at h in (λ _. l, filter-IsNewest wf ys k)
    | inr e ↦ (λ r. absurd (not_met y e r), filter-IsNewest wf ys (rw e at h))
  ]

  filter-nothing :
      (xs : List WorkflowRecord) → filter test xs ≡ [] → All (λ x. ¬ IsReusable signature x) xs
  unfolding test
  filter-nothing [] h = tt
  filter-nothing (y ∷ ys) h = elim (Bool-cases (all (meets y) (reusable_by signature))) [
    | inl e ↦ let k = rw e at h in absurd cc
    | inr e ↦ (not_met y e, filter-nothing ys (rw e at h))
  ]

  reuse_first-Reuse :
      (w : World) (ys : List WorkflowRecord)
      → Chosen (filter test (stored_workflows w)) (first ys)
      → Reuse signature w (reuse_first signature ys w)
  unfolding first reuse_first
  reuse_first-Reuse w [] (nothing e) = none_stored (filter-nothing (stored_workflows w) e)
  reuse_first-Reuse w (y ∷ ys) (newest _ m n) =
      let (stored, reusable) = filter-Memᴰ y (stored_workflows w) m in
      reused y stored reusable (filter-IsNewest y (stored_workflows w) n)

-- The look-up by a signature answers a stored, completed workflow of this signature, the newest of
-- them, and announces it; without one it answers none, and in both cases it stores nothing.
pub find_reusable_workflow-Reuse :
    (signature : Text) (w : World) → Reuse signature w (find_reusable_workflow signature w)
unfolding find_reusable_workflow list_workflows test
find_reusable_workflow-Reuse signature w =
    let list = filter (test signature) (stored_workflows w) in
    reuse_first-Reuse signature w (newest_first list) (first-newest_first list)
