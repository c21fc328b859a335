-- ===== src/Diary/Invariant/Batches.antt =====
-- `batchClaimTasks` keeps the invariant.
use agent_diaries_core.Prelude.{
  ℕ, ◌≡◌, refl, sym, ◌∙◌, subst, List, [], ◌∷◌, Option, Text, arith, length-take,
}
use agent_diaries_core.Shared.{TaskRecord, AgentState, Error}
use agent_diaries_core.Shared.Effect.{Result, ok, err, Preserves, bind-ok, bind-err}
use agent_diaries_core.Diary.{
  Config, World, limit, signature_of, or_else, loaded, probe, Probe, held, free,
}
use agent_diaries_core.Diary.Claims.{finish_batch, batch_loop, add_to_batch, batch_claim_tasks}
use agent_diaries_core.Diary.Records.{IsFree, IsDistinct, take-IsDistinct}
use agent_diaries_core.Diary.Probing.{
  loaded-saved, loaded-of-store, Vacated-room, vacant, taken, hook_failed, probe-Probed,
}
use agent_diaries_core.Diary.Invariant.{Valid, new_claim-signature}

-- The batch so far has no signature twice.
abbrev IsDistinctBatch : AgentState × List Text → Type 0
IsDistinctBatch r = IsDistinct r.0.history

add_to_batch-IsDistinct :
    (c : Config) (ttl : Option ℕ) (now : ℕ) (title : Text) (s : AgentState) (claimed : List Text)
    (kept : List TaskRecord)
    → IsFree (signature_of c title) kept
    → IsDistinct kept
    → IsDistinctBatch (add_to_batch c ttl now title s claimed (free kept))
unfolding add_to_batch
add_to_batch-IsDistinct c ttl now title s claimed kept f d = (
  subst (λ x. IsFree x kept) (sym (new_claim-signature title (signature_of c title) now ttl)) f,
  d,
)

-- The loop writes nothing, and ends with a batch that has no signature twice, or throws.
data BatchOutcome (w : World) (p : World × Result (AgentState × List Text)) : Type 0 where
  collected :
      (v : World) (r : AgentState × List Text)
      → v.store ≡ w.store
      → IsDistinctBatch r
      → p ≡ (v, ok r)
      → BatchOutcome w p
  stopped : (v : World) (e : Error) → v.store ≡ w.store → p ≡ (v, err e) → BatchOutcome w p

BatchOutcome-after :
    {v w : World} {p : World × Result (AgentState × List Text)}
    (q : World × Result (AgentState × List Text))
    → v.store ≡ w.store
    → p ≡ q
    → BatchOutcome v q
    → BatchOutcome w p
BatchOutcome-after q s e (collected u r k d f) = collected u r (k ∙ s) d (e ∙ f)
BatchOutcome-after q s e (stopped u x k f) = stopped u x (k ∙ s) (e ∙ f)

batch_loop-outcome :
    (c : Config) (ttl : Option ℕ) (now : ℕ) (titles : List Text) (r : AgentState × List Text)
    (w : World)
    → IsDistinctBatch r
    → BatchOutcome w (batch_loop c ttl now titles r w)
unfolding batch_loop
batch_loop-outcome c ttl now [] r w d = collected w r refl d refl
batch_loop-outcome c ttl now (title ∷ titles) (s, claimed) w d =
    let look = probe c (signature_of c title) now s.history in
    let rest =
      λ (p : Probe). batch_loop c ttl now titles (add_to_batch c ttl now title s claimed p) in
    elim (probe-Probed c (signature_of c title) now s.history w) [
      | vacant v kept q k e ↦
          let (f, d', l) = Vacated-room k d in
          BatchOutcome-after (rest (free kept) v) q (bind-ok look rest e) (
            batch_loop-outcome c ttl now titles (add_to_batch c ttl now title s claimed (free kept))
              v (add_to_batch-IsDistinct c ttl now title s claimed kept f d'))
      | taken r f l e ↦ BatchOutcome-after (rest (held r) w) refl (bind-ok look rest e) (
          batch_loop-outcome c ttl now titles (add_to_batch c ttl now title s claimed (held r)) w d)
      | hook_failed r f o v x q e ↦ stopped v x q (bind-err look rest e)
    ]

finish_batch-IsValid :
    (c : Config) (now : ℕ) (r : AgentState × List Text) (w : World)
    → IsDistinctBatch r
    → Valid c w
    → Valid c (finish_batch c now r w).0
unfolding finish_batch
finish_batch-IsValid c now (s, []) w d i = i
finish_batch-IsValid c now (s, title ∷ claimed) w d i = rw loaded-saved (record {
  distinct = take-IsDistinct (limit c) s.history d;
  bounded = omega (arith, length-take (limit c) s.history);
  indexed = refl;
})

-- `batchClaimTasks` keeps the invariant.
pub batch_claim_tasks-IsValid :
    (c : Config) (titles : List Text) (ttl : Option ℕ) (now : ℕ)
    → Preserves (Valid c) (batch_claim_tasks c titles ttl now)
unfolding batch_claim_tasks
batch_claim_tasks-IsValid c titles ttl now w i =
    let ttl_ms = or_else ttl c.default_ttl_ms in
    let loop = batch_loop c ttl_ms now titles (loaded c w, []) in
    let end = finish_batch c now in
    elim (batch_loop-outcome c ttl_ms now titles (loaded c w, []) w i.distinct) [
      | collected v r k d e ↦
          rw (bind-ok loop end e)
            (finish_batch-IsValid c now r v d (rw (loaded-of-store c v w k) i))
      | stopped v x k e ↦ rw (bind-err loop end e, loaded-of-store c v w k) i
    ]
