-- ===== src/Diary/Invariant/Upkeep.antt =====
-- `pruneExpiredTasks`, `importHistory` and `clearHistory` keep the invariant.
use agent_diaries_core.Prelude.{
  ℕ, ◌≡◌, refl, List, [], ◌∷◌, ◌++◌, Bool, true, false, not, arith, Text, Text-discrete,
  length-take, take_of_length-le, filter, Bool-cases, inl, inr,
}
use agent_diaries_core.Shared.{TaskRecord, AgentState}
use agent_diaries_core.Shared.Effect.{return, Preserves, Preserves-bind}
use agent_diaries_core.Diary.{
  Config, World, limit, empty_state, is_expired, loaded, saved, signatures, call_hook,
}
use agent_diaries_core.Diary.Records.{IsFree, IsDistinct, take-IsDistinct, filter-IsFree}
use agent_diaries_core.Diary.Probing.{
  loaded-saved, loaded-of-store, passed, threw, call_hook-Hooked,
}
use agent_diaries_core.Diary.Upkeep.{
  has_signature, merged, call_hooks, write_pruned, prune_expired_tasks, import_history,
  clear_history,
}
use agent_diaries_core.Diary.Invariant.{IsValid, Valid, filtered-IsValid}

call_hook-Valid : (c : Config) (r : TaskRecord) → Preserves (Valid c) (call_hook c r)
call_hook-Valid c r w i = elim (call_hook-Hooked c r w) [
  | passed v q e ↦ rw (e, loaded-of-store c v w q) i
  | threw v x q e ↦ rw (e, loaded-of-store c v w q) i
]

call_hooks-Valid : (c : Config) (rs : List TaskRecord) → Preserves (Valid c) (call_hooks c rs)
unfolding call_hooks
call_hooks-Valid c [] w i = i
call_hooks-Valid c (r ∷ rs) w i =
    Preserves-bind (Valid c) (call_hook c r) (λ _. call_hooks c rs) (call_hook-Valid c r)
      (λ _. call_hooks-Valid c rs) w i

write_pruned-Valid :
    (c : Config) (p : TaskRecord → Bool) (expired : List TaskRecord) (w : World)
    → Valid c w
    → Valid c (write_pruned c (loaded c w) (filter p (loaded c w).history) expired w).0
unfolding write_pruned
write_pruned-Valid c p [] w i = i
write_pruned-Valid c p (r ∷ rs) w i =
    Preserves-bind (Valid c) (call_hooks c (r ∷ rs)) (λ _. return (r ∷ rs))
      (call_hooks-Valid c (r ∷ rs)) (λ _ v j. j)
      (saved c
        (record (loaded c w) {
          history = filter p (loaded c w).history;
          seen_signatures = signatures (filter p (loaded c w).history);
        })
        w)
      (rw loaded-saved (filtered-IsValid c p (loaded c w) i))

-- Pruning keeps the invariant, also where a callback throws.
pub prune_expired_tasks-IsValid :
    (c : Config) (now : ℕ) → Preserves (Valid c) (prune_expired_tasks c now)
unfolding prune_expired_tasks
prune_expired_tasks-IsValid c now w =
    write_pruned-Valid c (λ r. not (is_expired r now))
      (filter (λ r. is_expired r now) (loaded c w).history) w

append-IsFree : (s : Text) (g h : List TaskRecord) → IsFree s g → IsFree s h → IsFree s (g ++ h)
append-IsFree s [] h f k = k
append-IsFree s (r ∷ g) h f k = (f.0, append-IsFree s g h f.1 k)

IsFree-has_signature : (h : List TaskRecord) (s : Text) → has_signature h s ≡ false → IsFree s h
IsFree-has_signature [] s e = tt
IsFree-has_signature (r ∷ h) s e = elim (Text-discrete r.signature s) [
  | yes p ↦ absurd (ground arith)
  | no p ↦ (p, IsFree-has_signature h s (ground arith))
]

unseen : List TaskRecord → List TaskRecord → List TaskRecord
unseen h = filter (λ r. not (has_signature h r.signature))

-- What a merge adds is distinct from what is there.
unseen-IsDistinct :
    (h g : List TaskRecord) → IsDistinct h → IsDistinct g → IsDistinct (unseen h g ++ h)
unfolding unseen
unseen-IsDistinct h [] d e = d
unseen-IsDistinct h (r ∷ g) d e = elim (Bool-cases (has_signature h r.signature)) [
  | inl old ↦ rw old (unseen-IsDistinct h g d e.1)
  | inr new ↦ rw new (
    append-IsFree r.signature (unseen h g) h
        (filter-IsFree r.signature (λ x. not (has_signature h x.signature)) g e.0)
        (IsFree-has_signature h r.signature new),
    unseen-IsDistinct h g d e.1,
  )
]

-- A merge keeps the invariant if the snapshot has no signature twice.
pub import_history-IsValid :
    (c : Config) (snapshot : AgentState)
    → IsDistinct snapshot.history
    → Preserves (Valid c) (import_history c snapshot true)
unfolding import_history merged unseen
import_history-IsValid c snapshot d w i = rw loaded-saved (record {
  distinct =
      take-IsDistinct (limit c)
        (unseen (loaded c w).history snapshot.history ++ (loaded c w).history)
        (unseen-IsDistinct (loaded c w).history snapshot.history i.distinct d);
  bounded = omega (
    arith,
    length-take (limit c) (unseen (loaded c w).history snapshot.history ++ (loaded c w).history),
  );
  indexed = refl;
})

-- A restored snapshot that is valid is what the diary then holds.
pub import_history-restores :
    (c : Config) (snapshot : AgentState) (w : World)
    → IsValid c snapshot
    → loaded c (import_history c snapshot false w).0 ≡ snapshot
unfolding import_history
import_history-restores c snapshot w i =
    rw (loaded-saved, take_of_length-le (limit c) snapshot.history i.bounded)

pub clear_history-IsValid : (c : Config) → Preserves (Valid c) (clear_history c)
unfolding clear_history empty_state
clear_history-IsValid c w i =
    rw loaded-saved (record { distinct = tt; bounded = omega arith; indexed = refl })
