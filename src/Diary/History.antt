-- ===== src/Diary/History.antt =====
-- Whole histories of an agent: the calls of the methods, one after the other under the lock.
use agent_diaries_core.Prelude.{ℕ, ◌≡◌, refl, List, [], true, false, Option, Text, arith}
use agent_diaries_core.JsMap
use agent_diaries_core.Shared.{AgentState}
use agent_diaries_core.Shared.Effect.{M, Preserves}
use agent_diaries_core.Diary.{Config, World, loaded, or_empty, empty_state}
use agent_diaries_core.Diary.Claims.{Times, claim_task, batch_claim_tasks, execute_once}
use agent_diaries_core.Diary.Outcomes.{write_task_result, fail_task, delete_task}
use agent_diaries_core.Diary.Upkeep.{prune_expired_tasks, import_history, clear_history}
use agent_diaries_core.Diary.Records.{IsDistinct}
use agent_diaries_core.Diary.Invariant.{
  IsValid, Valid, claim_task-IsValid, write_task_result-IsValid, fail_task-IsValid,
  delete_task-IsValid,
}
use agent_diaries_core.Diary.Invariant.Runs.{execute_once-IsValid}
use agent_diaries_core.Diary.Invariant.Batches.{batch_claim_tasks-IsValid}
use agent_diaries_core.Diary.Invariant.Upkeep.{
  prune_expired_tasks-IsValid, import_history-IsValid, import_history-restores,
  clear_history-IsValid,
}

-- A fresh storage.
abbrev pub fresh_world : World
fresh_world = record { store = []; updates = []; expirations = [] }

-- One call of a method that writes, whatever it answers and also where it throws.
pub data Step (c : Config) (w v : World) : Type 1 where
  claims :
      (title : Text) (ttl : Option ℕ) (now : ℕ) → v ≡ (claim_task c title ttl now w).0 → Step c w v
  claims_batch :
      (titles : List Text) (ttl : Option ℕ) (now : ℕ)
      → v ≡ (batch_claim_tasks c titles ttl now w).0
      → Step c w v
  executes :
      {T : Type 0} (stringify : T → Option Text) (title : Text) (fn : M World T)
      → Preserves (Valid c) fn
      → (ttl : Option ℕ) (t : Times) → v ≡ (execute_once stringify c title fn ttl t w).0
      → Step c w v
  writes :
      (title : Text) (result : Option Text) (ttl : Option ℕ) (now : ℕ)
      → v ≡ (write_task_result c title result ttl now w).0
      → Step c w v
  fails :
      (title : Text) (reason : Option Text) (now : ℕ)
      → v ≡ (fail_task c title reason now w).0
      → Step c w v
  deletes : (title : Text) → v ≡ (delete_task c title w).0 → Step c w v
  prunes : (now : ℕ) → v ≡ (prune_expired_tasks c now w).0 → Step c w v
  merges :
      (snapshot : AgentState)
      → IsDistinct snapshot.history
      → v ≡ (import_history c snapshot true w).0
      → Step c w v
  restores :
      (snapshot : AgentState)
      → IsValid c snapshot
      → v ≡ (import_history c snapshot false w).0
      → Step c w v
  clears : v ≡ (clear_history c w).0 → Step c w v

pub data Reach (c : Config) (w : World) : World → Type 1 where
  here : Reach c w w
  next : {u v : World} → Reach c w u → Step c u v → Reach c w v

Step-Valid : (c : Config) {w v : World} → Step c w v → Valid c w → Valid c v
Step-Valid c {w} {v} (claims title ttl now e) i = rw e (claim_task-IsValid c title ttl now w i)
Step-Valid c {w} {v} (claims_batch titles ttl now e) i =
    rw e (batch_claim_tasks-IsValid c titles ttl now w i)
Step-Valid c {w} {v} (executes stringify title fn quiet ttl t e) i =
    rw e (execute_once-IsValid stringify c title fn quiet ttl t w i)
Step-Valid c {w} {v} (writes title result ttl now e) i =
    rw e (write_task_result-IsValid c title result ttl now w i)
Step-Valid c {w} {v} (fails title reason now e) i = rw e (fail_task-IsValid c title reason now w i)
Step-Valid c {w} {v} (deletes title e) i = rw e (delete_task-IsValid c title w i)
Step-Valid c {w} {v} (prunes now e) i = rw e (prune_expired_tasks-IsValid c now w i)
Step-Valid c {w} {v} (merges snapshot d e) i = rw e (import_history-IsValid c snapshot d w i)
Step-Valid c {w} {v} (restores snapshot d e) i = rw (e, import_history-restores c snapshot w d) d
Step-Valid c {w} {v} (clears e) i = rw e (clear_history-IsValid c w i)

fresh_world-Valid : (c : Config) → Valid c fresh_world
unfolding loaded or_empty empty_state JsMap.get
fresh_world-Valid c = record { distinct = tt; bounded = omega arith; indexed = refl }

Reach-Valid : (c : Config) {w v : World} → Valid c w → Reach c w v → Valid c v
Reach-Valid c i here = i
Reach-Valid c i (next r s) = Step-Valid c s (Reach-Valid c i r)

-- After calls on a fresh storage, `recordReuse` not among them, the history holds no signature twice
-- and no more records than the limit, and the index of seen signatures lists its signatures, if the
-- functions run by `executeOnce` keep this, merged snapshots hold no signature twice, and restored
-- ones are valid already.
pub history-Valid : (c : Config) {v : World} → Reach c fresh_world v → Valid c v
history-Valid c r = Reach-Valid c (fresh_world-Valid c) r
