-- ===== src/Diary/Claims.antt =====
-- src/diary.ts: `claimTask`, `batchClaimTasks` and `executeOnce`.
use agent_diaries_core.Prelude.{
  ℕ, ◌+◌, Bool, true, false, List, [], ◌∷◌, ◌++◌, Option, none, some, Text, take,
}
use agent_diaries_core.Shared.{TaskRecord, AgentState, Error, message, done, failed}
use agent_diaries_core.Shared.Effect.{M, return, throw, catch, ◌>>=◌, ◌>>◌}
use agent_diaries_core.Diary.{
  Config, World, limit, signature_of, or_else, read_diary, write_diary, find_record, modify_record,
  signatures, Probe, held, free, probe, new_claim, enter,
}

-- The end of `claimTask`, from what the look-up found.
unfoldable pub finish_claim : Config → Text → Option ℕ → ℕ → AgentState → Probe → M World Bool
finish_claim c title ttl now s (held r) = return false
finish_claim c title ttl now s (free h) = do
  let claim = new_claim title (signature_of c title) now (or_else ttl c.default_ttl_ms)
  write_diary c (enter c claim now s h)
  return true

unfoldable pub claim_task : Config → Text → Option ℕ → ℕ → M World Bool
unfolding finish_claim
claim_task c title ttl now = do
  s ← read_diary c
  p ← probe c (signature_of c title) now s.history
  finish_claim c title ttl now s p

-- A title of the batch: is it added to the history, and to the titles claimed?
unfoldable pub add_to_batch :
    Config → Option ℕ → ℕ → Text → AgentState → List Text → Probe → AgentState × List Text
add_to_batch c ttl now title s claimed (held r) = (s, claimed)
add_to_batch c ttl now title s claimed (free h) = (
  record s {
    history = new_claim title (signature_of c title) now ttl ∷ h;
    run_count = s.run_count + 1;
  },
  claimed ++ title ∷ [],
)

-- The loop of `batchClaimTasks`, over the titles, the state and the titles claimed so far.
unfoldable pub batch_loop :
    Config → Option ℕ → ℕ → List Text → AgentState × List Text → M World (AgentState × List Text)
unfolding add_to_batch
batch_loop c ttl now [] r = return r
batch_loop c ttl now (title ∷ titles) (s, claimed) =
    probe c (signature_of c title) now s.history >>= λ p.
    batch_loop c ttl now titles (add_to_batch c ttl now title s claimed p)

-- The batch is written once, and only if something was claimed.
unfoldable pub finish_batch : Config → ℕ → AgentState × List Text → M World (List Text)
finish_batch c now (s, []) = return []
finish_batch c now (s, title ∷ claimed) = do
  let kept = take (limit c) s.history
  write_diary c (record s { history = kept; seen_signatures = signatures kept; last_run = now })
  return (title ∷ claimed)

unfoldable pub batch_claim_tasks : Config → List Text → Option ℕ → ℕ → M World (List Text)
batch_claim_tasks c titles ttl now = do
  s ← read_diary c
  r ← batch_loop c (or_else ttl c.default_ttl_ms) now titles (s, [])
  finish_batch c now r

-- The clock at the claim, at the end of `fn`, and at the last write.
pub record Times : Type 0 where
  pub claimed : ℕ
  pub finished : ℕ
  pub stored : ℕ

-- A result of this call's `fn`, or the text stored by an earlier one.
pub data Answer (T : Type 0) : Type 0 where
  fresh : T → Answer T
  cached : Option Text → Answer T

unfoldable pub mark_failed : Text → ℕ → TaskRecord → TaskRecord
mark_failed reason now r = record r {
  status = some failed;
  fail_reason = some reason;
  timestamp = now;
}

-- The record of the claim is changed and the diary written, if the record is still there.
unfoldable pub edit_found :
    Config
    → Text
    → (TaskRecord → TaskRecord)
    → AgentState
    → ℕ
    → Option TaskRecord
    → M World (Unit {0})
edit_found c signature f s last_run none = return tt
edit_found c signature f s last_run (some _) =
    write_diary c (record s { history = modify_record signature f s.history; last_run = last_run })

unfoldable pub record_failure : Config → Text → Error → ℕ → M World (Unit {0})
unfolding edit_found
record_failure c signature e now = do
  s ← read_diary c
  edit_found c signature (mark_failed (message e) now) s s.last_run
      (find_record signature s.history)

unfoldable pub mark_done : Option Text → Option ℕ → ℕ → TaskRecord → TaskRecord
mark_done result ttl now r = record r {
  result = result;
  status = some done;
  timestamp = now;
  ttl_ms = or_else ttl r.ttl_ms;
}

unfoldable pub record_result : Config → Text → Option Text → Option ℕ → Times → M World (Unit {0})
unfolding edit_found
record_result c signature result ttl t = do
  s ← read_diary c
  edit_found c signature (mark_done result ttl t.finished) s t.stored
      (find_record signature s.history)

-- `stringify` is the identity on strings and `JSON.stringify` on other values.
module _ {T : Type 0} (stringify : T → Option Text) where
  -- The `catch` of `fn`, and what follows the `try`.
  unfoldable pub fail_with : Config → Text → Times → Error → M World T
  unfolding record_failure
  fail_with c signature t e = record_failure c signature e t.finished >> throw e

  unfoldable pub answer_with : Config → Text → Option ℕ → Times → T → M World (Answer T)
  unfolding record_result
  answer_with c signature ttl t result =
      record_result c signature (stringify result) ttl t >> return (fresh result)

  unfoldable pub attempt : Config → Text → M World T → Option ℕ → Times → M World (Answer T)
  unfolding fail_with answer_with
  attempt c signature fn ttl t =
      catch fn (fail_with c signature t) >>= answer_with c signature ttl t

  -- The part of `executeOnce` behind the look-up.
  unfoldable pub run_claimed :
      Config → Text → M World T → Option ℕ → Times → AgentState → Probe → M World (Answer T)
  unfolding attempt
  run_claimed c title fn ttl t s (held r) = return (cached r.result)
  run_claimed c title fn ttl t s (free h) = do
    let claim = new_claim title (signature_of c title) t.claimed ttl
    write_diary c (enter c claim t.claimed s h)
    attempt c (signature_of c title) fn ttl t

  unfoldable pub execute_once : Config → Text → M World T → Option ℕ → Times → M World (Answer T)
  unfolding run_claimed
  execute_once c title fn ttl t = do
    s ← read_diary c
    p ← probe c (signature_of c title) t.claimed s.history
    run_claimed c title fn (or_else ttl c.default_ttl_ms) t s p
