-- ===== src/Diary/Outcomes.antt =====
-- src/diary.ts: `writeTaskResult`, `failTask` and `deleteTask`.
use agent_diaries_core.Prelude.{
  ℕ, ite, Bool, true, false, Option, none, some, Text, codes, Text-discrete, length, filter, ◌==◌,
  if◌then◌else◌,
}
use agent_diaries_core.Shared.{TaskRecord, AgentState, not_claimed, done, failed}
use agent_diaries_core.Shared.Effect.{◌>>◌, ◌>>=◌, M, return, throw}
use agent_diaries_core.Diary.{
  Config, World, signature_of, or_else, read_diary, write_diary, find_record, modify_record,
  signatures,
}

unfoldable pub settle : Option Text → Option ℕ → Option ℕ → ℕ → TaskRecord → TaskRecord
settle result ttl default_ttl now r = record r {
  result = result;
  status = some done;
  timestamp = now;
  ttl_ms = or_else ttl (or_else r.ttl_ms default_ttl);
}

-- The task's record is changed and the diary written; a task without a record is an error.
unfoldable pub edit_claimed :
    Config
    → Text
    → Text
    → (TaskRecord → TaskRecord)
    → ℕ
    → AgentState
    → Option TaskRecord
    → M World (Unit {0})
edit_claimed c title method f now s none = throw (not_claimed title method)
edit_claimed c title method f now s (some _) =
    write_diary c
      (record s { history = modify_record (signature_of c title) f s.history; last_run = now })

unfoldable pub write_task_result : Config → Text → Option Text → Option ℕ → ℕ → M World (Unit {0})
unfolding edit_claimed
write_task_result c title result ttl now = do
  let ttl_ms = or_else ttl c.default_ttl_ms
  s ← read_diary c
  edit_claimed c title (codes "writeTaskResult") (settle result ttl_ms c.default_ttl_ms now) now s
      (find_record (signature_of c title) s.history)

unfoldable pub settle_failed : Option Text → ℕ → TaskRecord → TaskRecord
settle_failed reason now r = record r {
  status = some failed;
  fail_reason = reason;
  timestamp = now;
}

unfoldable pub fail_task : Config → Text → Option Text → ℕ → M World (Unit {0})
unfolding edit_claimed
fail_task c title reason now = do
  s ← read_diary c
  edit_claimed c title (codes "failTask") (settle_failed reason now) now s
      (find_record (signature_of c title) s.history)

-- `r.signature !== signature`
abbrev pub differs : Text → TaskRecord → Bool
differs signature r = ite (Text-discrete r.signature signature) false true

unfoldable pub delete_task : Config → Text → M World Bool
delete_task c title = do
  s ← read_diary c
  let kept = filter (differs (signature_of c title)) s.history
  if length kept == length s.history then return false else (do
    write_diary c (record s { history = kept; seen_signatures = signatures kept })
    return true)
