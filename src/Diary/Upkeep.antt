-- ===== src/Diary/Upkeep.antt =====
-- src/diary.ts: `pruneExpiredTasks`, `exportHistory`, `importHistory` and `clearHistory`.
use agent_diaries_core.Prelude.{
  ℕ, ◌+◌, ite, Bool, true, false, not, List, [], ◌∷◌, ◌++◌, Text, Text-discrete, filter, any, take,
  ltb, if◌then◌else◌,
}
use agent_diaries_core.Shared.{TaskRecord, AgentState}
use agent_diaries_core.Shared.Effect.{◌>>=◌, M, return, ◌>>◌}
use agent_diaries_core.Diary.{
  Config, World, limit, empty_state, loaded, read_diary, write_diary, is_expired, signatures,
  call_hook,
}

unfoldable pub call_hooks : Config → List TaskRecord → M World (Unit {0})
call_hooks c [] = return tt
call_hooks c (r ∷ rs) = call_hook c r >> call_hooks c rs

unfoldable pub write_pruned :
    Config → AgentState → List TaskRecord → List TaskRecord → M World (List TaskRecord)
unfolding call_hooks
write_pruned c s kept [] = return []
write_pruned c s kept (r ∷ rs) = do
  write_diary c (record s { history = kept; seen_signatures = signatures kept })
  call_hooks c (r ∷ rs)
  return (r ∷ rs)

unfoldable pub prune_expired_tasks : Config → ℕ → M World (List TaskRecord)
unfolding write_pruned
prune_expired_tasks c now = do
  s ← read_diary c
  write_pruned c s (filter (λ r. not (is_expired r now)) s.history)
      (filter (λ r. is_expired r now) s.history)

unfoldable pub export_history : Config → World → AgentState
export_history c w = loaded c w

abbrev pub has_signature : List TaskRecord → Text → Bool
has_signature h s = any (λ r. ite (Text-discrete r.signature s) true false) h

abbrev pub larger : ℕ → ℕ → ℕ
larger a b = if ltb a b then b else a

unfoldable pub merged : Config → AgentState → AgentState → AgentState
merged c current snapshot =
    let unseen = filter (λ r. not (has_signature current.history r.signature)) snapshot.history in
    let kept = take (limit c) (unseen ++ current.history) in
    record {
      last_run = larger current.last_run snapshot.last_run;
      seen_signatures = signatures kept;
      run_count = current.run_count + snapshot.run_count;
      history = kept;
    }

unfoldable pub import_history : Config → AgentState → Bool → M World (Unit {0})
unfolding merged
import_history c snapshot true = do
  current ← read_diary c
  write_diary c (merged c current snapshot)
import_history c snapshot false =
    write_diary c (record snapshot { history = take (limit c) snapshot.history })

unfoldable pub clear_history : Config → M World (Unit {0})
clear_history c = write_diary c empty_state
