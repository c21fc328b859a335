-- ===== src/Tests/Diaries/Reading.antt =====
-- What the diary says of a claimed task.
use agent_diaries_core.Prelude.{All, ◌≡◌, refl, none, some, arith, codes}
use agent_diaries_core.Shared.{pending}
use agent_diaries_core.Diary.{signature_of, loaded, find_record}
use agent_diaries_core.Diary.Outcomes.{write_task_result}
use agent_diaries_core.Diary.Views.{pos, list_tasks, get_stats, get_task_result}
use agent_diaries_core.Diary.Readback.{get_task_result-write_task_result}
use agent_diaries_core.Diary.Listing.{unlimited}
use agent_diaries_core.Diary.Entries.{
  list_diary_entries, find_by_signature, record_reuse, find_in, load_diary, push_signature,
  or_started,
}
use agent_diaries_core.Diary.Entries.Agreement.{IsComplete, list_diary_entries-list_tasks}
use agent_diaries_core.Tests.Diaries.{program, config, same_title, claimed_world, claimed_record}

finds_claim :
    find_record (signature_of config same_title) (loaded config claimed_world).history
    ≡ some claimed_record
unfolding program
finds_claim = refl

get_task_result-write_task_result_example :
    get_task_result config same_title 60
      (write_task_result config same_title (some (codes "sent")) none 50 claimed_world).0
    ≡ some (codes "sent")
get_task_result-write_task_result_example =
    get_task_result-write_task_result config same_title (some (codes "sent")) none 50 60
      claimed_world claimed_record finds_claim (omega arith)

oldest_is_claim : (get_stats config 20 claimed_world).oldest_task_at ≡ some 10
unfolding program
oldest_is_claim = refl

history-IsComplete : All IsComplete (loaded config claimed_world).history
unfolding program
history-IsComplete = (((pending, refl), λ e. absurd cc), tt)

list_diary_entries-list_tasks_example :
    list_diary_entries config
      (record unlimited { offset = some (pos 0); max_count = some (pos 1) })
      20
      claimed_world
    ≡ list_tasks config
        (record unlimited { offset = some (pos 0); max_count = some (pos 1) })
        20
        claimed_world
list_diary_entries-list_tasks_example =
    list_diary_entries-list_tasks config
      (record unlimited { offset = some (pos 0); max_count = some (pos 1) }) 20 claimed_world
      history-IsComplete tt tt

-- A reuse that is recorded is no task.
reuse_is_no_task :
    find_by_signature config (codes "other") (record_reuse config (codes "other") 20 claimed_world)
    ≡ none
unfolding find_by_signature record_reuse program find_in load_diary push_signature or_started
reuse_is_no_task = refl
