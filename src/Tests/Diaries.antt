-- ===== src/Tests/Diaries.antt =====
-- The diary of one agent with room for two tasks, over the calls that its users make.
mod Reading
use agent_diaries_core.Prelude.{
  ℕ, ◌<◌, ◌≡◌, refl, true, false, not, List, [], ◌∷◌, map, Option, none, some, arith, Text, codes,
  length, All, Text-discrete,
}
use agent_diaries_core.JsMap
use agent_diaries_core.Shared.{TaskRecord, AgentState, thrown, pending, done, failed}
use agent_diaries_core.Shared.Effect.{ok, err, M, return, throw}
use agent_diaries_core.Shared.Signature.{normalize_signature, compute_signature}
use agent_diaries_core.Diary.{
  Config, World, signature_of, loaded, or_empty, empty_state, find_record, saved, history_limit,
  is_expired, diary_key, probe, new_claim, enter, drop_record, modify_record, call_hook,
}
use agent_diaries_core.Diary.Claims.{
  claim_task, finish_claim, Times, fresh, cached, execute_once, run_claimed, attempt, fail_with,
  answer_with, record_failure, record_result, edit_found, mark_failed, mark_done,
}
use agent_diaries_core.Diary.Outcomes.{write_task_result, delete_task}
use agent_diaries_core.Diary.Views.{get_stats, oldest}
use agent_diaries_core.Diary.Upkeep.{import_history}
use agent_diaries_core.Diary.Invariant.{IsValid, Valid}
use agent_diaries_core.Diary.Invariant.Upkeep.{import_history-restores}
use agent_diaries_core.Diary.History.{fresh_world, here, next, claims, deletes, history-Valid}
use agent_diaries_core.Diary.Exclusive.{ClaimCall, claim_all, claim_all-exclusive}
use agent_diaries_core.Diary.Once.{
  ExecuteCall, execute_all, execute_all-once, execute_all-after_failure,
}

pub program : Unit {0}
unfolding compute_signature normalize_signature loaded or_empty empty_state find_record saved
    history_limit is_expired diary_key probe new_claim enter claim_task finish_claim execute_once
    run_claimed attempt fail_with answer_with record_failure record_result edit_found mark_failed
    mark_done JsMap.get JsMap.set Text-discrete drop_record modify_record call_hook get_stats oldest
    write_task_result
program = tt

abbrev pub config : Config
config = record {
  agent_id = codes "bot";
  max_history = some 3;
  default_ttl_ms = some 100;
  hash_fn = none;
  on_task_expired = none;
}

abbrev pub title : Text
title = codes " Send  Mail"

abbrev pub same_title : Text
same_title = codes "send mail"

abbrev pub other_title : Text
other_title = codes "Pay"

abbrev pub claimed_world : World
claimed_world = (claim_task config title none 10 fresh_world).0

claims_first : claim_task config title none 10 fresh_world ≡ (claimed_world, ok true)
unfolding program
claims_first = refl

abbrev calls : List ClaimCall
calls =
    record { title = same_title; ttl = none; at = 20 }
    ∷ record { title = other_title; ttl = some 5; at = 60 }
    ∷ []

claims_fit : length calls < history_limit (some 3)
unfolding history_limit
claims_fit = omega arith

claim_all-exclusive_example :
    All
      (λ a. signature_of config a.0.title ≡ signature_of config title → a.1 ≡ ok false)
      (claim_all config calls claimed_world)
claim_all-exclusive_example =
    claim_all-exclusive config title none 10 fresh_world claimed_world calls claims_first claims_fit
      (omega arith, (omega arith, tt))

deleted_world : World
deleted_world = (delete_task config title claimed_world).0

history-Valid_example : Valid config deleted_world
unfolding deleted_world
history-Valid_example =
    history-Valid config (next (next here (claims title none 10 refl)) (deletes title refl))

abbrev seven : M World ℕ
seven = return 7

abbrev print_seven : ℕ → Option Text
print_seven n = some (codes "7")

abbrev times : Times
times = record { claimed = 10; finished = 20; stored = 21 }

abbrev executed_world : World
executed_world = (execute_once print_seven config title seven none times fresh_world).0

executes_first :
    execute_once print_seven config title seven none times fresh_world
    ≡ (executed_world, ok (fresh 7))
unfolding program
executes_first = refl

abbrev repeats : List (ExecuteCall ℕ)
repeats =
    record {
      title = same_title;
      fn = throw (thrown (codes "not run"));
      ttl = none;
      times = record { claimed = 30; finished = 40; stored = 41 };
    }
    ∷ []

same_signature : signature_of config same_title ≡ signature_of config title
unfolding program
same_signature = refl

execute_all-once_example :
    execute_all print_seven config repeats executed_world
    ≡ (executed_world, map (λ _. ok (cached (print_seven 7))) repeats)
execute_all-once_example =
    execute_all-once print_seven config title seven none times 7 fresh_world executed_world repeats
      (λ w. refl) executes_first ((same_signature, omega arith), tt)

abbrev broken : M World ℕ
broken = throw (thrown (codes "no network"))

abbrev failed_world : World
failed_world = (execute_once print_seven config title broken none times fresh_world).0

fails_first :
    execute_once print_seven config title broken none times fresh_world
    ≡ (failed_world, err (thrown (codes "no network")))
unfolding program
fails_first = refl

not_known : find_record (signature_of config title) (loaded config fresh_world).history ≡ none
unfolding program
not_known = refl

execute_all-after_failure_example :
    execute_all print_seven config repeats failed_world
    ≡ (failed_world, map (λ _. ok (cached none)) repeats)
execute_all-after_failure_example =
    execute_all-after_failure print_seven config title broken none times
      (thrown (codes "no network")) fresh_world failed_world repeats (λ w. refl) not_known
      fails_first ((same_signature, omega arith), tt)

abbrev pub claimed_record : TaskRecord
claimed_record = record {
  title = title;
  signature = signature_of config title;
  result = none;
  status = some pending;
  fail_reason = none;
  timestamp = 10;
  ttl_ms = some 100;
}

abbrev snapshot : AgentState
snapshot = record {
  last_run = 5;
  seen_signatures = codes "send mail" ∷ [];
  run_count = 1;
  history = record claimed_record { signature = codes "send mail" } ∷ [];
}

snapshot-IsValid : IsValid config snapshot
unfolding history_limit
snapshot-IsValid = record { distinct = (tt, tt); bounded = omega arith; indexed = refl }

import_history-restores_example :
    loaded config (import_history config snapshot false claimed_world).0 ≡ snapshot
import_history-restores_example =
    import_history-restores config snapshot claimed_world snapshot-IsValid
