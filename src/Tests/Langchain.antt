-- ===== src/Tests/Langchain.antt =====
-- A cached response, a deduplicated tool and a callback handler.
use agent_diaries_core.Prelude.{
  ℕ, ◌≡◌, refl, true, List, [], ◌∷◌, ◌++◌, map, none, some, arith, Text, Text-discrete, codes,
}
use agent_diaries_core.JsMap
use agent_diaries_core.Shared.{Value, null, string}
use agent_diaries_core.Shared.Effect.{M, ok, return}
use agent_diaries_core.Shared.Signature.{normalize_signature, compute_signature}
use agent_diaries_core.Diary.{
  World, loaded, or_empty, empty_state, find_record, saved, history_limit, is_expired, diary_key,
  probe, new_claim, enter, drop_record, modify_record, call_hook,
}
use agent_diaries_core.Diary.Claims.{
  Times, fresh, execute_once, run_claimed, attempt, fail_with, answer_with, record_failure,
  record_result, edit_found, mark_failed, mark_done,
}
use agent_diaries_core.Diary.History.{fresh_world}
use agent_diaries_core.Langchain.Tool
use agent_diaries_core.Langchain.Tool.{
  Invocation, invoke, invoke_all, invoke_all-same, inner, diary_of, build_key,
}
use agent_diaries_core.Langchain.Cache
use agent_diaries_core.Langchain.Cache.{lookup, update, lookup-update, build_cache_key}
use agent_diaries_core.Langchain.Callbacks
use agent_diaries_core.Langchain.Callbacks.{Handler, EventType, no_stats, slice_last}
use agent_diaries_core.Langchain.Callbacks.Log.{
  Callback, event, handle_all, handle_all-log, IsCounted, kinds,
}

program : Unit {0}
unfolding compute_signature normalize_signature loaded or_empty empty_state find_record saved
    history_limit is_expired diary_key probe new_claim enter execute_once run_claimed attempt
    fail_with answer_with record_failure record_result edit_found mark_failed mark_done JsMap.get
    JsMap.set Text-discrete drop_record modify_record call_hook
program = tt

abbrev times : Times
times = record { claimed = 10; finished = 20; stored = 21 }

abbrev later : Times
later = record { claimed = 30; finished = 40; stored = 41 }

abbrev tool_options : Tool.Options
tool_options = record {
  agent_id = none;
  ttl_ms = some 100;
  key_builder = none;
  max_history = none;
  stringify = λ v. codes "json";
}

abbrev searches : M World Value
searches = return (string (codes "found"))

abbrev after_call : World
after_call =
    (invoke tool_options (codes "web") (string (codes "News")) searches times fresh_world).0

calls_tool :
    execute_once
      (λ (y : Text). some y)
      (diary_of tool_options)
      (build_key tool_options none (codes "web") (string (codes "News")))
      (inner tool_options searches)
      (some 100)
      times
      fresh_world
    ≡ (after_call, ok (fresh (codes "found")))
unfolding program invoke inner diary_of build_key
calls_tool = refl

abbrev again : List Invocation
again = record { input = string (codes "news "); call = return null; times = later } ∷ []

same_key :
    compute_signature none (build_key tool_options none (codes "web") (string (codes "news ")))
    ≡ compute_signature none (build_key tool_options none (codes "web") (string (codes "News")))
unfolding program build_key
same_key = refl

invoke_all-same_example :
    (invoke tool_options (codes "web") (string (codes "News")) searches times fresh_world
      ≡ (after_call, ok (some (codes "found"))))
    × (invoke_all tool_options (codes "web") again after_call
        ≡ (after_call, map (λ _. ok (some (codes "found"))) again))
unfolding inner diary_of
invoke_all-same_example =
    invoke_all-same tool_options (codes "web") (string (codes "News")) searches times
      (codes "found") fresh_world after_call again (λ w. refl) calls_tool
      ((same_key, omega arith), tt)

abbrev stringify : List ℕ → Text
stringify ts = ts

abbrev cache_options : Cache.Options
cache_options = record { agent_id = none; default_ttl_ms = some 100; max_history = none }

abbrev stored_world : World
stored_world =
    (update stringify some cache_options (codes "Hi") (codes "m") (1 ∷ []) times fresh_world).0

stores_response :
    update stringify some cache_options (codes "Hi") (codes "m") (1 ∷ []) times fresh_world
    ≡ (stored_world, ok (fresh (1 ∷ [])))
unfolding program update Cache.diary_of build_cache_key
stores_response = refl

same_prompt :
    normalize_signature (codes "M" ++ codes ":" ++ codes "hi")
    ≡ normalize_signature (codes "m" ++ codes ":" ++ codes "Hi")
unfolding normalize_signature
same_prompt = refl

lookup-update_example :
    lookup stringify some cache_options (codes "hi") (codes "M") 90 stored_world ≡ some (1 ∷ [])
lookup-update_example =
    lookup-update stringify some cache_options (codes "Hi") (codes "m") (codes "hi") (codes "M")
      (1 ∷ []) times 90 fresh_world stored_world refl stores_response same_prompt (omega arith)

abbrev handler_options : Callbacks.Options
handler_options = record {
  persist_events = true;
  max_events = 2;
  on_event = some (λ e. ok tt);
  agent_id = none;
  decimal = λ n. n ∷ [];
  json = λ e. codes "{}";
}

abbrev handler : Handler
handler = record { events = []; stats = no_stats; world = fresh_world }

abbrev callback : EventType → Callback
callback kind = record {
  kind = kind;
  subject = codes "model";
  name = none;
  run = codes "r";
  parent = none;
  payload = null;
  clock = record { stamp = 1; keyed = 2; times = times };
}

abbrev callbacks : List Callback
callbacks =
    callback EventType.llm_start ∷ callback EventType.llm_error ∷ callback EventType.tool_start ∷ []

handle_all-log_example :
    ((handle_all handler_options callbacks handler).events ≡ slice_last 2 (map event callbacks))
    × IsCounted (kinds callbacks) no_stats (handle_all handler_options callbacks handler).stats
handle_all-log_example = handle_all-log handler_options callbacks handler refl refl
