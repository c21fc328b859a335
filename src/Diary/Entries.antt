-- ===== src/Diary/Entries.antt =====
-- src/core/repositories/index.ts, the class `DiaryRepository`, on the diary of a configuration's agent.
pub mod Agreement
use agent_diaries_core.Prelude.{
  ℕ, zero, suc, ◌+◌, ◌-◌, ap, ite, Bool, true, false, List, [], ◌∷◌, ◌++◌, Option, none, some, Text,
  Text-discrete, length, filter, take, drop, any, leb, if◌then◌else◌,
}
use agent_diaries_core.JsMap
use agent_diaries_core.Shared.{TaskRecord, TaskStatus, TaskStatus-discrete, AgentState}
use agent_diaries_core.Diary.{Config, World, diary_key, saved, empty_state, find_record}
use agent_diaries_core.Diary.Views.{
  ℤ, pos, negsuc, StatusOption, absent, one, many, TaskListOptions, by_status,
}

unfoldable pub load_diary : Config → World → Option AgentState
load_diary c w = JsMap.get (diary_key c.agent_id) w.store

abbrev pub has_signature : Text → List Text → Bool
has_signature s seen = any (λ x. ite (Text-discrete x s) true false) seen

unfoldable pub push_signature : Text → AgentState → AgentState
push_signature s state =
    if has_signature s state.seen_signatures
    then state
    else record state { seen_signatures = state.seen_signatures ++ s ∷ [] }

unfoldable pub or_started : ℕ → Option AgentState → AgentState
unfolding empty_state
or_started now none = record empty_state { last_run = now }
or_started now (some s) = s

unfoldable pub record_reuse : Config → Text → ℕ → World → World
unfolding push_signature or_started load_diary saved
record_reuse c s now w = saved c (push_signature s (or_started now (load_diary c w))) w

unfoldable pub find_in : Text → Option AgentState → Option TaskRecord
unfolding find_record
find_in s none = none
find_in s (some state) = find_record s state.history

unfoldable pub find_by_signature : Config → Text → World → Option TaskRecord
unfolding find_in load_diary
find_by_signature c s w = find_in s (load_diary c w)

-- `!r.ttlMs || now - r.timestamp <= r.ttlMs`
unfoldable pub is_kept : ℕ → TaskRecord → Bool
is_kept now r = elim r.ttl_ms [
  | none ↦ true
  | some zero ↦ true
  | some (suc n) ↦ leb now (r.timestamp + suc n)
]

-- `statuses.includes(r.status)`: a record without a status is in no array.
unfoldable pub is_among : List TaskStatus → TaskRecord → Bool
is_among ss r = elim r.status [
  | none ↦ false
  | some s ↦ any (λ t. ite (TaskStatus-discrete s t) true false) ss
]

unfoldable pub entries_by_status : StatusOption → List TaskRecord → List TaskRecord
unfolding is_among
entries_by_status absent rs = rs
entries_by_status (one s) rs = filter (is_among (s ∷ [])) rs
entries_by_status (many ss) rs = filter (is_among ss) rs

-- `slice(n)` and `slice(0, n)`: a negative number counts from the end.
unfoldable pub slice_from : Option ℤ → List TaskRecord → List TaskRecord
slice_from none rs = rs
slice_from (some (pos n)) rs = drop n rs
slice_from (some (negsuc n)) rs = drop (length rs - suc n) rs

unfoldable pub slice_to : Option ℤ → List TaskRecord → List TaskRecord
slice_to none rs = rs
slice_to (some (pos n)) rs = take n rs
slice_to (some (negsuc n)) rs = take (length rs - suc n) rs

unfoldable pub list_entries_of : List TaskRecord → TaskListOptions → ℕ → List TaskRecord
unfolding is_kept entries_by_status slice_from slice_to
list_entries_of rs o now = slice_to o.max_count (
    slice_from o.offset
      (entries_by_status o.status (if o.include_expired then rs else filter (is_kept now) rs)))

unfoldable pub list_in : Option AgentState → TaskListOptions → ℕ → List TaskRecord
unfolding list_entries_of
list_in none o now = []
list_in (some state) o now = list_entries_of state.history o now

unfoldable pub list_diary_entries : Config → TaskListOptions → ℕ → World → List TaskRecord
unfolding list_in load_diary
list_diary_entries c o now w = list_in (load_diary c w) o now
