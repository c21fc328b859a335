-- ===== src/Diary/Views.antt =====
-- src/diary.ts: the methods that read the diary and write nothing, as functions of the world.
use agent_diaries_core.Prelude.{
  ℕ, ite, Bool, true, false, not, ◌&&◌, ◌||◌, List, [], ◌∷◌, Option, none, some, Text, length,
  filter, take, drop, any, ltb, ◌==◌, if◌then◌else◌,
}
use agent_diaries_core.Shared.{TaskRecord, TaskStatus, TaskStatus-discrete, pending, done, failed}
use agent_diaries_core.Shared.Signature.{lower_case, trim}
use agent_diaries_core.Diary.{Config, World, signature_of, loaded, is_expired, find_record}

-- Is there a record of the title that has not run out?
unfoldable pub has_processed_task : Config → Text → ℕ → World → Bool
has_processed_task c title now w = elim (find_record (signature_of c title) (loaded c w).history) [
  | none ↦ false
  | some r ↦ not (is_expired r now)
]

unfoldable pub get_task_result : Config → Text → ℕ → World → Option Text
get_task_result c title now w = elim (find_record (signature_of c title) (loaded c w).history) [
  | none ↦ none
  | some r ↦ if is_expired r now then none else r.result
]

abbrev is_new : Config → List TaskRecord → ℕ → Text → Bool
is_new c h now title = elim (find_record (signature_of c title) h) [
  | none ↦ true
  | some r ↦ is_expired r now
]

unfoldable pub filter_new_tasks {ℓ} :
    {A : Type ℓ} → (A → Text) → Config → List A → ℕ → World → List A
filter_new_tasks title_of c tasks now w =
    filter (λ task. is_new c (loaded c w).history now (title_of task)) tasks

unfoldable pub record_status : TaskRecord → TaskStatus
record_status r = elim r.status [
  | some s ↦ s
  | none ↦ elim r.result [ none ↦ pending | some _ ↦ done ]
]

abbrev pub has_status : TaskStatus → TaskRecord → Bool
has_status s r = ite (TaskStatus-discrete (record_status r) s) true false

abbrev pub is_live : ℕ → TaskRecord → Bool
is_live now r = not (is_expired r now)

-- The number of an option: `Math.max(0, n)`.
pub data ℤ : Type 0 where
  pos : ℕ → ℤ
  negsuc : ℕ → ℤ

abbrev pub clamp : ℤ → ℕ
clamp (pos n) = n
clamp (negsuc n) = 0

-- `TaskListOptions`. A status is absent, one, or an array.
pub data StatusOption : Type 0 where
  absent : StatusOption
  one : TaskStatus → StatusOption
  many : List TaskStatus → StatusOption

pub record TaskListOptions : Type 0 where
  pub status : StatusOption
  pub include_expired : Bool
  pub max_count : Option ℤ
  pub offset : Option ℤ

unfoldable pub by_expiry : Bool → ℕ → List TaskRecord → List TaskRecord
by_expiry include now rs = if include then rs else filter (is_live now) rs

unfoldable pub by_status : StatusOption → List TaskRecord → List TaskRecord
by_status absent rs = rs
by_status (one s) rs = filter (has_status s) rs
by_status (many ss) rs = filter (λ r. any (λ s. has_status s r) ss) rs

unfoldable pub page : Option ℤ → Option ℤ → List TaskRecord → List TaskRecord
page offset none rs = drop (elim offset [ none ↦ 0 | some o ↦ clamp o ]) rs
page offset (some n) rs = take (clamp n) (drop (elim offset [ none ↦ 0 | some o ↦ clamp o ]) rs)

unfoldable pub build_task_view : List TaskRecord → TaskListOptions → ℕ → List TaskRecord
unfolding by_expiry by_status page
build_task_view rs o now =
    page o.offset o.max_count (by_status o.status (by_expiry o.include_expired now rs))

unfoldable pub list_tasks : Config → TaskListOptions → ℕ → World → List TaskRecord
list_tasks c o now w = build_task_view (loaded c w).history o now

unfoldable pub get_tasks_by_status :
    Config → TaskStatus → TaskListOptions → ℕ → World → List TaskRecord
unfolding list_tasks
get_tasks_by_status c s o now w = list_tasks c (record o { status = one s }) now w

unfoldable pub get_pending_tasks : Config → TaskListOptions → ℕ → World → List TaskRecord
unfolding get_tasks_by_status
get_pending_tasks c o now w = get_tasks_by_status c pending o now w

unfoldable pub get_done_tasks : Config → TaskListOptions → ℕ → World → List TaskRecord
unfolding get_tasks_by_status
get_done_tasks c o now w = get_tasks_by_status c done o now w

unfoldable pub get_failed_tasks : Config → TaskListOptions → ℕ → World → List TaskRecord
unfolding get_tasks_by_status
get_failed_tasks c o now w = get_tasks_by_status c failed o now w

unfoldable pub get_tasks_completed_since : Config → ℕ → ℕ → World → List TaskRecord
get_tasks_completed_since c since now w =
    filter
      (λ r. elim r.result [ none ↦ false | some _ ↦ not (ltb r.timestamp since) && is_live now r ])
      (loaded c w).history

unfoldable pub starts_with : Text → Text → Bool
starts_with [] t = true
starts_with (c ∷ cs) [] = false
starts_with (c ∷ cs) (d ∷ ds) = c == d && starts_with cs ds

-- `t.includes(k)`
unfoldable pub includes : Text → Text → Bool
unfolding starts_with
includes k [] = starts_with k []
includes k (c ∷ cs) = starts_with k (c ∷ cs) || includes k cs

unfoldable pub find_tasks_by_keyword : Config → Text → ℕ → World → List TaskRecord
unfolding includes
find_tasks_by_keyword c keyword now w =
    let k = trim (lower_case keyword) in
    filter
      (λ r.
        is_live now r
        && (includes k (lower_case r.title)
            || elim r.result [ none ↦ false | some t ↦ includes k (lower_case t) ]))
      (loaded c w).history

pub record AgentStats : Type 0 where
  pub agent_id : Text
  pub run_count : ℕ
  pub history_count : ℕ
  pub pending_count : ℕ
  pub done_count : ℕ
  pub failed_count : ℕ
  pub last_run_at : ℕ
  pub oldest_task_at : Option ℕ

-- `Math.min(...timestamps)`, where there are any.
unfoldable pub oldest : List TaskRecord → Option ℕ
oldest [] = none
oldest (r ∷ rs) = elim (oldest rs) [
  | none ↦ some r.timestamp
  | some t ↦ some (if ltb r.timestamp t then r.timestamp else t)
]

unfoldable pub get_stats : Config → ℕ → World → AgentStats
unfolding oldest
get_stats c now w =
    let live = filter (is_live now) (loaded c w).history in
    record {
      agent_id = c.agent_id;
      run_count = (loaded c w).run_count;
      history_count = length live;
      pending_count = length (filter (has_status pending) live);
      done_count = length (filter (has_status done) live);
      failed_count = length (filter (has_status failed) live);
      last_run_at = (loaded c w).last_run;
      oldest_task_at = oldest live;
    }
