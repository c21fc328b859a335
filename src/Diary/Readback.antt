-- ===== src/Diary/Readback.antt =====
-- What the reading methods report after, and about, the writing ones.
use agent_diaries_core.Prelude.{
  ℕ, ◌≡◌, refl, subst, ◌↔◌, inl, inr, true, false, not, List, [], ◌∷◌, Option, none, some, arith,
  Text, codes, Text-discrete, length, filter, ◌==◌, Bool-cases, filter_full,
}
use agent_diaries_core.Shared.{TaskRecord, not_claimed}
use agent_diaries_core.Shared.Effect.{ok, err}
use agent_diaries_core.Diary.{Config, World, signature_of, or_else, is_expired, loaded, find_record}
use agent_diaries_core.Diary.Claims.{claim_task}
use agent_diaries_core.Diary.Claiming.{entered, refused, stopped, claim_task-outcome}
use agent_diaries_core.Diary.Outcomes.{
  settle, edit_claimed, write_task_result, fail_task, differs, delete_task,
}
use agent_diaries_core.Diary.Views.{has_processed_task, get_task_result, filter_new_tasks}
use agent_diaries_core.Diary.Records.{find_record-modify_record}
use agent_diaries_core.Diary.Probing.{loaded-saved, never, lapsed}
use agent_diaries_core.Diary.Exclusive.{IsWithin}

settle-live :
    (result : Option Text) (ttl default : Option ℕ) (now at : ℕ) (r : TaskRecord)
    → IsWithin (or_else ttl (or_else r.ttl_ms default)) now at
    → is_expired (settle result ttl default now r) at ≡ false
unfolding is_expired settle
settle-live result ttl default now at r h = ground arith

find_record-edit_claimed :
    (c : Config) (title method : Text) (f : TaskRecord → TaskRecord) (now : ℕ) (w : World)
    {r : TaskRecord}
    → ((x : TaskRecord) → (f x).signature ≡ x.signature)
    → find_record (signature_of c title) (loaded c w).history ≡ some r
    → find_record
        (signature_of c title)
        (loaded c
          (edit_claimed c title method f now
            (loaded c w)
            (find_record (signature_of c title) (loaded c w).history)
            w).0).history
      ≡ some (f r)
unfolding edit_claimed
find_record-edit_claimed c title method f now w same e =
    rw (e, edit_claimed, loaded-saved)
      (find_record-modify_record (signature_of c title) f same (loaded c w).history e)

get_task_result-of_record :
    (c : Config) (title : Text) (at : ℕ) (w : World) (r : TaskRecord)
    → find_record (signature_of c title) (loaded c w).history ≡ some r
    → is_expired r at ≡ false
    → get_task_result c title at w ≡ r.result
unfolding get_task_result
get_task_result-of_record c title at w r e live = rw (e, get_task_result, live)

-- The result written for a claimed task is what `getTaskResult` returns until the time to live,
-- that of the call, of the claim or the default, has passed since the write.
pub get_task_result-write_task_result :
    (c : Config) (title : Text) (result : Option Text) (ttl : Option ℕ) (now at : ℕ) (w : World)
    (r : TaskRecord)
    → find_record (signature_of c title) (loaded c w).history ≡ some r
    → IsWithin (or_else (or_else ttl c.default_ttl_ms) (or_else r.ttl_ms c.default_ttl_ms)) now at
    → get_task_result c title at (write_task_result c title result ttl now w).0 ≡ result
unfolding write_task_result settle
get_task_result-write_task_result c title result ttl now at w r e h =
    let f = settle result (or_else ttl c.default_ttl_ms) c.default_ttl_ms now in
    get_task_result-of_record c title at (write_task_result c title result ttl now w).0 (f r)
      (find_record-edit_claimed c title (codes "writeTaskResult") f now w (λ _. refl) e)
      (settle-live result _ _ now at r h)

-- `hasProcessedTask` says true exactly when `claimTask`, at the same time, refuses and writes
-- nothing.
pub has_processed_task-claim_task :
    (c : Config) (title : Text) (ttl : Option ℕ) (now : ℕ) (w : World)
    → (has_processed_task c title now w ≡ true) ↔ (claim_task c title ttl now w ≡ (w, ok false))
unfolding has_processed_task
has_processed_task-claim_task c title ttl now w = elim (claim_task-outcome c title ttl now w) [
  | entered v kept q (never f k) e ↦ rw (f, has_processed_task) (λ h. cc, λ h. cc)
  | entered v kept q (lapsed r f o k) e ↦ rw (f, has_processed_task, o) (λ h. cc, λ h. cc)
  | refused r f live e ↦ rw (f, has_processed_task, live) (λ h. e, λ h. refl)
  | stopped r f o v x q e ↦ rw (f, has_processed_task, o) (λ h. cc, λ h. cc)
]

-- `filterNewTasks` keeps exactly the tasks that `hasProcessedTask` denies, in their order.
pub filter_new_tasks-processed :
    {A : Type 0} (title_of : A → Text) (c : Config) (tasks : List A) (now : ℕ) (w : World)
    → filter_new_tasks title_of c tasks now w
      ≡ filter (λ task. not (has_processed_task c (title_of task) now w)) tasks
unfolding filter_new_tasks has_processed_task
filter_new_tasks-processed title_of c [] now w = refl
filter_new_tasks-processed title_of c (x ∷ xs) now w =
    ground (arith, filter_new_tasks-processed title_of c xs now w)

-- No record of the title: the outcome methods throw and change nothing.
pub outcome_unclaimed :
    (c : Config) (title : Text) (result reason : Option Text) (ttl : Option ℕ) (now : ℕ) (w : World)
    → find_record (signature_of c title) (loaded c w).history ≡ none
    → (write_task_result c title result ttl now w
        ≡ (w, err (not_claimed title (codes "writeTaskResult"))))
      × (fail_task c title reason now w ≡ (w, err (not_claimed title (codes "failTask"))))
unfolding write_task_result fail_task edit_claimed
outcome_unclaimed c title result reason ttl now w e = (ground (arith), ground (arith))

find_record-differs : (s : Text) (h : List TaskRecord) → find_record s (filter (differs s) h) ≡ none
unfolding find_record
find_record-differs s [] = refl
find_record-differs s (r ∷ h) = elim (Text-discrete r.signature s) [
  | yes p ↦ ground (arith, find_record-differs s h)
  | no p ↦ ground (arith, find_record-differs s h)
]

-- Whatever `deleteTask` answers, the task is not in the diary afterwards.
pub find_record-delete_task :
    (c : Config) (title : Text) (w : World)
    → find_record (signature_of c title) (loaded c (delete_task c title w).0).history ≡ none
unfolding delete_task
find_record-delete_task c title w =
    let s = signature_of c title in
    let h = (loaded c w).history in
    elim (Bool-cases (length (filter (differs s) h) == length h)) [
      | inl e ↦ rw e (
          subst (λ x. find_record s x ≡ none) (filter_full (differs s) h (ground arith))
            (find_record-differs s h))
      | inr e ↦ rw (e, loaded-saved) (find_record-differs s h)
    ]
