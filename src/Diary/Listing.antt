-- ===== src/Diary/Listing.antt =====
-- The lists and the numbers that the reading methods report.
use native.Mathlib.Nat.{zero-add, add-zero, suc-add}
use agent_diaries_core.Prelude.{
  ℕ, zero, suc, ◌+◌, ◌≤◌, ◌≡◌, refl, inl, inr, true, false, List, [], ◌∷◌, ◌++◌, none, some, arith,
  length, drop, filter, any, All, take-append-drop, Option-cases, ◌==◌,
}
use agent_diaries_core.Shared.{TaskRecord, TaskStatus, pending, done, failed}
use agent_diaries_core.Diary.{Config, World, loaded}
use agent_diaries_core.Diary.Views.{
  TaskListOptions, absent, pos, has_status, is_live, by_expiry, by_status, build_task_view,
  list_tasks, get_tasks_by_status, oldest, get_stats,
}

drop-drop {ℓ} : {A : Type ℓ} (m n : ℕ) (xs : List A) → drop n (drop m xs) ≡ drop (m + n) xs
drop-drop zero n xs = rw zero-add
drop-drop (suc m) zero [] = rw add-zero
drop-drop (suc m) (suc n) [] = rw suc-add
drop-drop (suc m) n (x ∷ xs) = rw suc-add (drop-drop m n xs)

-- A page and the tasks behind it are the tasks from the page's start on, whatever the filters.
pub list_tasks-pages :
    (c : Config) (o : TaskListOptions) (now m n : ℕ) (w : World)
    → list_tasks c (record o { offset = some (pos m); max_count = some (pos n) }) now w
        ++ list_tasks c (record o { offset = some (pos (m + n)); max_count = none }) now w
      ≡ list_tasks c (record o { offset = some (pos m); max_count = none }) now w
unfolding list_tasks build_task_view
list_tasks-pages c o now m n w =
    let rs = by_status o.status (by_expiry o.include_expired now (loaded c w).history) in
    rw (← drop-drop m n rs) (take-append-drop n (drop m rs))

status_counts :
    (rs : List TaskRecord)
    → length (filter (has_status pending) rs)
        + length (filter (has_status done) rs)
        + length (filter (has_status failed) rs)
      ≡ length rs
status_counts [] = omega arith
status_counts (r ∷ rs) = ground (arith, status_counts rs)

-- All live tasks, or those of a status.
abbrev pub unlimited : TaskListOptions
unlimited = record { status = absent; include_expired = false; max_count = none; offset = none }

abbrev pub listed : Config → TaskStatus → ℕ → World → List TaskRecord
listed c s now w = get_tasks_by_status c s unlimited now w

-- The counts of `getStats` are the lengths of the lists of each status, and they add up to the
-- number of live tasks.
pub get_stats-counts :
    (c : Config) (now : ℕ) (w : World)
    → ((get_stats c now w).pending_count ≡ length (listed c pending now w))
      × ((get_stats c now w).done_count ≡ length (listed c done now w))
      × ((get_stats c now w).failed_count ≡ length (listed c failed now w))
      × ((get_stats c now w).pending_count
            + (get_stats c now w).done_count
            + (get_stats c now w).failed_count
          ≡ length (list_tasks c unlimited now w))
unfolding get_stats get_tasks_by_status list_tasks build_task_view
get_stats-counts c now w =
    (refl, refl, refl, status_counts (filter (is_live now) (loaded c w).history))

abbrev pub NotBefore : ℕ → List TaskRecord → Type 0
NotBefore m = All (λ r. m ≤ r.timestamp)

NotBefore-le : (m n : ℕ) (rs : List TaskRecord) → m ≤ n → NotBefore n rs → NotBefore m rs
NotBefore-le m n [] l h = tt
NotBefore-le m n (r ∷ rs) l h = (omega arith, NotBefore-le m n rs l h.1)

NotBefore-none : (m : ℕ) (rs : List TaskRecord) → oldest rs ≡ none → NotBefore m rs
unfolding oldest
NotBefore-none m [] e = tt
NotBefore-none m (r ∷ rs) e = absurd (ground arith)

oldest-bound : (rs : List TaskRecord) (m : ℕ) → oldest rs ≡ some m → NotBefore m rs
unfolding oldest
oldest-bound [] m e = cc
oldest-bound (r ∷ rs) m e = elim (Option-cases (oldest rs)) [
  | inl q ↦ (ground arith, NotBefore-none m rs q)
  | inr (t, q) ↦ (ground arith, NotBefore-le m t rs (ground arith) (oldest-bound rs t q))
]

oldest-attained :
    (rs : List TaskRecord) (m : ℕ) → oldest rs ≡ some m → any (λ r. r.timestamp == m) rs ≡ true
unfolding oldest
oldest-attained [] m e = cc
oldest-attained (r ∷ rs) m e = ground (arith, oldest-attained rs m)

-- The time that `getStats` reports as the oldest is that of a live record, and no live record is
-- older.
pub get_stats-oldest :
    (c : Config) (now : ℕ) (w : World) (m : ℕ)
    → (get_stats c now w).oldest_task_at ≡ some m
    → NotBefore m (list_tasks c unlimited now w)
      × (any (λ r. r.timestamp == m) (list_tasks c unlimited now w) ≡ true)
unfolding get_stats list_tasks build_task_view
get_stats-oldest c now w m e =
    let rs = filter (is_live now) (loaded c w).history in
    (oldest-bound rs m e, oldest-attained rs m e)
