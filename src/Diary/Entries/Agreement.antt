-- ===== src/Diary/Entries/Agreement.antt =====
-- The listings of the diary repository and of the diary itself.
use agent_diaries_core.Prelude.{
  ◌||◌, sym, Bool-cases, inl, inr, ℕ, zero, suc, ◌+◌, ◌≡◌, ◌≢◌, refl, ◌∙◌, ap, Bool, true, false,
  List, [], ◌∷◌, Option, none, some, arith, filter, drop, any, leb, ltb, not, if◌then◌else◌, All,
}
use agent_diaries_core.JsMap
use agent_diaries_core.Shared.{TaskRecord, TaskStatus, AgentState}
use agent_diaries_core.Diary.{Config, World, diary_key, loaded, or_empty, empty_state, is_expired}
use agent_diaries_core.Diary.Views.{
  ℤ, pos, negsuc, StatusOption, absent, one, many, TaskListOptions, has_status, record_status,
  is_live, by_expiry, by_status, page, build_task_view, list_tasks,
}
use agent_diaries_core.Diary.Entries.{
  load_diary, is_kept, is_among, entries_by_status, slice_from, slice_to, list_entries_of, list_in,
  list_diary_entries,
}

-- A record with a status, and without a time to live of zero. (A claim with `ttlMs: 0` stores one.)
abbrev pub IsComplete : TaskRecord → Type 0
IsComplete r = ((s : TaskStatus) × (r.status ≡ some s)) × (r.ttl_ms ≢ some 0)

-- A number that is missing, or not negative.
abbrev pub IsNatural : Option ℤ → Type 0
IsNatural none = Unit {0}
IsNatural (some (pos n)) = Unit {0}
IsNatural (some (negsuc n)) = ⊥

is_kept-is_live : (now : ℕ) (r : TaskRecord) → IsComplete r → is_kept now r ≡ is_live now r
unfolding is_kept is_expired
is_kept-is_live now r (a, n) = kept r.ttl_ms n
  where
    kept :
        (ttl : Option ℕ)
        → ttl ≢ some 0
        → elim ttl [ none ↦ true | some zero ↦ true | some (suc n) ↦ leb now (r.timestamp + suc n) ]
          ≡ not (elim ttl [ none ↦ false | some t ↦ ltb (r.timestamp + t) now ])
    kept none m = refl
    kept (some zero) m = absurd (m refl)
    kept (some (suc k)) m = ground arith

is_among-any :
    (ss : List TaskStatus) (r : TaskRecord)
    → IsComplete r
    → is_among ss r ≡ any (λ s. has_status s r) ss
unfolding is_among record_status
is_among-any ss r ((s, e), n) = rw e refl

filter-agrees :
    (p q : TaskRecord → Bool) (rs : List TaskRecord)
    → ((r : TaskRecord) → IsComplete r → p r ≡ q r)
    → All IsComplete rs
    → filter p rs ≡ filter q rs
filter-agrees p q [] h a = refl
filter-agrees p q (r ∷ rs) h (a, rest) =
    rw (h r a) (ap (λ xs. if q r then r ∷ xs else xs) (filter-agrees p q rs h rest))

filter-IsComplete :
    (p : TaskRecord → Bool) (rs : List TaskRecord)
    → All IsComplete rs
    → All IsComplete (filter p rs)
filter-IsComplete p [] a = tt
filter-IsComplete p (r ∷ rs) (a, rest) = elim (Bool-cases (p r)) [
  | inl e ↦ rw e (a, filter-IsComplete p rs rest)
  | inr e ↦ rw e (filter-IsComplete p rs rest)
]

or_false : (b : Bool) → (b || false) ≡ b
or_false true = refl
or_false false = refl

by_expiry-IsComplete :
    (include : Bool) (now : ℕ) (rs : List TaskRecord)
    → All IsComplete rs
    → All IsComplete (by_expiry include now rs)
unfolding by_expiry
by_expiry-IsComplete true now rs a = a
by_expiry-IsComplete false now rs a = filter-IsComplete (is_live now) rs a

entries_by_status-by_status :
    (o : StatusOption) (rs : List TaskRecord)
    → All IsComplete rs
    → entries_by_status o rs ≡ by_status o rs
unfolding entries_by_status by_status
entries_by_status-by_status absent rs a = refl
entries_by_status-by_status (one s) rs a =
    filter-agrees (is_among (s ∷ [])) (has_status s) rs
      (λ r k. is_among-any (s ∷ []) r k ∙ or_false (has_status s r)) a
entries_by_status-by_status (many ss) rs a =
    filter-agrees (is_among ss) (λ r. any (λ s. has_status s r) ss) rs (is_among-any ss) a

by_expiry-kept :
    (include : Bool) (now : ℕ) (rs : List TaskRecord)
    → All IsComplete rs
    → (if include then rs else filter (is_kept now) rs) ≡ by_expiry include now rs
unfolding by_expiry
by_expiry-kept true now rs a = refl
by_expiry-kept false now rs a = filter-agrees (is_kept now) (is_live now) rs (is_kept-is_live now) a

slices-page :
    (offset max_count : Option ℤ) (rs : List TaskRecord)
    → IsNatural offset
    → IsNatural max_count
    → slice_to max_count (slice_from offset rs) ≡ page offset max_count rs
unfolding slice_to slice_from page
slices-page none none rs a b = refl
slices-page (some (pos m)) none rs a b = refl
slices-page none (some (pos n)) rs a b = refl
slices-page (some (pos m)) (some (pos n)) rs a b = refl
slices-page (some (negsuc m)) o rs a b = absurd a
slices-page o (some (negsuc n)) rs a b = absurd b

list_entries_of-build_task_view :
    (rs : List TaskRecord) (o : TaskListOptions) (now : ℕ)
    → All IsComplete rs
    → IsNatural o.offset
    → IsNatural o.max_count
    → list_entries_of rs o now ≡ build_task_view rs o now
unfolding list_entries_of build_task_view
list_entries_of-build_task_view rs o now a m n =
    let kept = by_expiry-kept o.include_expired now rs a in
    let by =
      entries_by_status-by_status o.status (by_expiry o.include_expired now rs)
        (by_expiry-IsComplete o.include_expired now rs a) in
    slices-page o.offset o.max_count _ m n
    ∙ ap (page o.offset o.max_count) (ap (entries_by_status o.status) kept ∙ by)

by_expiry_empty : (include : Bool) (now : ℕ) → by_expiry include now [] ≡ []
unfolding by_expiry
by_expiry_empty true now = refl
by_expiry_empty false now = refl

by_status_empty : (o : StatusOption) → by_status o [] ≡ []
unfolding by_status
by_status_empty absent = refl
by_status_empty (one s) = refl
by_status_empty (many ss) = refl

drop_empty : (n : ℕ) → drop {A = TaskRecord} n [] ≡ []
drop_empty zero = refl
drop_empty (suc n) = refl

slices_empty :
    (offset max_count : Option ℤ)
    → IsNatural offset
    → IsNatural max_count
    → page offset max_count [] ≡ []
unfolding page
slices_empty none none a b = refl
slices_empty (some (pos m)) none a b = drop_empty m
slices_empty none (some (pos zero)) a b = refl
slices_empty none (some (pos (suc n))) a b = refl
slices_empty (some (pos m)) (some (pos zero)) a b = refl
slices_empty (some (pos m)) (some (pos (suc n))) a b = rw (drop_empty m) refl
slices_empty (some (negsuc m)) o a b = absurd a
slices_empty o (some (negsuc n)) a b = absurd b

build_task_view_empty :
    (o : TaskListOptions) (now : ℕ)
    → IsNatural o.offset
    → IsNatural o.max_count
    → build_task_view [] o now ≡ []
unfolding build_task_view
build_task_view_empty o now m n =
    ap (page o.offset o.max_count)
      (ap (by_status o.status) (by_expiry_empty o.include_expired now) ∙ by_status_empty o.status)
    ∙ slices_empty o.offset o.max_count m n

-- On a diary whose records have a status and no time to live of zero, `listDiaryEntries` and
-- `listTasks` list the same tasks, if the offset and the limit are not negative.
pub list_diary_entries-list_tasks :
    (c : Config) (o : TaskListOptions) (now : ℕ) (w : World)
    → All IsComplete (loaded c w).history
    → IsNatural o.offset
    → IsNatural o.max_count
    → list_diary_entries c o now w ≡ list_tasks c o now w
unfolding list_diary_entries list_tasks loaded load_diary list_in or_empty empty_state
list_diary_entries-list_tasks c o now w = listed (JsMap.get (diary_key c.agent_id) w.store)
  where
    listed :
        (s : Option AgentState)
        → All IsComplete (or_empty s).history
        → IsNatural o.offset
        → IsNatural o.max_count
        → list_in s o now ≡ build_task_view (or_empty s).history o now
    listed none a m n = sym (build_task_view_empty o now m n)
    listed (some s) a m n = list_entries_of-build_task_view s.history o now a m n
