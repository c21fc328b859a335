-- ===== src/Diary/Invariant.antt =====
-- The invariant of a stored diary, and the methods that keep it.
pub mod Runs
pub mod Batches
pub mod Upkeep
use agent_diaries_core.Prelude.{
  ℕ, zero, suc, ◌≤◌, ◌≡◌, refl, sym, ◌∙◌, subst, Bool, List, ◌∷◌, Option, none, some, ◌==◌,
  length-filter-le, arith, Text, codes, length, length-take, take, filter, Bool-cases, inl, inr,
}
use agent_diaries_core.Shared.{TaskRecord, AgentState}
use agent_diaries_core.Shared.Effect.{Result, Preserves}
use agent_diaries_core.Diary.{
  Config, World, limit, signature_of, history_limit, or_else, loaded, saved, signatures,
  modify_record, find_record, enter, new_claim,
}
use agent_diaries_core.Diary.Claims.{claim_task, edit_found}
use agent_diaries_core.Diary.Claiming.{entered, refused, stopped, claim_task-outcome}
use agent_diaries_core.Diary.Outcomes.{
  settle, edit_claimed, write_task_result, settle_failed, fail_task, differs, delete_task,
}
use agent_diaries_core.Diary.Records.{
  IsFree, IsDistinct, take-IsDistinct, filter-IsDistinct, modify_record-IsDistinct,
  length-modify_record, signatures-modify_record,
}
use agent_diaries_core.Diary.Probing.{loaded-saved, loaded-of-store, Vacated, Vacated-room}

-- No signature twice, no more records than the limit, and the index of signatures up to date.
pub record IsValid (c : Config) (s : AgentState) : Type 0 where
  pub distinct : IsDistinct s.history
  pub bounded : length s.history ≤ limit c
  pub indexed : s.seen_signatures ≡ signatures s.history

abbrev pub Valid : Config → World → Type 0
Valid c w = IsValid c (loaded c w)

pub new_claim-signature :
    (title s : Text) (now : ℕ) (ttl : Option ℕ) → (new_claim title s now ttl).signature ≡ s
unfolding new_claim
new_claim-signature title s now ttl = refl

pub history_limit-pos : (n : Option ℕ) → 1 ≤ history_limit n
unfolding history_limit
history_limit-pos none = omega arith
history_limit-pos (some zero) = omega arith
history_limit-pos (some (suc n)) = omega arith

pub enter-IsValid :
    (c : Config) (r : TaskRecord) (now : ℕ) (s : AgentState) (h : List TaskRecord)
    → IsFree r.signature h
    → IsDistinct h
    → IsValid c (enter c r now s h)
unfolding enter
enter-IsValid c r now s h f d = record {
  distinct = take-IsDistinct (limit c) (r ∷ h) (f, d);
  bounded = omega (arith, length-take (limit c) (r ∷ h));
  indexed = refl;
}

-- A claim, whatever its outcome, keeps the invariant.
pub claim_task-IsValid :
    (c : Config) (title : Text) (ttl : Option ℕ) (now : ℕ)
    → Preserves (Valid c) (claim_task c title ttl now)
claim_task-IsValid c title ttl now w i = elim (claim_task-outcome c title ttl now w) [
  | entered v kept q k e ↦
      let (f, d, l) = Vacated-room k i.distinct in
      let s = signature_of c title in
      let r = new_claim title s now (or_else ttl c.default_ttl_ms) in
      rw (e, loaded-saved)
        (enter-IsValid c r now (loaded c w) kept
          (subst (λ t. IsFree t kept) (sym (new_claim-signature title s now _)) f) d)
  | refused r f l e ↦ rw e i
  | stopped r f o v x q e ↦ rw (e, loaded-of-store c v w q) i
]

-- A change to the record of one signature that leaves the signature alone.
module _ (c : Config) (w : World) (i : Valid c w) (s : Text) (f : TaskRecord → TaskRecord)
    (same : (r : TaskRecord) → (f r).signature ≡ r.signature) (at : ℕ) where
  edited : AgentState
  edited = record (loaded c w) { history = modify_record s f (loaded c w).history; last_run = at }

  edited-Valid : Valid c (saved c edited w)
  unfolding edited
  edited-Valid = rw loaded-saved (record {
    distinct = modify_record-IsDistinct s f same (loaded c w).history i.distinct;
    bounded = rw length-modify_record i.bounded;
    indexed = i.indexed ∙ sym (signatures-modify_record s f same (loaded c w).history);
  })

edit_claimed-IsValid :
    (c : Config) (title method : Text) (f : TaskRecord → TaskRecord) (now : ℕ)
    (o : Option TaskRecord) (w : World)
    → ((r : TaskRecord) → (f r).signature ≡ r.signature)
    → Valid c w
    → Valid c (edit_claimed c title method f now (loaded c w) o w).0
unfolding edit_claimed edited
edit_claimed-IsValid c title method f now none w same i = i
edit_claimed-IsValid c title method f now (some r) w same i =
    edited-Valid c w i (signature_of c title) f same now

pub edit_found-IsValid :
    (c : Config) (s : Text) (f : TaskRecord → TaskRecord) (at : ℕ) (o : Option TaskRecord)
    (w : World)
    → ((r : TaskRecord) → (f r).signature ≡ r.signature)
    → Valid c w
    → Valid c (edit_found c s f (loaded c w) at o w).0
unfolding edit_found edited
edit_found-IsValid c s f at none w same i = i
edit_found-IsValid c s f at (some r) w same i = edited-Valid c w i s f same at

pub write_task_result-IsValid :
    (c : Config) (title : Text) (result : Option Text) (ttl : Option ℕ) (now : ℕ)
    → Preserves (Valid c) (write_task_result c title result ttl now)
unfolding write_task_result settle
write_task_result-IsValid c title result ttl now w =
    edit_claimed-IsValid c title (codes "writeTaskResult")
      (settle result (or_else ttl c.default_ttl_ms) c.default_ttl_ms now) now
      (find_record (signature_of c title) (loaded c w).history) w (λ r. refl)

pub fail_task-IsValid :
    (c : Config) (title : Text) (reason : Option Text) (now : ℕ)
    → Preserves (Valid c) (fail_task c title reason now)
unfolding fail_task settle_failed
fail_task-IsValid c title reason now w =
    edit_claimed-IsValid c title (codes "failTask") (settle_failed reason now) now
      (find_record (signature_of c title) (loaded c w).history) w (λ r. refl)

pub filtered-IsValid :
    (c : Config) (p : TaskRecord → Bool) (s : AgentState)
    → IsValid c s
    → IsValid c (record s {
      history = filter p s.history;
      seen_signatures = signatures (filter p s.history);
    })
filtered-IsValid c p s i = record {
  distinct = filter-IsDistinct p s.history i.distinct;
  bounded = omega (arith, i.bounded, length-filter-le p s.history);
  indexed = refl;
}

pub delete_task-IsValid : (c : Config) (title : Text) → Preserves (Valid c) (delete_task c title)
unfolding delete_task
delete_task-IsValid c title w i =
    let kept = filter (differs (signature_of c title)) (loaded c w).history in
    elim (Bool-cases (length kept == length (loaded c w).history)) [
      | inl e ↦ rw e i
      | inr e ↦
          rw (e, loaded-saved) (filtered-IsValid c (differs (signature_of c title)) (loaded c w) i)
    ]
