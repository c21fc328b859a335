-- ===== src/Diary/Invariant/Runs.antt =====
-- `executeOnce` keeps the invariant.
use agent_diaries_core.Prelude.{ℕ, refl, sym, subst, Option, Text}
use agent_diaries_core.Shared.{Error}
use agent_diaries_core.Shared.Effect.{
  M, return, throw, catch, Preserves, Preserves-bind, Preserves-catch, bind-ok, bind-err,
}
use agent_diaries_core.Diary.{
  Config, World, signature_of, or_else, loaded, saved, find_record, probe, enter, new_claim,
}
use agent_diaries_core.Diary.Claims.{
  Times, fresh, mark_failed, mark_done, record_failure, record_result, fail_with, answer_with,
  attempt, run_claimed, execute_once,
}
use agent_diaries_core.Diary.Records.{IsFree}
use agent_diaries_core.Diary.Probing.{
  loaded-saved, loaded-of-store, Vacated-room, vacant, taken, hook_failed, probe-Probed,
}
use agent_diaries_core.Diary.Invariant.{
  Valid, edit_found-IsValid, enter-IsValid, new_claim-signature,
}

record_failure-IsValid :
    (c : Config) (s : Text) (e : Error) (now : ℕ) → Preserves (Valid c) (record_failure c s e now)
unfolding record_failure mark_failed
record_failure-IsValid c s e now w =
    edit_found-IsValid c s (mark_failed _ now) _ (find_record s (loaded c w).history) w (λ r. refl)

record_result-IsValid :
    (c : Config) (s : Text) (result : Option Text) (ttl : Option ℕ) (t : Times)
    → Preserves (Valid c) (record_result c s result ttl t)
unfolding record_result mark_done
record_result-IsValid c s result ttl t w =
    edit_found-IsValid c s (mark_done result ttl t.finished) t.stored
      (find_record s (loaded c w).history) w (λ r. refl)

module _ {T : Type 0} (stringify : T → Option Text) (c : Config) (s : Text) (ttl : Option ℕ)
    (t : Times) where
  fail_with-IsValid : (e : Error) → Preserves (Valid c) (fail_with stringify c s t e)
  unfolding fail_with
  fail_with-IsValid e =
      Preserves-bind (Valid c) (record_failure c s e t.finished) (λ _. throw e)
        (record_failure-IsValid c s e t.finished) (λ _ w i. i)

  answer_with-IsValid : (r : T) → Preserves (Valid c) (answer_with stringify c s ttl t r)
  unfolding answer_with
  answer_with-IsValid r =
      Preserves-bind (Valid c) (record_result c s (stringify r) ttl t) (λ _. return (fresh r))
        (record_result-IsValid c s (stringify r) ttl t) (λ _ w i. i)

  attempt-IsValid :
      (fn : M World T)
      → Preserves (Valid c) fn
      → Preserves (Valid c) (attempt stringify c s fn ttl t)
  unfolding attempt
  attempt-IsValid fn quiet =
      Preserves-bind (Valid c) (catch fn (fail_with stringify c s t))
        (answer_with stringify c s ttl t)
        (Preserves-catch (Valid c) fn (fail_with stringify c s t) quiet fail_with-IsValid)
        answer_with-IsValid

-- `executeOnce` keeps the invariant if `fn` does, whether it returns or throws.
pub execute_once-IsValid :
    {T : Type 0} (stringify : T → Option Text) (c : Config) (title : Text) (fn : M World T)
    → Preserves (Valid c) fn
    → (ttl : Option ℕ) (t : Times) → Preserves (Valid c) (execute_once stringify c title fn ttl t)
unfolding execute_once
execute_once-IsValid stringify c title fn quiet ttl t w i =
    let s = signature_of c title in
    let ttl_ms = or_else ttl c.default_ttl_ms in
    let look = probe c s t.claimed (loaded c w).history in
    let end = run_claimed stringify c title fn ttl_ms t (loaded c w) in
    elim (probe-Probed c s t.claimed (loaded c w).history w) [
      | vacant v kept q k e ↦
          let (f, d, l) = Vacated-room k i.distinct in
          rw (bind-ok look end e) (
            attempt-IsValid stringify c s ttl_ms t fn quiet
              (saved c (enter c (new_claim title s t.claimed ttl_ms) t.claimed (loaded c w) kept) v)
              (rw loaded-saved (
                enter-IsValid c _ t.claimed (loaded c w) kept
                  (subst (λ x. IsFree x kept) (sym (new_claim-signature title s t.claimed _)) f)
                  d)))
      | taken r f l e ↦ rw (bind-ok look end e) i
      | hook_failed r f o v x q e ↦ rw (bind-err look end e, loaded-of-store c v w q) i
    ]
