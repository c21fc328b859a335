-- ===== src/Adapters/Retry/Ending.antt =====
-- Every call of `withLock` of an adapter ends.
use agent_diaries_core.Prelude.{
  ℕ, zero, suc, ◌+◌, ◌≤◌, ◌≡◌, refl, sym, ◌∙◌, ap, subst, Bool, true, false, List, [], ◌∷◌, arith,
  length, All,
}
use agent_diaries_core.Shared.{Error}
use agent_diaries_core.Shared.Effect.{M, Result, ok, err}
use agent_diaries_core.Adapters.Retry
use agent_diaries_core.Adapters.Retry.{Run, backoff, after_try, after_finally, finish}

abbrev pub AreShort : List ℕ → Type 0
AreShort ws = All (λ w. w ≤ 500) ws

backoff-le : (n : ℕ) → backoff n ≤ 500
unfolding backoff
backoff-le n = omega arith

shifted : (a n : ℕ) → a + suc n ≡ suc a + n
shifted a n = omega arith

after_finally-err :
    {A : Type 0} (result : Result A) (x : Result (Unit {0})) (e : Error)
    → x ≡ err e
    → after_finally result x ≡ err e
unfolding after_finally
after_finally-err result x e h = rw h refl

after_finally-ok :
    {A : Type 0} (result : Result A) (x : Result (Unit {0}))
    → x ≡ ok tt
    → after_finally result x ≡ result
unfolding after_finally
after_finally-ok result x h = rw h refl

module _ {S : Type 0} (acquire_lock : ℕ → M S Bool) (meanwhile : ℕ → S → S) (timeout : Error) where
  -- How a loop ends that may try again so many times.
  pub data Ends (left attempt : ℕ) (r : Run S (Unit {0})) : Type 0 where
    locked :
        (n : ℕ) (t : S)
        → n ≤ left
        → length r.waits ≡ n
        → acquire_lock (attempt + n) t ≡ (r.store, ok true)
        → r.result ≡ ok tt
        → Ends left attempt r
    gave_up : length r.waits ≡ suc left → r.result ≡ err timeout → Ends left attempt r
    broke :
        (n : ℕ) (t : S) (e : Error)
        → n ≤ left
        → length r.waits ≡ n
        → acquire_lock (attempt + n) t ≡ (r.store, err e)
        → r.result ≡ err e
        → Ends left attempt r

  one_later :
      (left attempt wait : ℕ) (r : Run S (Unit {0}))
      → Ends left (suc attempt) r
      → Ends (suc left) attempt (record r { waits = wait ∷ r.waits })
  one_later left attempt wait r (locked n t l w e f) =
      locked (suc n) t (omega arith) (ap suc w) (ap (λ m. acquire_lock m t) (shifted attempt n) ∙ e)
        f
  one_later left attempt wait r (gave_up w f) = gave_up (ap suc w) f
  one_later left attempt wait r (broke n t x l w e f) =
      broke (suc n) t x (omega arith) (ap suc w)
        (ap (λ m. acquire_lock m t) (shifted attempt n) ∙ e) f

  after_try-Ends :
      (left attempt : ℕ) (s : S) (x : S × Result Bool) (more : S → Run S (Unit {0}))
      → acquire_lock attempt s ≡ x
      → ((t : S)
          → Ends left attempt (record (more t) { waits = backoff attempt ∷ (more t).waits })
            × AreShort (more t).waits)
      → let r = after_try (backoff attempt) x more in Ends left attempt r × AreShort r.waits
  unfolding after_try
  after_try-Ends left attempt s (t, ok true) more e goes_on =
      (locked 0 s (omega arith) refl (ap (λ m. acquire_lock m s) (omega arith) ∙ e) refl, tt)
  after_try-Ends left attempt s (t, ok false) more e goes_on =
      ((goes_on t).0, (backoff-le attempt, (goes_on t).1))
  after_try-Ends left attempt s (t, err x) more e goes_on =
      (broke 0 s x (omega arith) refl (ap (λ m. acquire_lock m s) (omega arith) ∙ e) refl, tt)

  loop-Ends :
      (left attempt : ℕ) (s : S)
      → let r = Retry.loop acquire_lock meanwhile timeout left attempt s in
        Ends left attempt r × AreShort r.waits
  unfolding Retry.loop
  loop-Ends zero attempt s =
      after_try-Ends 0 attempt s (acquire_lock attempt s) _ refl (λ t. (gave_up refl refl, tt))
  loop-Ends (suc left) attempt s =
      after_try-Ends (suc left) attempt s (acquire_lock attempt s) _ refl (λ t.
        let (ends, short) = loop-Ends left (suc attempt) (meanwhile attempt t) in
        (one_later left attempt (backoff attempt) _ ends, short))

  -- What a call of `withLock` comes to, of so many tries at most.
  pub data Outcome {A : Type 0} (prepared : S × Result (Unit {0})) (limit : ℕ) (fn : M S A)
      (release : M S (Unit {0})) (r : Run S A) : Type 0 where
    ran :
        (n : ℕ) (t u : S)
        → n ≤ limit
        → length r.waits ≡ n
        → acquire_lock n t ≡ (u, ok true)
        → r.store ≡ (release (fn u).0).0
        → ((release (fn u).0).1 ≡ ok tt → r.result ≡ (fn u).1)
        → ((e : Error) → (release (fn u).0).1 ≡ err e → r.result ≡ err e)
        → Outcome prepared limit fn release r
    timed_out :
        length r.waits ≡ suc limit → r.result ≡ err timeout → Outcome prepared limit fn release r
    failed :
        (n : ℕ) (t u : S) (e : Error)
        → n ≤ limit
        → length r.waits ≡ n
        → acquire_lock n t ≡ (u, err e)
        → r.result ≡ err e
        → Outcome prepared limit fn release r
    unprepared :
        (e : Error)
        → prepared ≡ (r.store, err e)
        → r.result ≡ err e
        → r.waits ≡ []
        → Outcome prepared limit fn release r

  finish-Outcome :
      {A : Type 0} (prepared : S × Result (Unit {0})) (limit : ℕ) (fn : M S A)
      (release : M S (Unit {0})) (r : Run S (Unit {0}))
      → Ends limit 0 r
      → Outcome prepared limit fn release (finish fn release r.store r.waits r.result)
  unfolding finish
  finish-Outcome prepared limit fn release r (locked n t l w e f) = rw f (
      ran n t r.store l w (ap (λ m. acquire_lock m t) (omega arith) ∙ e) refl (after_finally-ok _ _)
        (after_finally-err _ _))
  finish-Outcome prepared limit fn release r (gave_up w f) = rw f (timed_out w refl)
  finish-Outcome prepared limit fn release r (broke n t x l w e f) =
      rw f (failed n t r.store x l w (ap (λ m. acquire_lock m t) (omega arith) ∙ e) refl)

  finish-waits :
      {A : Type 0} (fn : M S A) (release : M S (Unit {0})) (t : S) (waits : List ℕ)
      (x : Result (Unit {0}))
      → (finish fn release t waits x).waits ≡ waits
  unfolding finish
  finish-waits fn release t waits (ok x) = refl
  finish-waits fn release t waits (err e) = refl

  lock_and_run-Outcome :
      {A : Type 0} (limit : ℕ) (fn : M S A) (release : M S (Unit {0}))
      (prepared : S × Result (Unit {0}))
      → let r = Retry.lock_and_run acquire_lock meanwhile timeout limit fn release prepared in
        Outcome prepared limit fn release r × AreShort r.waits
  unfolding Retry.lock_and_run
  lock_and_run-Outcome limit fn release (s, err e) = (unprepared e refl refl refl, tt)
  lock_and_run-Outcome limit fn release (s, ok x) =
      let (ends, short) = loop-Ends limit 0 s in
      let r = Retry.loop acquire_lock meanwhile timeout limit 0 s in
      (
        finish-Outcome (s, ok x) limit fn release r ends,
        subst AreShort (sym (finish-waits fn release r.store r.waits r.result)) short,
      )

  -- Whatever the database and the other clients do, `withLock` ends: it tries at most once more
  -- than its limit, with waits of at most 500 ms before the random part. If it gets the lock, the
  -- function runs and then the release; the call ends as the function did, or with the error of the
  -- release if that throws one. Otherwise the call throws the timeout, or the error of a try or of
  -- the preparation before the first try.
  pub with_lock-Outcome :
      {A : Type 0} (prepare : M S (Unit {0})) (limit : ℕ) (fn : M S A) (release : M S (Unit {0}))
      (s : S)
      → let r = Retry.with_lock acquire_lock meanwhile timeout prepare limit fn release s in
        Outcome (prepare s) limit fn release r × AreShort r.waits
  unfolding Retry.with_lock
  with_lock-Outcome prepare limit fn release s = lock_and_run-Outcome limit fn release (prepare s)
