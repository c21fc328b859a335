-- ===== src/Diary/Replay.antt =====
-- `executeOnce` after `executeOnce`: the second call answers with what the first one stored.
use agent_diaries_core.Prelude.{ℕ, ◌≡◌, refl, sym, ◌∙◌, subst, Option, some, Text}
use agent_diaries_core.Shared.{TaskRecord, Error, message}
use agent_diaries_core.Shared.Effect.{
  M, Result, ok, err, return, throw, catch, bind-ok, bind-err, catch-ok, catch-err,
}
use agent_diaries_core.Diary.{Config, World, loaded, saved, find_record, modify_record}
use agent_diaries_core.Diary.Claims.{
  Times, Answer, fresh, mark_done, mark_failed, edit_found, record_failure, record_result,
  fail_with, answer_with, attempt,
}
use agent_diaries_core.Diary.Records.{find_record-modify_record}
use agent_diaries_core.Diary.Probing.{loaded-saved, loaded-of-store}

-- `fn` leaves the store alone: the lock keeps other calls out while it runs.
abbrev pub IsQuiet : {T : Type 0} → M World T → Type 0
IsQuiet fn = (w : World) → (fn w).0.store ≡ w.store

module _ (c : Config) (s : Text) where
  abbrev pub Has : World → TaskRecord → Type 0
  Has w r = find_record s (loaded c w).history ≡ some r

  edit_found-Has :
      (f : TaskRecord → TaskRecord) (at : ℕ) (r : TaskRecord) (w : World)
      → ((x : TaskRecord) → (f x).signature ≡ x.signature)
      → Has w r
      → (v : World) × (edit_found c s f (loaded c w) at (find_record s (loaded c w).history) w
          ≡ (v, ok tt))
        × Has v (f r)
  unfolding edit_found
  edit_found-Has f at r w same e = (
    saved c
        (record (loaded c w) { history = modify_record s f (loaded c w).history; last_run = at }) w,
    rw (e, edit_found),
    rw loaded-saved (find_record-modify_record s f same (loaded c w).history e),
  )

  module _ {T : Type 0} (stringify : T → Option Text) (ttl : Option ℕ) (t : Times) where
    answer_with-Has :
        (x : T) (r : TaskRecord) (w : World)
        → Has w r
        → (v : World) × (answer_with stringify c s ttl t x w ≡ (v, ok (fresh x)))
          × Has v (mark_done (stringify x) ttl t.finished r)
    unfolding answer_with record_result mark_done
    answer_with-Has x r w e =
        let (v, d, h) =
          edit_found-Has (mark_done (stringify x) ttl t.finished) t.stored r w (λ _. refl) e in
        (v, bind-ok (record_result c s (stringify x) ttl t) (λ _. return (fresh x)) d, h)

    fail_with-Has :
        (e : Error) (r : TaskRecord) (w : World)
        → Has w r
        → (v : World) × (fail_with stringify c s t e w ≡ (v, err e))
          × Has v (mark_failed (message e) t.finished r)
    unfolding fail_with record_failure mark_failed
    fail_with-Has e r w h =
        let (v, d, k) =
          edit_found-Has (mark_failed (message e) t.finished) (loaded c w).last_run r w (λ _. refl)
            h in
        (v, bind-ok (record_failure c s e t.finished) (λ _. throw e) d, k)

    -- What an execution leaves behind, from its result.
    pub data Ran (r : TaskRecord) (p : World × Result (Answer T)) : Type 0 where
      returned :
          (x : T) (v : World)
          → p ≡ (v, ok (fresh x))
          → Has v (mark_done (stringify x) ttl t.finished r)
          → Ran r p
      threw :
          (e : Error) (v : World)
          → p ≡ (v, err e)
          → Has v (mark_failed (message e) t.finished r)
          → Ran r p

    attempt-Ran-of :
        (fn : M World T) (r : TaskRecord) (w u : World) (q : Result T)
        → fn w ≡ (u, q)
        → Has u r
        → Ran r (attempt stringify c s fn ttl t w)
    unfolding attempt
    attempt-Ran-of fn r w u (ok x) e h =
        let (v, d, k) = answer_with-Has x r u h in
        returned x v
          (bind-ok (catch fn (fail_with stringify c s t)) (answer_with stringify c s ttl t)
              (catch-ok fn (fail_with stringify c s t) e)
            ∙ d)
          k
    attempt-Ran-of fn r w u (err x) e h =
        let (v, d, k) = fail_with-Has x r u h in
        threw x v
          (bind-err (catch fn (fail_with stringify c s t)) (answer_with stringify c s ttl t)
            (catch-err fn (fail_with stringify c s t) e ∙ d))
          k

    pub attempt-Ran :
        (fn : M World T) (r : TaskRecord) (w : World)
        → IsQuiet fn
        → Has w r
        → Ran r (attempt stringify c s fn ttl t w)
    attempt-Ran fn r w quiet h = attempt-Ran-of fn r w (fn w).0 (fn w).1 refl (
        subst (λ a. find_record s a.history ≡ some r) (sym (loaded-of-store c (fn w).0 w (quiet w)))
          h)
