-- ===== src/Diary/Once.antt =====
-- Exactly-once execution: of the calls of `executeOnce` for one task, the first runs its function.
use agent_diaries_core.Prelude.{
  ℕ, ◌≡◌, refl, sym, ◌∙◌, ap, subst, true, false, List, [], ◌∷◌, map, Option, none, some, arith,
  Text, All,
}
use agent_diaries_core.Shared.{TaskRecord, Error, message}
use agent_diaries_core.Shared.Effect.{M, Result, ok, err, bind-ok, bind-err}
use agent_diaries_core.Diary.{
  Config, World, signature_of, or_else, is_expired, loaded, saved, find_record, probe, new_claim,
  enter,
}
use agent_diaries_core.Diary.Claims.{
  Times, Answer, fresh, cached, mark_done, mark_failed, run_claimed, execute_once,
}
use agent_diaries_core.Diary.Probing.{
  loaded-saved, vacant, taken, hook_failed, never, lapsed, probe-Probed,
}
use agent_diaries_core.Diary.Invariant.{new_claim-signature}
use agent_diaries_core.Diary.Exclusive.{Stands-find_record, find_record-enter, IsWithin}
use agent_diaries_core.Diary.Replay.{IsQuiet, Ran, returned, threw, attempt-Ran}

module _ {T : Type 0} (stringify : T → Option Text) (c : Config) where
  module _ (title : Text) (fn : M World T) (ttl : Option ℕ) (t : Times) where
    s : Text
    s = signature_of c title

    ttl_ms : Option ℕ
    ttl_ms = or_else ttl c.default_ttl_ms

    claim : TaskRecord
    unfolding s ttl_ms
    claim = new_claim title s t.claimed ttl_ms

    -- What `executeOnce` does, by cases.
    data Executed (w : World) (p : World × Result (Answer T)) : Type 0 where
      replayed :
          (r : TaskRecord)
          → find_record (signature_of c title) (loaded c w).history ≡ some r
          → is_expired r t.claimed ≡ false
          → p ≡ (w, ok (cached r.result))
          → Executed w p
      ran : Ran c s stringify ttl_ms t claim p → Executed w p
      stopped :
          (r : TaskRecord)
          → find_record (signature_of c title) (loaded c w).history ≡ some r
          → is_expired r t.claimed ≡ true
          → (v : World) (e : Error) → v.store ≡ w.store
          → p ≡ (v, err e)
          → Executed w p

    execute_once-Executed :
        (w : World) → IsQuiet fn → Executed w (execute_once stringify c title fn ttl t w)
    unfolding execute_once claim
    execute_once-Executed w quiet =
        let look = probe c s t.claimed (loaded c w).history in
        let end = run_claimed stringify c title fn ttl_ms t (loaded c w) in
        elim (probe-Probed c s t.claimed (loaded c w).history w) [
          | vacant v kept q k e ↦ rw (bind-ok look end e) (
              ran (
                attempt-Ran c s stringify ttl_ms t fn claim
                  (saved c (enter c claim t.claimed (loaded c w) kept) v) quiet
                  (rw loaded-saved (
                    Stands-find_record s 1 (enter c claim t.claimed (loaded c w) kept).history (
                      find_record-enter c s claim t.claimed w kept
                        (new_claim-signature title s t.claimed ttl_ms))))))
          | taken r f l e ↦ replayed r f l (bind-ok look end e)
          | hook_failed r f o v x q e ↦ stopped r f o v x q (bind-err look end e)
        ]

    -- A live record is answered with its text; `fn` is not called and nothing is written.
    pub execute_once-replays :
        (w : World) (r : TaskRecord)
        → find_record (signature_of c title) (loaded c w).history ≡ some r
        → is_expired r t.claimed ≡ false
        → execute_once stringify c title fn ttl t w ≡ (w, ok (cached r.result))
    unfolding execute_once claim
    execute_once-replays w r f live =
        let look = probe c s t.claimed (loaded c w).history in
        let end = run_claimed stringify c title fn ttl_ms t (loaded c w) in
        elim (probe-Probed c s t.claimed (loaded c w).history w) [
          | vacant v kept q (never g k) e ↦ cc
          | vacant v kept q (lapsed x g o k) e ↦ cc
          | taken x g l e ↦
              let same : x ≡ r = cc in
              bind-ok look end e ∙ ap (λ (y : TaskRecord). (w, ok (cached y.result))) same
          | hook_failed x g o v y q e ↦ cc
        ]

pub record ExecuteCall (T : Type 0) : Type 0 where
  pub title : Text
  pub fn : M World T
  pub ttl : Option ℕ
  pub times : Times

module _ {T : Type 0} (stringify : T → Option Text) (c : Config) where
  -- Calls of `executeOnce`, with the world at the end.
  unfoldable pub execute_all : List (ExecuteCall T) → World → World × List (Result (Answer T))
  execute_all [] w = (w, [])
  execute_all (k ∷ ks) w =
      let (v, r) = execute_once stringify c k.title k.fn k.ttl k.times w in
      let (u, rs) = execute_all ks v in (u, r ∷ rs)

  -- The calls ask for the task of a title, before its record of `finished` runs out.
  abbrev pub AreRepeats : Text → Option ℕ → ℕ → List (ExecuteCall T) → Type 0
  AreRepeats title ttl finished = All (λ k.
      (signature_of c k.title ≡ signature_of c title)
      × IsWithin (or_else ttl c.default_ttl_ms) finished k.times.claimed)

  execute_all-replays :
      (s : Text) (r : TaskRecord) (ks : List (ExecuteCall T)) (w : World)
      → find_record s (loaded c w).history ≡ some r
      → All (λ k. (signature_of c k.title ≡ s) × (is_expired r k.times.claimed ≡ false)) ks
      → execute_all ks w ≡ (w, map (λ _. ok (cached r.result)) ks)
  unfolding execute_all
  execute_all-replays s r [] w e a = refl
  execute_all-replays s r (k ∷ ks) w e a =
      let first =
        execute_once-replays stringify c k.title k.fn k.ttl k.times w r
          (subst (λ x. find_record x (loaded c w).history ≡ some r) (sym a.0.0) e) a.0.1 in
      rw (first, execute_all-replays s r ks w e a.1)

  -- What `executeOnce` stores, as a result or as a failure, has the time to live of its call.
  pub mark_done-live :
      (title s : Text) (result : Option Text) (now finished at : ℕ) (ttl : Option ℕ)
      → IsWithin ttl finished at
      → is_expired (mark_done result ttl finished (new_claim title s now ttl)) at ≡ false
  unfolding is_expired mark_done new_claim
  mark_done-live title s result now finished at none h = refl
  mark_done-live title s result now finished at (some n) h = ground arith

  pub mark_failed-live :
      (title s reason : Text) (now finished at : ℕ) (ttl : Option ℕ)
      → IsWithin ttl finished at
      → is_expired (mark_failed reason finished (new_claim title s now ttl)) at ≡ false
  unfolding is_expired mark_failed new_claim
  mark_failed-live title s reason now finished at none h = refl
  mark_failed-live title s reason now finished at (some n) h = ground arith

  All-live :
      (title : Text) (ttl : Option ℕ) (finished : ℕ) (r : TaskRecord)
      → ((at : ℕ) → IsWithin (or_else ttl c.default_ttl_ms) finished at → is_expired r at ≡ false)
      → (ks : List (ExecuteCall T)) → AreRepeats title ttl finished ks
      → All
          (λ k.
            (signature_of c k.title ≡ signature_of c title)
            × (is_expired r k.times.claimed ≡ false))
          ks
  All-live title ttl finished r live [] a = tt
  All-live title ttl finished r live (k ∷ ks) a =
      ((a.0.0, live k.times.claimed a.0.1), All-live title ttl finished r live ks a.1)

  module _ (title : Text) (fn : M World T) (ttl : Option ℕ) (t : Times) where
    -- The record of a fresh result.
    pub execute_once-stored :
        (x : T) (w v : World)
        → IsQuiet fn
        → execute_once stringify c title fn ttl t w ≡ (v, ok (fresh x))
        → (r : TaskRecord) × (find_record (signature_of c title) (loaded c v).history ≡ some r)
          × (r.result ≡ stringify x)
          × ((at : ℕ)
              → IsWithin (or_else ttl c.default_ttl_ms) t.finished at
              → is_expired r at ≡ false)
    unfolding claim s ttl_ms mark_done
    execute_once-stored x w v quiet e =
        elim (execute_once-Executed stringify c title fn ttl t w quiet) [
          | replayed r f l d ↦ cc
          | ran (returned y u d h) ↦
              let at_end : u ≡ v = ap (λ p. p.0) (sym d ∙ e) in
              let same : y ≡ x = cc in
              (
                mark_done (stringify x) (or_else ttl c.default_ttl_ms) t.finished
                    (claim stringify c title fn ttl t),
                rw (← at_end, ← same) h,
                refl,
                λ at. mark_done-live title _ _ t.claimed t.finished at _,
              )
          | ran (threw y u d h) ↦ cc
          | stopped r f o u y q d ↦ cc
        ]

    -- Once a call has returned a fresh result, calls with the same signature that follow it with no
    -- other calls between, each before the time to live of the result has passed, all answer with
    -- the text stored for it: their own functions are not run and nothing is written. The function
    -- of the first call leaves the diaries alone.
    pub execute_all-once :
        (x : T) (w v : World) (ks : List (ExecuteCall T))
        → IsQuiet fn
        → execute_once stringify c title fn ttl t w ≡ (v, ok (fresh x))
        → AreRepeats title ttl t.finished ks
        → execute_all ks v ≡ (v, map (λ _. ok (cached (stringify x))) ks)
    unfolding claim s ttl_ms mark_done
    execute_all-once x w v ks quiet e a =
        elim (execute_once-Executed stringify c title fn ttl t w quiet) [
          | replayed r f l d ↦ cc
          | ran (returned y u d h) ↦
              let at_end : u ≡ v = ap (λ p. p.0) (sym d ∙ e) in
              let same : y ≡ x = cc in
              let r =
                mark_done (stringify x) (or_else ttl c.default_ttl_ms) t.finished
                  (claim stringify c title fn ttl t) in
              execute_all-replays (signature_of c title) r ks v (rw (← at_end, ← same) h) (
                All-live title ttl t.finished r
                  (λ at. mark_done-live title _ _ t.claimed t.finished at _) ks a)
          | ran (threw y u d h) ↦ cc
          | stopped r f o u y q d ↦ cc
        ]

    -- A function that throws is not run again either: while the failed record lives, every repeat
    -- answers with no result.
    pub execute_all-after_failure :
        (e : Error) (w v : World) (ks : List (ExecuteCall T))
        → IsQuiet fn
        → find_record (signature_of c title) (loaded c w).history ≡ none
        → execute_once stringify c title fn ttl t w ≡ (v, err e)
        → AreRepeats title ttl t.finished ks
        → execute_all ks v ≡ (v, map (λ _. ok (cached none)) ks)
    unfolding claim s ttl_ms mark_failed new_claim
    execute_all-after_failure e w v ks quiet absent d a =
        elim (execute_once-Executed stringify c title fn ttl t w quiet) [
          | replayed r f l p ↦ cc
          | ran (returned y u p h) ↦ cc
          | ran (threw y u p h) ↦
              let at_end : u ≡ v = ap (λ p. p.0) (sym p ∙ d) in
              let r = mark_failed (message y) t.finished (claim stringify c title fn ttl t) in
              execute_all-replays (signature_of c title) r ks v (rw (← at_end) h) (
                All-live title ttl t.finished r
                  (λ at. mark_failed-live title _ _ t.claimed t.finished at _) ks a)
          | stopped r f o u y q p ↦ cc
        ]
