-- ===== src/Events/Once.antt =====
-- How often the closures of `once` are called.
use native.Mathlib.Nat.{zero-add}
use agent_diaries_core.Prelude.{
  ℕ, zero, suc, ◌+◌, ◌<◌, ◌≡◌, refl, ◌∙◌, ap, ◌≢◌, List, [], ◌∷◌, ◌++◌, none, some, arith, Text,
}
use agent_diaries_core.JsMap
use agent_diaries_core.Events.{
  Handler, handler, wrapper, Call, on, off, once, emit, remove_all_listeners, Bus, listeners,
  subscribe, unsubscribe, subscribe_once, remove_all, Task, act, deliver, perform, invoke, step,
  work,
}
use agent_diaries_core.Events.Tally.{
  tally, targets, tally-append, targets-acts, targets-deliver, suc_out, tally-head, total,
}
use agent_diaries_core.Events.Absence.{IsGone, step-IsGone, remove_from-called, leave-IsGone}

module _ {P : Type 0} (react : ℕ → P → List (Call P)) where
  perform-total :
      (r h : ℕ) (c : Call P) (b : Bus) (ts : List (Task P))
      → IsGone r h b
      → tally (wrapper r h) (perform react c b).0.called
          + tally (wrapper r h) (targets ((perform react c b).1 ++ ts))
        ≡ tally (wrapper r h) b.called + tally (wrapper r h) (targets ts)
  unfolding perform subscribe unsubscribe subscribe_once remove_all
  perform-total r h (on event x) b ts g = refl
  perform-total r h (off event x) b ts g =
      rw (remove_from-called event x b (JsMap.get event b.handlers)) refl
  perform-total r h (once event x) b ts g = refl
  perform-total r h (emit event p) b ts g =
      rw
        (
          targets-deliver event p (listeners event b) ts,
          tally-append (wrapper r h) (listeners event b) (targets ts),
          g.absent event,
          zero-add (tally (wrapper r h) (targets ts)),
        )
        refl
  perform-total r h (remove_all_listeners none) b ts g = refl
  perform-total r h (remove_all_listeners (some event)) b ts g = refl

  deliver-total :
      (w : Handler) (event : Text) (p : P) (x : Handler) (b : Bus) (ts : List (Task P))
      → tally w (invoke react event p x b).0.called
          + tally w (targets ((invoke react event p x b).1 ++ ts))
        ≡ tally w b.called + tally w (x ∷ targets ts)
  unfolding invoke tally
  deliver-total w event p (handler x) b ts = rw (targets-acts (react x p) ts) (ground arith)
  deliver-total w event p (wrapper q x) b ts = rw (targets-acts (react x p) ts) (ground arith)

  step-total :
      (r h : ℕ) (t : Task P) (b : Bus) (ts : List (Task P))
      → IsGone r h b
      → tally (wrapper r h) (step react t b).0.called
          + tally (wrapper r h) (targets ((step react t b).1 ++ ts))
        ≡ tally (wrapper r h) b.called + tally (wrapper r h) (targets (t ∷ ts))
  unfolding step targets
  step-total r h (act c) b ts g = perform-total r h c b ts g
  step-total r h (deliver event p x) b ts g = deliver-total (wrapper r h) event p x b ts

  work-total :
      (r h n : ℕ) (ts : List (Task P)) (b : Bus)
      → IsGone r h b
      → total (wrapper r h) (work react n ts b) ≡ total (wrapper r h) (b, ts)
  unfolding work
  work-total r h zero ts b g = refl
  work-total r h (suc n) [] b g = refl
  work-total r h (suc n) (t ∷ ts) b g =
      work-total r h n ((step react t b).1 ++ ts) (step react t b).0 (step-IsGone react r h t b g)
      ∙ step-total r h t b ts g

  invoke-IsGone :
      (r h : ℕ) (event : Text) (p : P) (b : Bus)
      → JsMap.IsMap b.handlers
      → r < b.made
      → ((k : Text) → event ≢ k → tally (wrapper r h) (listeners k b) ≡ 0)
      → IsGone r h (invoke react event p (wrapper r h) b).0
  unfolding invoke unsubscribe listeners
  invoke-IsGone r h event p b m l only =
      let g = leave-IsGone r h event b (JsMap.get event b.handlers) refl m l only in
      record { fresh = g.fresh; keyed = g.keyed; absent = g.absent }

  -- A closure that `once` has made, on a bus with each event once in its map, is subscribed to one
  -- event at most and is called for that event. It takes itself off: whatever handlers call
  -- afterwards, it is called again just for the deliveries that were due already.
  pub work-once :
      (r h n : ℕ) (event : Text) (p : P) (ts : List (Task P)) (b : Bus)
      → JsMap.IsMap b.handlers
      → r < b.made
      → ((k : Text) → event ≢ k → tally (wrapper r h) (listeners k b) ≡ 0)
      → total (wrapper r h) (work react (suc n) (deliver event p (wrapper r h) ∷ ts) b)
        ≡ suc (tally (wrapper r h) b.called + tally (wrapper r h) (targets ts))
  unfolding work step
  work-once r h n event p ts b m l only =
      let w = wrapper r h in
      let o = invoke react event p w b in
      work-total r h n (o.1 ++ ts) o.0 (invoke-IsGone r h event p b m l only)
      ∙ deliver-total w event p w b ts
      ∙ ap (λ k. tally w b.called + k) (tally-head w (targets ts))
      ∙ suc_out (tally w b.called) (tally w (targets ts))
