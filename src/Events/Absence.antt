-- ===== src/Events/Absence.antt =====
-- A closure of `once` that has been taken off stays off.
use agent_diaries_core.Prelude.{
  ℕ, ◌<◌, ◌≡◌, refl, sym, ◌∙◌, ap, ◌≢◌, if_pos, List, Option, none, some, arith, Text,
  Text-discrete,
}
use agent_diaries_core.JsMap
use agent_diaries_core.Events.{
  Handler, handler, wrapper, Call, on, off, once, emit, remove_all_listeners, Bus, or_empty_set,
  listeners, add, remove, subscribe, unsubscribe, remove_from, subscribe_once, remove_all, Task,
  act, deliver, perform, invoke, step,
}
use agent_diaries_core.Events.Tally.{tally, tally-remove_self, tally-remove, tally-add}

-- The closure is made and subscribed to no event.
pub record IsGone (r h : ℕ) (b : Bus) : Type 0 where
  pub fresh : r < b.made
  pub keyed : JsMap.IsMap b.handlers
  pub absent : (event : Text) → tally (wrapper r h) (listeners event b) ≡ 0

-- A change of one event's set that adds no closure `wrapper r h`.
pub set-IsGone :
    (r h : ℕ) (event : Text) (hs : List Handler) (b : Bus)
    → tally (wrapper r h) hs ≡ 0
    → IsGone r h b
    → IsGone r h (record b { handlers = JsMap.set event hs b.handlers })
unfolding listeners
set-IsGone r h event hs b e g = record {
  fresh = g.fresh;
  keyed = JsMap.set-IsMap event hs b.handlers g.keyed;
  absent = λ k. elim (Text-discrete event k) [
    | yes p ↦ rw (JsMap.get-set k event hs b.handlers, if_pos (Text-discrete event k) p) e
    | no n ↦ rw (JsMap.get-set_ne k event hs b.handlers n) (g.absent k)
  ];
}

pub remove_from-IsGone :
    (r h : ℕ) (event : Text) (x : Handler) (b : Bus) (o : Option (List Handler))
    → tally (wrapper r h) (or_empty_set o) ≡ 0
    → IsGone r h b
    → IsGone r h (remove_from event x b o)
unfolding remove_from
remove_from-IsGone r h event x b none e g = g
remove_from-IsGone r h event x b (some hs) e g =
    set-IsGone r h event (remove x hs) b (tally-remove (wrapper r h) x hs e) g

pub unsubscribe-IsGone :
    (r h : ℕ) (event : Text) (x : Handler) (b : Bus)
    → IsGone r h b
    → IsGone r h (unsubscribe event x b)
unfolding unsubscribe listeners
unsubscribe-IsGone r h event x b g =
    remove_from-IsGone r h event x b (JsMap.get event b.handlers) (g.absent event) g

pub subscribe-IsGone :
    (r h : ℕ) (event : Text) (x : Handler) (b : Bus)
    → x ≢ wrapper r h
    → IsGone r h b
    → IsGone r h (subscribe event x b)
unfolding subscribe
subscribe-IsGone r h event x b ne g =
    set-IsGone r h event (add x (listeners event b)) b
      (tally-add (wrapper r h) x (listeners event b) ne ∙ g.absent event) g

pub subscribe_once-IsGone :
    (r h : ℕ) (event : Text) (x : ℕ) (b : Bus)
    → IsGone r h b
    → IsGone r h (subscribe_once event x b)
unfolding subscribe_once subscribe listeners
subscribe_once-IsGone r h event x b g =
    let new : wrapper b.made x ≢ wrapper r h =
      (λ e. let f = g.fresh in let q : b.made ≡ r = cc in omega arith) in
    let g2 = subscribe-IsGone r h event (wrapper b.made x) b new g in
    let f = g.fresh in record { fresh = omega arith; keyed = g2.keyed; absent = g2.absent }

pub remove_all-IsGone :
    (r h : ℕ) (event : Option Text) (b : Bus) → IsGone r h b → IsGone r h (remove_all event b)
unfolding remove_all listeners JsMap.get tally
remove_all-IsGone r h none b g = record { fresh = g.fresh; keyed = tt; absent = λ k. refl }
remove_all-IsGone r h (some event) b g = record {
  fresh = g.fresh;
  keyed = JsMap.delete-IsMap event b.handlers g.keyed;
  absent = λ k. elim (Text-discrete event k) [
    | yes p ↦
        rw (JsMap.get-delete k event b.handlers g.keyed, if_pos (Text-discrete event k) p) refl
    | no n ↦ rw (JsMap.get-delete_ne k event b.handlers n) (g.absent k)
  ];
}

module _ {P : Type 0} (react : ℕ → P → List (Call P)) where
  pub perform-IsGone :
      (r h : ℕ) (c : Call P) (b : Bus) → IsGone r h b → IsGone r h (perform react c b).0
  unfolding perform
  perform-IsGone r h (on event x) b g = subscribe-IsGone r h event (handler x) b (λ e. cc) g
  perform-IsGone r h (off event x) b g = unsubscribe-IsGone r h event x b g
  perform-IsGone r h (once event x) b g = subscribe_once-IsGone r h event x b g
  perform-IsGone r h (emit event p) b g = g
  perform-IsGone r h (remove_all_listeners event) b g = remove_all-IsGone r h event b g

  pub step-IsGone : (r h : ℕ) (t : Task P) (b : Bus) → IsGone r h b → IsGone r h (step react t b).0
  unfolding step invoke listeners
  step-IsGone r h (act c) b g = perform-IsGone r h c b g
  step-IsGone r h (deliver event p (handler x)) b g = record {
    fresh = g.fresh;
    keyed = g.keyed;
    absent = g.absent;
  }
  step-IsGone r h (deliver event p (wrapper q x)) b g =
      let g2 = unsubscribe-IsGone r h event (wrapper q x) b g in
      record { fresh = g2.fresh; keyed = g2.keyed; absent = g2.absent }

pub remove_from-called :
    (event : Text) (x : Handler) (b : Bus) (o : Option (List Handler))
    → (remove_from event x b o).called ≡ b.called
unfolding remove_from
remove_from-called event x b none = refl
remove_from-called event x b (some hs) = refl

pub leave-IsGone :
    (r h : ℕ) (event : Text) (b : Bus) (o : Option (List Handler))
    → JsMap.get event b.handlers ≡ o
    → JsMap.IsMap b.handlers
    → r < b.made
    → ((k : Text) → event ≢ k → tally (wrapper r h) (listeners k b) ≡ 0)
    → IsGone r h (remove_from event (wrapper r h) b o)
unfolding remove_from listeners tally
leave-IsGone r h event b none e m l only = record {
  fresh = l;
  keyed = m;
  absent = λ k. elim (Text-discrete event k) [
    | yes p ↦
        ap (λ j. tally (wrapper r h) (or_empty_set (JsMap.get j b.handlers))) (sym p)
        ∙ ap (λ x. tally (wrapper r h) (or_empty_set x)) e
    | no n ↦ only k n
  ];
}
leave-IsGone r h event b (some hs) e m l only = record {
  fresh = l;
  keyed = JsMap.set-IsMap event (remove (wrapper r h) hs) b.handlers m;
  absent = λ k. elim (Text-discrete event k) [
    | yes p ↦
        rw
          (
            JsMap.get-set k event (remove (wrapper r h) hs) b.handlers,
            if_pos (Text-discrete event k) p,
          )
          (tally-remove_self (wrapper r h) hs)
    | no n ↦ rw (JsMap.get-set_ne k event (remove (wrapper r h) hs) b.handlers n) (only k n)
  ];
}
