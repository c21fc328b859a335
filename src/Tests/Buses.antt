-- ===== src/Tests/Buses.antt =====
-- A one-time handler, and a listener before it that emits the event again.
use agent_diaries_core.Prelude.{
  ℕ, zero, suc, ◌+◌, ◌≡◌, refl, ◌≢◌, if_neg, List, [], ◌∷◌, arith, Text, codes, Text-discrete,
}
use agent_diaries_core.JsMap
use agent_diaries_core.Events.{
  handler, wrapper, Handler-discrete, Call, emit, Bus, listeners, add, remove, subscribe,
  unsubscribe, remove_from, subscribe_once, act, deliver, perform, invoke, step, work,
}
use agent_diaries_core.Events.Tally.{tally, targets, total}
use agent_diaries_core.Events.Once.{work-once}

abbrev event : Text
event = codes "WorkflowCompleted"

-- The first handler emits the event as often as the payload says.
abbrev react : ℕ → ℕ → List (Call ℕ)
react zero zero = []
react zero (suc n) = emit event n ∷ []
react (suc h) p = []

abbrev bus : Bus
bus = record { handlers = (event, handler 0 ∷ wrapper 0 1 ∷ []) ∷ []; made = 1; called = [] }

subscribes :
    subscribe_once event 1
      (subscribe event (handler 0) (record { handlers = []; made = 0; called = [] }))
    ≡ bus
unfolding subscribe_once subscribe listeners add JsMap.get JsMap.set Text-discrete Handler-discrete
subscribes = refl

called_again :
    (work react 9 (act (emit event 1) ∷ []) bus).0.called
    ≡ wrapper 0 1 ∷ wrapper 0 1 ∷ handler 0 ∷ handler 0 ∷ []
unfolding work step perform invoke unsubscribe remove_from remove listeners JsMap.get JsMap.set
    Text-discrete Handler-discrete
called_again = refl

elsewhere : (k : Text) → event ≢ k → tally (wrapper 0 1) (listeners k bus) ≡ 0
unfolding listeners JsMap.get tally
elsewhere k n = rw (if_neg (Text-discrete event k) n) refl

work-once_example :
    total
      (wrapper 0 1)
      (work react 2 (deliver event 1 (wrapper 0 1) ∷ deliver event 0 (wrapper 0 1) ∷ []) bus)
    ≡ suc (
        tally (wrapper 0 1) bus.called
        + tally (wrapper 0 1) (targets {P = ℕ} (deliver event 0 (wrapper 0 1) ∷ [])))
work-once_example =
    work-once react 0 1 1 event 1 (deliver event 0 (wrapper 0 1) ∷ []) bus (tt, tt) (omega arith)
      elsewhere
