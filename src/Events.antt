-- ===== src/Events.antt =====
-- src/core/events/EventBus.ts. The calls of a bus are worked off one by one: what a handler calls
-- before its first `await` is done before the next listener is called, what it calls later is not
-- followed. A handler that throws ends like one that returns, as `emit` only prints the error.
pub mod Tally
pub mod Absence
pub mod Once
pub mod Listening
use agent_diaries_core.Prelude.{
  ℕ, zero, suc, ◌+◌, ℕ_discrete, List, [], ◌∷◌, ◌++◌, map, Option, none, some, Text, ite,
}
use agent_diaries_core.JsMap.{JsMap}
use agent_diaries_core.JsMap

-- A function of the client, or the closure that `once` makes around one. Closures are told apart
-- by the order in which they were made.
pub data Handler : Type 0 where
  handler : ℕ → Handler
  wrapper : ℕ → ℕ → Handler

unfoldable pub Handler-discrete : Discrete Handler
Handler-discrete = hlevel (ℕ_discrete)

-- What a client may call. It cannot name a closure, but `off` is what the function does that `on`
-- and `once` return.
pub data Call (P : Type 0) : Type 0 where
  on : Text → ℕ → Call P
  off : Text → Handler → Call P
  once : Text → ℕ → Call P
  emit : Text → P → Call P
  remove_all_listeners : Option Text → Call P

pub record Bus : Type 0 where
  pub handlers : JsMap (List Handler)
  pub made : ℕ
  -- The handlers that were called, the newest first.
  pub called : List Handler

abbrev pub or_empty_set : Option (List Handler) → List Handler
or_empty_set none = []
or_empty_set (some hs) = hs

-- `Array.from(set)`
unfoldable pub listeners : Text → Bus → List Handler
listeners event b = or_empty_set (JsMap.get event b.handlers)

-- `Set.add`
unfoldable pub add : Handler → List Handler → List Handler
add h [] = h ∷ []
add h (x ∷ xs) = ite (Handler-discrete x h) (x ∷ xs) (x ∷ add h xs)

-- `Set.delete`
unfoldable pub remove : Handler → List Handler → List Handler
remove h [] = []
remove h (x ∷ xs) = ite (Handler-discrete x h) (remove h xs) (x ∷ remove h xs)

-- `on`
unfoldable pub subscribe : Text → Handler → Bus → Bus
unfolding listeners
subscribe event h b = record b { handlers = JsMap.set event (add h (listeners event b)) b.handlers }

unfoldable pub remove_from : Text → Handler → Bus → Option (List Handler) → Bus
remove_from event h b none = b
remove_from event h b (some hs) = record b { handlers = JsMap.set event (remove h hs) b.handlers }

-- `off`
unfoldable pub unsubscribe : Text → Handler → Bus → Bus
unfolding remove_from
unsubscribe event h b = remove_from event h b (JsMap.get event b.handlers)

-- `once`
unfoldable pub subscribe_once : Text → ℕ → Bus → Bus
unfolding subscribe
subscribe_once event h b = record (subscribe event (wrapper b.made h) b) { made = suc b.made }

-- `removeAllListeners`
unfoldable pub remove_all : Option Text → Bus → Bus
remove_all none b = record b { handlers = [] }
remove_all (some event) b = record b { handlers = JsMap.delete event b.handlers }

-- What is still to be done.
pub data Task (P : Type 0) : Type 0 where
  act : Call P → Task P
  deliver : Text → P → Handler → Task P

module _ {P : Type 0} (react : ℕ → P → List (Call P)) where
  -- `emit` calls the listeners that are there when it starts.
  unfoldable pub perform : Call P → Bus → Bus × List (Task P)
  unfolding listeners subscribe unsubscribe subscribe_once remove_all
  perform (on event h) b = (subscribe event (handler h) b, [])
  perform (off event h) b = (unsubscribe event h b, [])
  perform (once event h) b = (subscribe_once event h b, [])
  perform (emit event p) b = (b, map (deliver event p) (listeners event b))
  perform (remove_all_listeners event) b = (remove_all event b, [])

  -- A closure of `once` takes itself off before it calls the handler.
  unfoldable pub invoke : Text → P → Handler → Bus → Bus × List (Task P)
  unfolding unsubscribe
  invoke event p (handler h) b = (record b { called = handler h ∷ b.called }, map act (react h p))
  invoke event p (wrapper r h) b = (
    record (unsubscribe event (wrapper r h) b) { called = wrapper r h ∷ b.called },
    map act (react h p),
  )

  unfoldable pub step : Task P → Bus → Bus × List (Task P)
  unfolding perform invoke
  step (act c) b = perform c b
  step (deliver event p h) b = invoke event p h b

  -- The first `n` tasks that come up.
  unfoldable pub work : ℕ → List (Task P) → Bus → Bus × List (Task P)
  unfolding step
  work zero ts b = (b, ts)
  work (suc n) [] b = (b, [])
  work (suc n) (t ∷ ts) b = let o = step t b in work n (o.1 ++ ts) o.0
