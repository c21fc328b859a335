-- ===== src/Langchain/Callbacks/Recording.antt =====
-- Recording an event, whatever the hook and the diary do.
use agent_diaries_core.Prelude.{◌+◌, ◌≡◌, refl, Bool, true, false, List, Option, none, some}
use agent_diaries_core.Shared.Effect.{Result, Preserves, Preserves-bind}
use agent_diaries_core.Langchain.Callbacks.{
  Event, Stats, Options, Handler, Clock, store_event, notify, persist, record_event,
}

pub record Holds (es : List Event) (s : Stats) (h : Handler) : Type 0 where
  pub events : h.events ≡ es
  pub stats : h.stats ≡ s

pub notify-Holds :
    (es : List Event) (s : Stats) (o : Options) (e : Event)
    → Preserves (Holds es s) (notify o.on_event e)
unfolding notify
notify-Holds es s o e h holds = notified o.on_event
  where
    notified : (f : Option (Event → Result (Unit {0}))) → Holds es s (notify f e h).0
    notified none = holds
    notified (some f) = holds

pub persist-Holds :
    (es : List Event) (s : Stats) (o : Options) (e : Event) (c : Clock) (b : Bool)
    → Preserves (Holds es s) (persist o e c b)
unfolding persist
persist-Holds es s o e c false h holds = holds
persist-Holds es s o e c true h holds = record { events = holds.events; stats = holds.stats }

pub record_event-Holds :
    (o : Options) (e : Event) (c : Clock) (h : Handler)
    → Holds
        (store_event o.max_events e h.events)
        (record h.stats { total_events = h.stats.total_events + 1 })
        (record_event o e c h).0
unfolding record_event
record_event-Holds o e c h =
    let es = store_event o.max_events e h.events in
    let s = record h.stats { total_events = h.stats.total_events + 1 } in
    Preserves-bind (Holds es s) (notify o.on_event e) (λ _. persist o e c o.persist_events)
      (notify-Holds es s o e) (λ _. persist-Holds es s o e c o.persist_events) _
      (record { events = refl; stats = refl })
