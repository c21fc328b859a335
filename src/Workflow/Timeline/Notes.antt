-- ===== src/Workflow/Timeline/Notes.antt =====
-- What the timeline service leaves in the timeline.
use agent_diaries_core.Prelude.{◌≡◌, refl, sym, ◌∙◌, ap, List, [], ◌∷◌, ◌++◌, map, Option, Text}
use agent_diaries_core.Windows.{append-nil, append_assoc}
use agent_diaries_core.Shared.{
  Value, TimelineEvent, DomainEvent, workflow_created, workflow_started, workflow_completed,
  workflow_failed,
}
use agent_diaries_core.Shared.Effect.{ok, bind-ok}
use agent_diaries_core.Memory.Persistence.{save_timeline_event}
use agent_diaries_core.Workflow.Domain.{Env, World, append_event, id_or_uuid, time_or_now}
use agent_diaries_core.Workflow.Timeline.{Payloads, append, on_event, on_events, note_of, notes_of}

abbrev pub Note : Type 0
Note = Text × Option Text × Value

abbrev pub noted : List TimelineEvent → List Note
noted es = map (λ e. (e.type, e.workflow_id, e.payload)) es

noted-append :
    (es : List TimelineEvent) (e : TimelineEvent)
    → noted (es ++ e ∷ []) ≡ noted es ++ noted (e ∷ [])
noted-append [] e = refl
noted-append (x ∷ es) e = ap (λ ns. (x.type, x.workflow_id, x.payload) ∷ ns) (noted-append es e)

module _ (env : Env) (payloads : Payloads) where
  on_event-noted :
      (e : DomainEvent) (w : World)
      → let (v, r) = on_event env payloads e w in
        (r ≡ ok tt)
        × (noted v.db.timeline ≡ noted w.db.timeline ++ note_of env payloads e)
        × (v.db.workflows ≡ w.db.workflows)
        × (v.events ≡ w.events)
  unfolding on_event append append_event id_or_uuid time_or_now save_timeline_event
  on_event-noted (workflow_created wf) w = (refl, noted-append w.db.timeline _, refl, refl)
  on_event-noted (workflow_started id) w = (refl, noted-append w.db.timeline _, refl, refl)
  on_event-noted (workflow_completed id result) w = (refl, noted-append w.db.timeline _, refl, refl)
  on_event-noted (workflow_failed id reason) w = (refl, noted-append w.db.timeline _, refl, refl)
  on_event-noted e w = (refl, sym (append-nil (noted w.db.timeline)), refl, refl)

  -- The service never throws; it adds a note for each event of the four kinds, in their order, and
  -- leaves the workflows alone.
  pub on_events-noted :
      (es : List DomainEvent) (w : World)
      → let (v, r) = on_events env payloads es w in
        (r ≡ ok tt)
        × (noted v.db.timeline ≡ noted w.db.timeline ++ notes_of env payloads es)
        × (v.db.workflows ≡ w.db.workflows)
        × (v.events ≡ w.events)
  unfolding on_events
  on_events-noted [] w = (refl, sym (append-nil (noted w.db.timeline)), refl, refl)
  on_events-noted (e ∷ es) w =
      let (ends, adds, keeps, quiet) = on_event-noted e w in
      let v = (on_event env payloads e w).0 in
      let (ends', adds', keeps', quiet') = on_events-noted es v in
      let joined : on_events env payloads (e ∷ es) w ≡ on_events env payloads es v =
        bind-ok (on_event env payloads e) (λ _. on_events env payloads es)
          (ap (λ x. (v, x)) ends) in
      rw joined (
        ends',
        adds'
            ∙ ap (λ ns. ns ++ notes_of env payloads es) adds
            ∙ append_assoc (noted w.db.timeline) (note_of env payloads e)
                (notes_of env payloads es),
        keeps' ∙ keeps,
        quiet' ∙ quiet,
      )
