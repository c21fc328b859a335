-- ===== src/Langchain/Callbacks/Log.antt =====
-- What a callback handler holds after any calls.
use agent_diaries_core.Prelude.{
  ℕ, zero, suc, ◌+◌, ◌≤◌, ◌≡◌, refl, sym, ◌∙◌, ap, List, [], ◌∷◌, ◌++◌, map, Option, none, some,
  arith, Text, ite, subst, length, ltb, Bool-cases, inl, inr,
}
use agent_diaries_core.Windows.{last, append-nil, append_assoc, last-append, last_of_length-le}
use agent_diaries_core.Shared.{Value}
use agent_diaries_core.Shared.Effect.{M}
use agent_diaries_core.Langchain.Callbacks.{
  EventType, llm_start, llm_end, llm_error, chain_start, chain_end, chain_error, tool_start,
  tool_end, tool_error, retriever_start, retriever_end, retriever_error, agent_action, agent_finish,
  Event, EventType-discrete, Stats, no_stats, Options, Handler, Clock, slice_last, store_event,
  or_name, event_of, handle_llm_start, handle_llm_end, handle_llm_error, handle_tool_start,
  handle_tool_end, handle_tool_error, handle_chain_start, handle_chain_end, handle_chain_error,
  handle_retriever_start, handle_retriever_end, handle_retriever_error, handle_agent_action,
  handle_agent_finish,
}
use agent_diaries_core.Langchain.Callbacks.Recording.{Holds, record_event-Holds}

-- A call of one of the methods. The subject is the name of the model, the tool, the chain or the
-- retriever; the methods that do not take it, or the name, do not read them.
pub record Callback : Type 0 where
  pub kind : EventType
  pub subject : Text
  pub name : Option Text
  pub run : Text
  pub parent : Option Text
  pub payload : Value
  pub clock : Clock

unfoldable pub handle_kind : Options → Callback → EventType → M Handler (Unit {0})
unfolding handle_llm_start handle_llm_end handle_llm_error handle_tool_start handle_tool_end
    handle_tool_error handle_chain_start handle_chain_end handle_chain_error handle_retriever_start
    handle_retriever_end handle_retriever_error handle_agent_action handle_agent_finish
handle_kind o c llm_start = handle_llm_start o c.clock c.run c.parent c.payload c.subject c.name
handle_kind o c llm_end = handle_llm_end o c.clock c.run c.parent c.payload
handle_kind o c llm_error = handle_llm_error o c.clock c.run c.parent c.payload
handle_kind o c tool_start = handle_tool_start o c.clock c.run c.parent c.payload c.subject c.name
handle_kind o c tool_end = handle_tool_end o c.clock c.run c.parent c.payload
handle_kind o c tool_error = handle_tool_error o c.clock c.run c.parent c.payload
handle_kind o c chain_start = handle_chain_start o c.clock c.run c.parent c.payload c.subject c.name
handle_kind o c chain_end = handle_chain_end o c.clock c.run c.parent c.payload
handle_kind o c chain_error = handle_chain_error o c.clock c.run c.parent c.payload
handle_kind o c retriever_start =
    handle_retriever_start o c.clock c.run c.parent c.payload c.subject c.name
handle_kind o c retriever_end = handle_retriever_end o c.clock c.run c.parent c.payload
handle_kind o c retriever_error = handle_retriever_error o c.clock c.run c.parent c.payload
handle_kind o c agent_action = handle_agent_action o c.clock c.run c.parent c.payload c.subject
handle_kind o c agent_finish = handle_agent_finish o c.clock c.run c.parent c.payload

-- The handler after the calls, whether they return or throw.
unfoldable pub handle_all : Options → List Callback → Handler → Handler
unfolding handle_kind
handle_all o [] h = h
handle_all o (c ∷ cs) h = handle_all o cs (handle_kind o c c.kind h).0

-- The event of a call.
abbrev pub name_of : Callback → EventType → Option Text
name_of c llm_start = or_name c.name c.subject
name_of c tool_start = or_name c.name c.subject
name_of c chain_start = or_name c.name c.subject
name_of c retriever_start = or_name c.name c.subject
name_of c agent_action = some c.subject
name_of c _ = none

abbrev pub event : Callback → Event
event c = event_of c.kind c.run c.parent c.clock.stamp (name_of c c.kind) c.payload

-- How many calls were of a kind.
abbrev pub count_kind : EventType → List EventType → ℕ
count_kind kind [] = 0
count_kind kind (k ∷ ks) =
    ite (EventType-discrete k kind) (suc (count_kind kind ks)) (count_kind kind ks)

abbrev pub kinds : List Callback → List EventType
kinds cs = map (λ c. c.kind) cs

-- Counters that were `s` are `t` after calls of these kinds.
pub record IsCounted (ks : List EventType) (s t : Stats) : Type 0 where
  pub llm_calls : t.llm_calls ≡ s.llm_calls + count_kind llm_start ks
  pub llm_errors : t.llm_errors ≡ s.llm_errors + count_kind llm_error ks
  pub tool_calls : t.tool_calls ≡ s.tool_calls + count_kind tool_start ks
  pub tool_errors : t.tool_errors ≡ s.tool_errors + count_kind tool_error ks
  pub chain_calls : t.chain_calls ≡ s.chain_calls + count_kind chain_start ks
  pub chain_errors : t.chain_errors ≡ s.chain_errors + count_kind chain_error ks
  pub retriever_calls : t.retriever_calls ≡ s.retriever_calls + count_kind retriever_start ks
  pub retriever_errors : t.retriever_errors ≡ s.retriever_errors + count_kind retriever_error ks
  pub total_events : t.total_events ≡ s.total_events + length ks

-- What a call adds to the counters.
counted : EventType → Stats → Stats
counted llm_start s = record s { llm_calls = s.llm_calls + 1 }
counted llm_error s = record s { llm_errors = s.llm_errors + 1 }
counted tool_start s = record s { tool_calls = s.tool_calls + 1 }
counted tool_error s = record s { tool_errors = s.tool_errors + 1 }
counted chain_start s = record s { chain_calls = s.chain_calls + 1 }
counted chain_error s = record s { chain_errors = s.chain_errors + 1 }
counted retriever_start s = record s { retriever_calls = s.retriever_calls + 1 }
counted retriever_error s = record s { retriever_errors = s.retriever_errors + 1 }
counted _ s = s

bumped : EventType → Stats → Stats
bumped k s = record (counted k s) { total_events = (counted k s).total_events + 1 }

handle_kind-Holds :
    (o : Options) (c : Callback) (k : EventType) (h : Handler)
    → Holds
        (store_event o.max_events
          (event_of k c.run c.parent c.clock.stamp (name_of c k) c.payload)
          h.events)
        (bumped k h.stats)
        (handle_kind o c k h).0
unfolding handle_kind bumped counted
handle_kind-Holds o c llm_start h = record_event-Holds o _ c.clock _
handle_kind-Holds o c k h = record_event-Holds o _ c.clock _

IsCounted-step :
    (k : EventType) (ks : List EventType) (s t : Stats)
    → IsCounted ks (bumped k s) t
    → IsCounted (k ∷ ks) s t
unfolding bumped counted EventType-discrete
IsCounted-step llm_start ks s t h = omega arith
IsCounted-step k ks s t h = omega arith

store_event-slice_last :
    (n : ℕ) (e : Event) (all : List Event)
    → store_event n e (slice_last n all) ≡ slice_last n (all ++ e ∷ [])
unfolding store_event slice_last
store_event-slice_last zero e all = elim (Bool-cases (ltb 0 (length (all ++ e ∷ [])))) [
  | inl b ↦ rw b refl
  | inr b ↦ rw b refl
]
store_event-slice_last (suc n) e all =
    let es = last (suc n) all ++ e ∷ [] in
    elim (Bool-cases (ltb (suc n) (length es))) [
      | inl b ↦ rw b (last-append (suc n) all (e ∷ []))
      | inr b ↦
          let short : length es ≤ suc n = ground arith in
          rw b (sym (last_of_length-le (suc n) es short) ∙ last-append (suc n) all (e ∷ []))
    ]

-- From any handler whose events are the last ones of `all`.
handle_all-from :
    (o : Options) (cs : List Callback) (h : Handler) (all : List Event)
    → h.events ≡ slice_last o.max_events all
    → ((handle_all o cs h).events ≡ slice_last o.max_events (all ++ map event cs))
      × IsCounted (kinds cs) h.stats (handle_all o cs h).stats
unfolding handle_all
handle_all-from o [] h all e =
    (e ∙ ap (slice_last o.max_events) (sym (append-nil all)), omega arith)
handle_all-from o (c ∷ cs) h all e =
    let step = handle_kind-Holds o c c.kind h in
    let (a, b) = handle_all-from o cs (handle_kind o c c.kind h).0 (all ++ event c ∷ []) (
      step.events
      ∙ ap (store_event o.max_events (event c)) e
      ∙ store_event-slice_last o.max_events (event c) all) in
    (
      a ∙ ap (slice_last o.max_events) (append_assoc all (event c ∷ []) (map event cs)),
      IsCounted-step c.kind (kinds cs) h.stats _ (
          subst (λ s. IsCounted (kinds cs) s (handle_all o cs (handle_kind o c c.kind h).0).stats)
            step.stats b),
    )

slice_last-nil : (n : ℕ) → slice_last n [] ≡ []
unfolding slice_last
slice_last-nil zero = refl
slice_last-nil (suc n) = last_of_length-le (suc n) [] (omega arith)

-- After any calls of its methods, a new or reset handler holds the events of the last of them, up
-- to its limit and in order, or of all of them when the limit is 0, and each counter is the number
-- of the calls of its kind. An `onEvent` that throws and a diary that refuses an event do not
-- change this.
pub handle_all-log :
    (o : Options) (cs : List Callback) (h : Handler)
    → h.events ≡ []
    → h.stats ≡ no_stats
    → ((handle_all o cs h).events ≡ slice_last o.max_events (map event cs))
      × IsCounted (kinds cs) no_stats (handle_all o cs h).stats
handle_all-log o cs h e z =
    let (a, b) = handle_all-from o cs h [] (e ∙ sym (slice_last-nil o.max_events)) in
    (a, subst (λ s. IsCounted (kinds cs) s (handle_all o cs h).stats) z b)
