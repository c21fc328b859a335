-- ===== src/Runtime/Collector/AgentCounts.antt =====
-- The counts and the window of an agent are those of its own events.
use agent_diaries_core.Prelude.{
  ℕ, ◌+◌, ◌≡◌, refl, sym, ◌∙◌, ap, ite, if_pos, if_neg, Bool, true, false, not, List, [], ◌∷◌, ◌++◌,
  map, arith, Text, Text-discrete, length, filter,
}
use agent_diaries_core.Windows.{last, append-nil, append_assoc, last-append, length-last}
use agent_diaries_core.JsMap.{JsMap}
use agent_diaries_core.JsMap
use agent_diaries_core.Shared.{DomainEvent, agent_completed, agent_failed}
use agent_diaries_core.Runtime.Collector.{push}
use agent_diaries_core.Runtime.Collector.Counts.{push-last}
use agent_diaries_core.Runtime.Collector.Snapshots.{
  AgentTally, Collector, or_new_agent, succeed, fail, on_agent_event,
}

unfoldable pub on_agent_events : List DomainEvent → Collector → Collector
unfolding on_agent_event
on_agent_events [] c = c
on_agent_events (e ∷ es) c = on_agent_events es (on_agent_event e c)

-- An end of one of the agent's runs: was it a success, and how long did it take?
abbrev pub end_if : Bool → Bool → ℕ → List (Bool × ℕ)
end_if true good ms = (good, ms) ∷ []
end_if false good ms = []

abbrev pub same_agent : Text → Text → Bool
same_agent a b = ite (Text-discrete a b) true false

abbrev pub end_of : Text → DomainEvent → List (Bool × ℕ)
end_of id (agent_completed a trace workflow ms tools) = end_if (same_agent a id) true ms
end_of id (agent_failed a trace workflow ms error) = end_if (same_agent a id) false ms
end_of id _ = []

abbrev pub ends_of : Text → List DomainEvent → List (Bool × ℕ)
ends_of id [] = []
ends_of id (e ∷ es) = end_of id e ++ ends_of id es

-- A tally after the ends of runs.
unfoldable pub count_end : AgentTally → Bool × ℕ → AgentTally
count_end s (true, ms) = succeed ms s
count_end s (false, ms) = fail ms s

unfoldable pub count_ends : AgentTally → List (Bool × ℕ) → AgentTally
count_ends s [] = s
count_ends s (x ∷ xs) = count_ends (count_end s x) xs

unfoldable pub tally_of : Text → Collector → AgentTally
tally_of id c = or_new_agent (JsMap.get id c.agent_states)

count_ends-append :
    (s : AgentTally) (xs ys : List (Bool × ℕ))
    → count_ends s (xs ++ ys) ≡ count_ends (count_ends s xs) ys
unfolding count_ends
count_ends-append s [] ys = refl
count_ends-append s (x ∷ xs) ys = count_ends-append (count_end s x) xs ys

-- One event, by whether it is the agent's.
tally-update :
    (id a : Text) (good : Bool) (ms : ℕ) (c : Collector)
    → or_new_agent (
        JsMap.get id (
          JsMap.set a
            (count_end (or_new_agent (JsMap.get a c.agent_states)) (good, ms))
            c.agent_states))
      ≡ count_ends (tally_of id c) (end_if (same_agent a id) good ms)
unfolding count_ends tally_of or_new_agent count_end
tally-update id a good ms c = elim (Text-discrete a id) [
  | yes e ↦
      ap or_new_agent (JsMap.get-set id a _ c.agent_states ∙ if_pos (Text-discrete a id) e _ _)
      ∙ ap (λ k. count_end (or_new_agent (JsMap.get k c.agent_states)) (good, ms)) e
      ∙ rw (if_pos (Text-discrete a id) e) refl
  | no n ↦
      ap or_new_agent (JsMap.get-set_ne id a _ c.agent_states n)
      ∙ rw (if_neg (Text-discrete a id) n) refl
]

pub tally-on_agent_event :
    (id : Text) (e : DomainEvent) (c : Collector)
    → tally_of id (on_agent_event e c) ≡ count_ends (tally_of id c) (end_of id e)
unfolding on_agent_event tally_of count_ends count_end
tally-on_agent_event id (agent_completed a trace workflow ms tools) c = tally-update id a true ms c
tally-on_agent_event id (agent_failed a trace workflow ms error) c = tally-update id a false ms c
tally-on_agent_event id e c = refl

tally-on_agent_events :
    (id : Text) (es : List DomainEvent) (c : Collector)
    → tally_of id (on_agent_events es c) ≡ count_ends (tally_of id c) (ends_of id es)
unfolding on_agent_events count_ends
tally-on_agent_events id [] c = refl
tally-on_agent_events id (e ∷ es) c =
    tally-on_agent_events id es (on_agent_event e c)
    ∙ ap (λ s. count_ends s (ends_of id es)) (tally-on_agent_event id e c)
    ∙ sym (count_ends-append (tally_of id c) (end_of id e) (ends_of id es))

count_ends-counts :
    (s : AgentTally) (xs : List (Bool × ℕ))
    → ((count_ends s xs).success_count ≡ s.success_count + length (filter (λ x. x.0) xs))
      × ((count_ends s xs).failure_count ≡ s.failure_count + length (filter (λ x. not x.0) xs))
unfolding count_ends count_end
count_ends-counts s [] = (omega arith, omega arith)
count_ends-counts s ((true, ms) ∷ xs) =
    let (a, b) = count_ends-counts (succeed ms s) xs in (omega arith, omega arith)
count_ends-counts s ((false, ms) ∷ xs) =
    let (a, b) = count_ends-counts (fail ms s) xs in (omega arith, omega arith)

push-last-append :
    (ms : ℕ) (all ds : List ℕ) → ds ≡ last 1000 all → push ms ds ≡ last 1000 (all ++ ms ∷ [])
push-last-append ms all ds h =
    ap (push ms) h
    ∙ push-last ms (last 1000 all) (length-last 1000 all)
    ∙ last-append 1000 all (ms ∷ [])

count_ends-durations :
    (s : AgentTally) (xs : List (Bool × ℕ)) (all : List ℕ)
    → s.durations ≡ last 1000 all
    → (count_ends s xs).durations ≡ last 1000 (all ++ map (λ x. x.1) xs)
unfolding count_ends count_end
count_ends-durations s [] all h = h ∙ ap (last 1000) (sym (append-nil all))
count_ends-durations s ((true, ms) ∷ xs) all h =
    count_ends-durations (succeed ms s) xs (all ++ ms ∷ []) (push-last-append ms all s.durations h)
    ∙ ap (last 1000) (append_assoc all (ms ∷ []) (map (λ x. x.1) xs))
count_ends-durations s ((false, ms) ∷ xs) all h =
    count_ends-durations (fail ms s) xs (all ++ ms ∷ []) (push-last-append ms all s.durations h)
    ∙ ap (last 1000) (append_assoc all (ms ∷ []) (map (λ x. x.1) xs))

-- After any events a fresh collector has of an agent as many successes and failures as its runs
-- completed and failed, and the durations of its last 1000 runs in order.
pub on_agent_events-counts :
    (id : Text) (es : List DomainEvent) (costs : JsMap ℕ)
    → let fresh : Collector = record {
      tool_states = [];
      agent_states = [];
      tool_cost_per_call = costs;
    } in
      let s = or_new_agent (JsMap.get id (on_agent_events es fresh).agent_states) in
      let ends = ends_of id es in
      (s.success_count ≡ length (filter (λ x. x.0) ends))
      × (s.failure_count ≡ length (filter (λ x. not x.0) ends))
      × (s.durations ≡ last 1000 (map (λ x. x.1) ends))
unfolding tally_of JsMap.get or_new_agent
on_agent_events-counts id es costs =
    let fresh : Collector = record {
      tool_states = [];
      agent_states = [];
      tool_cost_per_call = costs;
    } in
    let none_yet : AgentTally = record { durations = []; success_count = 0; failure_count = 0 } in
    let e = tally-on_agent_events id es fresh in
    let (a, b) = count_ends-counts none_yet (ends_of id es) in
    (
      ap (λ (s : AgentTally). s.success_count) e ∙ a ∙ omega arith,
      ap (λ (s : AgentTally). s.failure_count) e ∙ b ∙ omega arith,
      ap (λ (s : AgentTally). s.durations) e
          ∙ count_ends-durations none_yet (ends_of id es) [] refl,
    )
