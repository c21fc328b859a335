-- ===== src/Runtime/Counted.antt =====
-- The runs of src/runtime/AgentLifecycle.ts, as src/runtime/RuntimeMetricsCollector.ts counts them.
use agent_diaries_core.Prelude.{ℕ, ◌≡◌, ◌≢◌, Bool, true, false, List, [], ◌∷◌, Text}
use agent_diaries_core.JsMap
use agent_diaries_core.Shared.{DomainEvent}
use agent_diaries_core.Shared.Effect.{Result, ok, err}
use agent_diaries_core.Agents.{AgentResult}
use agent_diaries_core.Runtime.Collector.Snapshots.{Collector, on_agent_event}
use agent_diaries_core.Runtime.Collector.AgentCounts.{count_end, tally_of}

-- The collector has got every event of a log, which has the newest first.
unfoldable pub collected : List DomainEvent → Collector → Collector
unfolding on_agent_event
collected [] c = c
collected (e ∷ es) c = on_agent_event e (collected es c)

abbrev pub has_returned : Result AgentResult → Bool
has_returned (ok r) = true
has_returned (err e) = false

-- One more run of an agent, and no other one.
abbrev pub CountsRun : Text → Bool × ℕ → Collector → Collector → Type 0
CountsRun id end before after =
    (tally_of id after ≡ count_end (tally_of id before) end)
    × ((other : Text) → other ≢ id → tally_of other after ≡ tally_of other before)
