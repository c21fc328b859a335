-- ===== src/Tests/Agents/Observed.antt =====
-- The percentiles and the rankings of a few observations.
use agent_diaries_core.Prelude.{ℕ, ◌*◌, ◌≤◌, ◌<◌, ◌≡◌, refl, List, [], ◌∷◌, arith, codes, leb}
use agent_diaries_core.Sorting.{sort}
use agent_diaries_core.Runtime.Collector.{ToolState}
use agent_diaries_core.Prelude.{inl}
use agent_diaries_core.Runtime.Collector.Rank.{rank}
use agent_diaries_core.Runtime.Collector.Percentile.{
  percentile, count_le, count_lt, percentile-ranks,
}
use agent_diaries_core.Runtime.Collector.Snapshots.{
  Collector, get_most_used_tools, get_slowest_tools, get_all_tool_snapshots,
}
use agent_diaries_core.Runtime.Collector.Rankings.{Leads, rankings-Leads}

abbrev durations : List ℕ
durations = 30 ∷ 10 ∷ 20 ∷ 10 ∷ []

percentile-ranks_example :
    let v = percentile (sort leb durations) 95 in
    (95 * 4 ≤ 100 * count_le v durations) × (100 * count_lt v durations < 95 * 4)
percentile-ranks_example = percentile-ranks durations 95 (inl refl) (omega arith) (omega arith)

-- With 7 percent of 100 durations the rounding reads the eighth one.
rank_7 : rank 7 100 ≡ 8
unfolding rank
rank_7 = refl

percentile_30 : percentile (sort leb durations) 95 ≡ 30
unfolding percentile sort
percentile_30 = refl

abbrev used : ℕ → ToolState
used n = record {
  durations = n ∷ [];
  success_count = n;
  failure_count = 0;
  retry_count = 0;
  cancellation_count = 0;
  timeout_count = 0;
  estimated_cost = 0;
}

abbrev collector : Collector
collector = record {
  tool_states = (codes "file", used 1) ∷ (codes "http", used 2) ∷ (codes "mail", used 3) ∷ [];
  agent_states = [];
  tool_cost_per_call = [];
}

rankings-Leads_example :
    Leads
      (λ s. s.execution_count)
      2
      (get_most_used_tools 2 collector)
      (get_all_tool_snapshots collector)
    × Leads
        (λ s. s.p95_duration_ms)
        2
        (get_slowest_tools 2 collector)
        (get_all_tool_snapshots collector)
rankings-Leads_example = rankings-Leads 2 collector
