-- ===== src/Observability/Metrics.antt =====
-- src/core/repositories/index.ts, the class `MetricsRepository`, and src/core/metrics/MetricsEngine.ts.
-- A value is a natural number here, and the average is kept as a sum and a count.
use agent_diaries_core.Prelude.{
  ℕ, ◌+◌, ◌≤◌, ◌≡◌, refl, sym, ◌∙◌, ap, List, [], ◌∷◌, map, Option, none, some, arith, Text, codes,
  length, filter, ltb, All, if◌then◌else◌, inl, inr, Memᴰ, ◌⊎◌, subst,
}
use mathlib.Core.List.Memᴰ
use agent_diaries_core.Shared.{MetricRecord, DomainEvent, workflow_completed, workflow_failed}
use agent_diaries_core.Shared.Effect.{M, return, ◌>>◌}
use agent_diaries_core.Memory.Persistence.{Persistence, get_metrics, same_text}
use agent_diaries_core.Workflow.Domain.{Env, World, record_metric}

-- `if (!name)`: the empty name asks for all metrics, too.
unfoldable pub load_metrics : Option Text → Persistence → List MetricRecord
unfolding get_metrics
load_metrics none p = get_metrics p
load_metrics (some []) p = get_metrics p
load_metrics (some (c ∷ cs)) p = filter (λ m. same_text m.name (c ∷ cs)) (get_metrics p)

pub record Aggregate : Type 0 where
  pub name : Text
  pub count : ℕ
  pub sum : ℕ
  pub avg : ℕ × ℕ  -- the sum and the count that it is the quotient of
  pub min : ℕ
  pub max : ℕ

-- The loop over the list: the sum, and the least and the greatest value so far.
unfoldable pub accumulate : List MetricRecord → ℕ × ℕ × ℕ → ℕ × ℕ × ℕ
accumulate [] t = t
accumulate (m ∷ ms) (sum, low, high) = accumulate ms (
  sum + m.value,
  if ltb m.value low then m.value else low,
  if ltb high m.value then m.value else high,
)

-- `min` and `max` start at `Infinity` and `-Infinity`, which the first value replaces.
unfoldable pub aggregate : Text → List MetricRecord → Option Aggregate
unfolding accumulate
aggregate name [] = none
aggregate name (m ∷ ms) =
    let (sum, low, high) = accumulate ms (m.value, m.value, m.value) in
    some (record {
      name = name;
      count = length (m ∷ ms);
      sum = sum;
      avg = (sum, length (m ∷ ms));
      min = low;
      max = high;
    })

unfoldable pub aggregate_metrics : Text → Persistence → Option Aggregate
unfolding aggregate load_metrics
aggregate_metrics name p = aggregate name (load_metrics (some name) p)

-- The subscriptions of `MetricsEngine`, to the events that the workflow components emit.
unfoldable pub on_event : Env → DomainEvent → M World (Unit {0})
unfolding record_metric
on_event env (workflow_completed id result) =
    record_metric env (codes "workflow_success_count") 1 [] >> return tt
on_event env (workflow_failed id reason) =
    record_metric env (codes "workflow_failure_count") 1 [] >> return tt
on_event env _ = return tt

abbrev pub total : List MetricRecord → ℕ
total [] = 0
total (m ∷ ms) = m.value + total ms

lower : ℕ → ℕ → ℕ
lower l v = if ltb v l then v else l

upper : ℕ → ℕ → ℕ
upper h v = if ltb h v then v else h

lower-le : (l v : ℕ) → (lower l v ≤ l) × (lower l v ≤ v) × ((lower l v ≡ l) ⊎ (lower l v ≡ v))
unfolding lower
lower-le l v = ground arith

upper-le : (h v : ℕ) → (h ≤ upper h v) × (v ≤ upper h v) × ((upper h v ≡ h) ⊎ (upper h v ≡ v))
unfolding upper
upper-le h v = ground arith

-- The value is the given one, or one of the list's.
pub data IsOneOf (ms : List MetricRecord) (v x : ℕ) : Type 0 where
  given : x ≡ v → IsOneOf ms v x
  listed : (m : MetricRecord) → Memᴰ m ms → x ≡ m.value → IsOneOf ms v x

abbrev pub Fits : List MetricRecord → ℕ × ℕ × ℕ → ℕ × ℕ × ℕ → Type 0
Fits ms (s, l, h) (sum, low, high) =
    (sum ≡ s + total ms)
    × low ≤ l
    × h ≤ high
    × All (λ m. low ≤ m.value) ms
    × All (λ m. m.value ≤ high) ms
    × IsOneOf ms l low
    × IsOneOf ms h high

IsOneOf-cons :
    (m : MetricRecord) (ms : List MetricRecord) (v u x : ℕ)
    → (u ≡ v) ⊎ (u ≡ m.value)
    → IsOneOf ms u x
    → IsOneOf (m ∷ ms) v x
IsOneOf-cons m ms v u x (inl e) (given f) = given (f ∙ e)
IsOneOf-cons m ms v u x (inr e) (given f) = listed m (Memᴰ.head refl) (f ∙ e)
IsOneOf-cons m ms v u x c (listed n k f) = listed n (Memᴰ.tail k) f

accumulate-Fits : (ms : List MetricRecord) (t : ℕ × ℕ × ℕ) → Fits ms t (accumulate ms t)
unfolding accumulate lower upper
accumulate-Fits [] (s, l, h) =
    (omega arith, omega arith, omega arith, tt, tt, given refl, given refl)
accumulate-Fits (m ∷ ms) (s, l, h) =
    let (a, b, c) = lower-le l m.value in
    let (d, e, f) = upper-le h m.value in
    let (sum, low, high, lows, highs, least, greatest) =
      accumulate-Fits ms (s + m.value, lower l m.value, upper h m.value) in
    (
      omega arith,
      omega arith,
      omega arith,
      (omega arith, lows),
      (omega arith, highs),
      IsOneOf-cons m ms l (lower l m.value) _ c least,
      IsOneOf-cons m ms h (upper h m.value) _ f greatest,
    )

-- What an aggregate says of the metrics of its name.
pub data Summary (name : Text) (ms : List MetricRecord) : Option Aggregate → Type 0 where
  no_metrics : ms ≡ [] → Summary name ms none
  summary :
      (a : Aggregate)
      → a.name ≡ name
      → a.sum ≡ total ms
      → a.count ≡ length ms
      → All (λ m. a.min ≤ m.value) ms
      → All (λ m. m.value ≤ a.max) ms
      → Memᴰ a.min (map (λ m. m.value) ms)
      → Memᴰ a.max (map (λ m. m.value) ms)
      → Summary name ms (some a)

Memᴰ-values :
    (m : MetricRecord) (ms : List MetricRecord) → Memᴰ m ms → Memᴰ m.value (map (λ n. n.value) ms)
Memᴰ-values m (n ∷ ms) (Memᴰ.head e) = Memᴰ.head (ap (λ k. k.value) e)
Memᴰ-values m (n ∷ ms) (Memᴰ.tail k) = Memᴰ.tail (Memᴰ-values m ms k)
Memᴰ-values m [] k = absurd (Memᴰ.not-nil k)

IsOneOf-Memᴰ :
    (m : MetricRecord) (ms : List MetricRecord) (x : ℕ)
    → IsOneOf ms m.value x
    → Memᴰ x (map (λ n. n.value) (m ∷ ms))
IsOneOf-Memᴰ m ms x (given e) = Memᴰ.head e
IsOneOf-Memᴰ m ms x (listed n k e) =
    Memᴰ.tail (subst (λ y. Memᴰ y (map (λ n. n.value) ms)) (sym e) (Memᴰ-values n ms k))

aggregate-Summary : (name : Text) (ms : List MetricRecord) → Summary name ms (aggregate name ms)
unfolding aggregate
aggregate-Summary name [] = no_metrics refl
aggregate-Summary name (m ∷ ms) =
    let (sum, low, high, lows, highs, least, greatest) =
      accumulate-Fits ms (m.value, m.value, m.value) in
    summary _ refl sum refl (low, lows) (high, highs) (IsOneOf-Memᴰ m ms _ least)
      (IsOneOf-Memᴰ m ms _ greatest)

-- The aggregate of a name is over the metrics of that name: it is missing only if there are none,
-- its sum and count are theirs, and its least and greatest value are values of theirs that bound
-- them all.
pub aggregate_metrics-Summary :
    (c : ℕ) (cs : Text) (p : Persistence)
    → Summary
        (c ∷ cs)
        (filter (λ m. same_text m.name (c ∷ cs)) p.metrics)
        (aggregate_metrics (c ∷ cs) p)
unfolding aggregate_metrics load_metrics get_metrics
aggregate_metrics-Summary c cs p =
    aggregate-Summary (c ∷ cs) (filter (λ m. same_text m.name (c ∷ cs)) p.metrics)
