-- ===== src/Runtime/Collector/Counts.antt =====
-- The counts and the window of a tool are those of its own events.
use native.Mathlib.Nat.{zero-add}
use agent_diaries_core.Prelude.{
  ℕ, ◌+◌, ◌-◌, ◌≤◌, ◌≡◌, refl, sym, ◌∙◌, ap, ite, if_pos, if_neg, Bool, true, false, not, List, [],
  ◌∷◌, ◌++◌, map, arith, Text, Text-discrete, length, filter, leb, Bool-cases, inl, inr,
  length-append,
}
use agent_diaries_core.Windows.{last, append-nil, append_assoc, last-append, length-last}
use agent_diaries_core.JsMap.{JsMap}
use agent_diaries_core.JsMap
use agent_diaries_core.Tools.Executor.{Event}
use agent_diaries_core.Runtime.Collector.{
  shift, push, ToolState, new_state, or_new, or_zero, bump, on_tool_executed, on_all,
}

abbrev pub is_of : Text → Event → Bool
is_of name e = ite (Text-discrete e.tool_name name) true false

-- A tool's state after its events.
absorb : ℕ → List Event → ToolState → ToolState
absorb cost [] s = s
absorb cost (e ∷ es) s = absorb cost es (bump cost e s)

get-on_all :
    (costs : JsMap ℕ) (name : Text) (es : List Event) (m : JsMap ToolState)
    → or_new (JsMap.get name (on_all costs es m))
      ≡ absorb (or_zero (JsMap.get name costs)) (filter (is_of name) es) (or_new (JsMap.get name m))
unfolding absorb on_all on_tool_executed or_new
get-on_all costs name [] m = refl
get-on_all costs name (e ∷ es) m =
    let state = bump (or_zero (JsMap.get e.tool_name costs)) e (or_new (JsMap.get e.tool_name m)) in
    elim (Text-discrete e.tool_name name) [
      | yes p ↦
          let own = ap (λ n. bump (or_zero (JsMap.get n costs)) e (or_new (JsMap.get n m))) p in
          get-on_all costs name es (JsMap.set e.tool_name state m)
          ∙ ap (λ o. absorb (or_zero (JsMap.get name costs)) (filter (is_of name) es) (or_new o))
              (JsMap.get-set name e.tool_name state m
                ∙ if_pos (Text-discrete e.tool_name name) p _ _)
          ∙ ap (absorb (or_zero (JsMap.get name costs)) (filter (is_of name) es)) own
          ∙ rw (if_pos (Text-discrete e.tool_name name) p) refl
      | no n ↦
          get-on_all costs name es (JsMap.set e.tool_name state m)
          ∙ ap (λ o. absorb (or_zero (JsMap.get name costs)) (filter (is_of name) es) (or_new o))
              (JsMap.get-set_ne name e.tool_name state m n)
          ∙ rw (if_neg (Text-discrete e.tool_name name) n) refl
    ]

-- The last 1000 of a list.
abbrev pub newest : List ℕ → List ℕ
newest xs = last 1000 xs

abbrev pub totals : (Event → ℕ) → List Event → ℕ
totals f [] = 0
totals f (e ∷ es) = f e + totals f es

absorb-counts :
    (cost : ℕ) (es : List Event) (s : ToolState)
    → ((absorb cost es s).success_count ≡ s.success_count + length (filter (λ e. e.success) es))
      × ((absorb cost es s).failure_count
          ≡ s.failure_count + length (filter (λ e. not e.success) es))
      × ((absorb cost es s).retry_count ≡ s.retry_count + totals (λ e. e.retry_count) es)
      × ((absorb cost es s).cancellation_count
          ≡ s.cancellation_count + length (filter (λ e. e.cancelled) es))
unfolding absorb bump
absorb-counts cost [] s = (omega arith, omega arith, omega arith, omega arith)
absorb-counts cost (e ∷ es) s =
    let (a, b, c, d) = absorb-counts cost es (bump cost e s) in
    (ground arith, ground arith, omega arith, ground arith)

pub push-last : (d : ℕ) (xs : List ℕ) → length xs ≤ 1000 → push d xs ≡ last 1000 (xs ++ d ∷ [])
unfolding push shift
push-last d [] l = refl
push-last d (x ∷ xs) l =
    let n : length ((x ∷ xs) ++ d ∷ []) ≡ length (x ∷ xs) + 1 = length-append (x ∷ xs) (d ∷ []) in
    elim (Bool-cases (leb 1000 (length (x ∷ xs)))) [
      | inl b ↦
          let full : length ((x ∷ xs) ++ d ∷ []) - 1000 ≡ 1 = ground arith in rw (b, full) refl
      | inr b ↦
          let short : length ((x ∷ xs) ++ d ∷ []) - 1000 ≡ 0 = ground arith in rw (b, short) refl
    ]

absorb-durations :
    (cost : ℕ) (es : List Event) (s : ToolState) (all : List ℕ)
    → s.durations ≡ newest all
    → (absorb cost es s).durations ≡ newest (all ++ map (λ e. e.duration_ms) es)
unfolding absorb bump
absorb-durations cost [] s all h = h ∙ ap newest (sym (append-nil all))
absorb-durations cost (e ∷ es) s all h =
    absorb-durations cost es (bump cost e s) (all ++ e.duration_ms ∷ []) (
      ap (push e.duration_ms) h
      ∙ push-last e.duration_ms (newest all) (length-last 1000 all)
      ∙ last-append 1000 all (e.duration_ms ∷ []))
    ∙ ap newest (append_assoc all (e.duration_ms ∷ []) (map (λ e. e.duration_ms) es))

-- What the collector keeps of a tool after any events: how many of the tool's events were successes
-- and failures, its retries and cancellations, and the durations of its last 1000 events in order.
-- Events of other tools do not count.
pub on_all-counts :
    (costs : JsMap ℕ) (name : Text) (es : List Event)
    → let own = filter (is_of name) es in
      let s = or_new (JsMap.get name (on_all costs es [])) in
      (s.success_count ≡ length (filter (λ e. e.success) own))
      × (s.failure_count ≡ length (filter (λ e. not e.success) own))
      × (s.retry_count ≡ totals (λ e. e.retry_count) own)
      × (s.cancellation_count ≡ length (filter (λ e. e.cancelled) own))
      × (s.durations ≡ newest (map (λ e. e.duration_ms) own))
unfolding or_new new_state JsMap.get
on_all-counts costs name es =
    let own = filter (is_of name) es in
    let cost = or_zero (JsMap.get name costs) in
    let (a, b, c, d) = absorb-counts cost own new_state in
    let durations = absorb-durations cost own new_state [] refl in
    rw (get-on_all costs name es [])
      (a ∙ zero-add _, b ∙ zero-add _, c ∙ zero-add _, d ∙ zero-add _, durations)
