-- ===== src/Tools/Executor/Retries.antt =====
-- How often a tool is tried, and which attempt decides.
use agent_diaries_core.Prelude.{
  ℕ, zero, suc, ◌+◌, ◌*◌, ◌≤◌, ◌<◌, ◌≡◌, refl, ◌∙◌, ap, inl, inr, Bool, true, false, ◌||◌, ◌&&◌,
  List, ◌∷◌, arith, Text, length, Bool-cases, if◌then◌else◌,
}
use agent_diaries_core.Tools.Executor.{
  ToolResult, Attempt, returned, raised, Call, Event, Log, announced, emit_event, failure,
  end_attempt, give_up, loop, exhausted, cancelled_text,
}

-- An attempt after which the loop goes on.
abbrev pub fails : Attempt → Bool
fails (returned r ms) = false
fails (raised abort aborted message ms) = if abort || aborted then false else true

-- One event more, if there is a bus, and at least one and at most `n` attempts more.
abbrev pub IsAccounted : Bool → ℕ → Log → Log → Type 0
IsAccounted bus n before after =
    (length after.events ≡ (if bus then 1 else 0) + length before.events)
    × (after.made ≤ before.made + n)
    × (before.made < after.made)

pub announced-length :
    (bus : Bool) (e : Event) (es : List Event)
    → length (announced bus e es) ≡ (if bus then 1 else 0) + length es
announced-length true e es = omega arith
announced-length false e es = omega arith

module _ (print : ℕ → Text) (call : Call) (delay_ms : ℕ) where
  emits-IsAccounted :
      (r : ToolResult) (n k : ℕ) (a b : Bool) (log : Log)
      → IsAccounted call.has_event_bus
          (suc k)
          log
          (emit_event call r n a b (record log { made = log.made + 1 })).0
  unfolding emit_event
  emits-IsAccounted r n k a b log =
      (announced-length call.has_event_bus _ log.events, omega arith, omega arith)

  end_attempt-IsAccounted :
      (n k : ℕ) (log : Log) (next : Log × ToolResult) (a : Attempt)
      → (fails a ≡ true → IsAccounted call.has_event_bus (suc k) log next.0)
      → IsAccounted call.has_event_bus
          (suc k)
          log
          (end_attempt print call delay_ms n (record log { made = log.made + 1 }) next a).0
  unfolding end_attempt
  end_attempt-IsAccounted n k log next (returned r ms) h =
      emits-IsAccounted (record r { duration_ms = ms }) n k false false log
  end_attempt-IsAccounted n k log next (raised abort aborted message ms) h =
      elim (Bool-cases (abort || aborted)) [
        | inl e ↦
            rw e
              (emits-IsAccounted (failure (cancelled_text call) ms) n k true (aborted && abort) log)
        | inr e ↦ rw e (h (rw e refl))
      ]

  give_up-IsAccounted :
      (n k : ℕ) (log : Log) (a : Attempt)
      → fails a ≡ true
      → IsAccounted call.has_event_bus
          (suc k)
          log
          (give_up print call delay_ms n (record log { made = log.made + 1 }) a).0
  unfolding give_up
  give_up-IsAccounted n k log (returned r ms) e = absurd cc
  give_up-IsAccounted n k log (raised abort aborted message ms) e =
      emits-IsAccounted (failure (exhausted call print (suc n) message) ms) (suc n) k false false
        log

  pub loop-IsAccounted :
      (left n : ℕ) (log : Log)
      → IsAccounted call.has_event_bus (suc left) log (loop print call delay_ms left n log).0
  unfolding loop
  loop-IsAccounted zero n log =
      end_attempt-IsAccounted n 0 log _ (call.attempts n)
        (give_up-IsAccounted n 0 log (call.attempts n))
  loop-IsAccounted (suc left) n log =
      let later : Log = record log {
        made = log.made + 1;
        delays = delay_ms * suc n ∷ log.delays;
      } in
      end_attempt-IsAccounted n (suc left) log _ (call.attempts n)
        λ _. let (e, l, g) = loop-IsAccounted left (suc n) later in (e, omega arith, omega arith)

  -- The answer of an attempt after which the loop ends.
  pub verdict : Attempt → ToolResult
  unfolding failure cancelled_text
  verdict (returned r ms) = record r { duration_ms = ms }
  verdict (raised abort aborted message ms) = failure (cancelled_text call) ms

  end_attempt-Decides :
      (n : ℕ) (log : Log) (next : Log × ToolResult) (a : Attempt)
      → fails a ≡ false
      → ((end_attempt print call delay_ms n log next a).1 ≡ verdict a)
        × ((end_attempt print call delay_ms n log next a).0.made ≡ log.made)
  unfolding end_attempt emit_event verdict
  end_attempt-Decides n log next (returned r ms) e = (refl, refl)
  end_attempt-Decides n log next (raised abort aborted message ms) e =
      elim (Bool-cases (abort || aborted)) [
        | inl b ↦ rw b (refl, refl)
        | inr b ↦ let k = rw b at e in absurd cc
      ]

  end_attempt-goes_on :
      (n : ℕ) (log : Log) (next : Log × ToolResult) (a : Attempt)
      → fails a ≡ true
      → end_attempt print call delay_ms n log next a ≡ next
  unfolding end_attempt
  end_attempt-goes_on n log next (returned r ms) e = absurd cc
  end_attempt-goes_on n log next (raised abort aborted message ms) e =
      elim (Bool-cases (abort || aborted)) [
        | inl b ↦ let k = rw b at e in absurd cc
        | inr b ↦ rw b refl
      ]

  -- The attempt `m` is the first after which the loop does not go on.
  abbrev pub Decides : ℕ → ℕ → Type 0
  Decides n m =
      ((i : ℕ) → n ≤ i → i < m → fails (call.attempts i) ≡ true) × (fails (call.attempts m) ≡ false)

  first_decides :
      (n m : ℕ) (log : Log) (next : Log × ToolResult)
      → n ≡ m
      → fails (call.attempts m) ≡ false
      → let v : Log = record log { made = log.made + 1 } in
        let end = end_attempt print call delay_ms n v next (call.attempts n) in
        (end.1 ≡ verdict (call.attempts m)) × (end.0.made ≡ log.made + 1)
  first_decides n m log next q e =
      let v : Log = record log { made = log.made + 1 } in
      let (r, c) =
        end_attempt-Decides n v next (call.attempts n) (ap (λ i. fails (call.attempts i)) q ∙ e) in
      (r ∙ ap (λ i. verdict (call.attempts i)) q, c)

  give_up-fails :
      (n : ℕ) (log : Log) (a : Attempt)
      → fails a ≡ true
      → ((give_up print call delay_ms n log a).1.success ≡ false)
        × ((give_up print call delay_ms n log a).0.made ≡ log.made)
        × ((give_up print call delay_ms n log a).0.delays ≡ log.delays)
  unfolding give_up emit_event failure
  give_up-fails n log (returned r ms) e = absurd cc
  give_up-fails n log (raised abort aborted message ms) e = (refl, refl, refl)

  pub loop-Decides :
      (left k n m : ℕ) (log : Log)
      → k ≤ left
      → m ≡ n + k
      → Decides n m
      → ((loop print call delay_ms left n log).1 ≡ verdict (call.attempts m))
        × ((loop print call delay_ms left n log).0.made ≡ log.made + suc k)
  unfolding loop
  loop-Decides zero zero n m log l q (h, e) =
      let same : n ≡ m = omega arith in first_decides n m log _ same e
  loop-Decides (suc left) zero n m log l q (h, e) =
      let same : n ≡ m = omega arith in first_decides n m log _ same e
  loop-Decides zero (suc k) n m log l q d = absurd (omega arith)
  loop-Decides (suc left) (suc k) n m log l q (h, e) =
      let later : Log = record log {
        made = log.made + 1;
        delays = delay_ms * suc n ∷ log.delays;
      } in
      let (r, c) =
        loop-Decides left k (suc n) m later (omega arith) (omega arith)
          (λ i a b. h i (omega arith) b, e) in
      rw
        (end_attempt-goes_on n (record log { made = log.made + 1 })
          (loop print call delay_ms left (suc n) later) (call.attempts n)
          (h n (omega arith) (omega arith)))
        (r, omega arith)

  pub loop_exhausted :
      (left n : ℕ) (log : Log)
      → ((i : ℕ) → n ≤ i → i ≤ n + left → fails (call.attempts i) ≡ true)
      → ((loop print call delay_ms left n log).1.success ≡ false)
        × ((loop print call delay_ms left n log).0.made ≡ log.made + suc left)
        × (length (loop print call delay_ms left n log).0.delays ≡ length log.delays + left)
  unfolding loop
  loop_exhausted zero n log h =
      let v : Log = record log { made = log.made + 1 } in
      let failed = h n (omega arith) (omega arith) in
      let (r, c, d) = give_up-fails n v (call.attempts n) failed in
      rw
        (end_attempt-goes_on n v (give_up print call delay_ms n v (call.attempts n))
          (call.attempts n) failed)
        (r, omega arith, rw d (omega arith))
  loop_exhausted (suc left) n log h =
      let later : Log = record log {
        made = log.made + 1;
        delays = delay_ms * suc n ∷ log.delays;
      } in
      let (r, c, d) =
        loop_exhausted left (suc n) later (λ i a b. h i (omega arith) (omega arith)) in
      rw
        (end_attempt-goes_on n (record log { made = log.made + 1 })
          (loop print call delay_ms left (suc n) later) (call.attempts n)
          (h n (omega arith) (omega arith)))
        (r, omega arith, omega arith)
