-- ===== src/Runtime/Environment/Once.antt =====
-- Warm-up and shut-down happen once, if calls of theirs do not overlap.
use agent_diaries_core.Prelude.{
  ℕ, zero, suc, ◌+◌, ◌≤◌, ◌≡◌, refl, sym, ◌∙◌, ap, Bool, Bool-cases, inl, inr, true, false, ◌&&◌,
  ◌||◌, List, [], ◌∷◌, arith, any, length, length-append, ltb, ◌==◌,
}
use agent_diaries_core.Tools.Registry.{initialize_all}
use agent_diaries_core.Runtime.Environment.{
  tools_initialized, begin_warmup, begin_shutdown, register_tool, register_agent, health_check,
}
use agent_diaries_core.Runtime.Environment.Turns.{
  Turn, begins_warmup, continues_warmup, begins_shutdown, ends_shutdown, adds_tool, adds_agent,
  checks, Runtime, new_runtime, one_if, finish_shutdown, advance, advance_all, is_free, is_serial,
}
use agent_diaries_core.Runtime.Environment.Logged.{
  is_warmup, is_shutdown, initializations, cleanups, warm_ups, shut_downs, IsLogged, flag-le,
  continue_at-GoesOn,
}

-- A turn keeps the log right, and begins what it begins.
record Advances (t : Turn) (r s : Runtime) : Type 0 where
  logged : IsLogged s
  warmed :
      warm_ups s.environment s.warming
      ≡ one_if (ltb 0 (warm_ups r.environment r.warming) || is_warmup t)
  closed : shut_downs s ≡ one_if (ltb 0 (shut_downs r) || is_shutdown t)

unchanged : (n : ℕ) → n ≤ 1 → n ≡ one_if (ltb 0 n || false)
unchanged n h = ground arith

begun : (n m : ℕ) → m ≡ 1 → m ≡ one_if (ltb 0 n || true)
begun n m h = ground arith

-- A turn that changes neither the log nor what waits or is flagged.
quiet-Advances :
    (t : Turn) (r s : Runtime)
    → is_warmup t ≡ false
    → is_shutdown t ≡ false
    → IsLogged r
    → s.environment.log ≡ r.environment.log
    → warm_ups s.environment s.warming ≡ warm_ups r.environment r.warming
    → shut_downs s ≡ shut_downs r
    → Advances t r s
quiet-Advances t r s a b l e f g = record {
  logged = record {
    warm = ap initializations e ∙ l.warm ∙ sym f;
    warm_once = let h = l.warm_once in omega arith;
    shut = ap cleanups e ∙ l.shut ∙ sym g;
    shut_once = let h = l.shut_once in omega arith;
  };
  warmed = rw a (f ∙ unchanged _ l.warm_once);
  closed = rw b (g ∙ unchanged _ l.shut_once);
}

none_if : (n : ℕ) → (n == 0) ≡ true → n ≡ 0
none_if n e = ground arith

begin_warmup-Advances :
    (start : ℕ) (r : Runtime)
    → is_free (begins_warmup start) r ≡ true
    → IsLogged r
    → Advances (begins_warmup start) r (advance (begins_warmup start) r)
unfolding advance begin_warmup
begin_warmup-Advances start r free l = elim (Bool-cases r.environment.warmed_up) [
  | inl e ↦
      let f : one_if r.environment.warmed_up ≡ 1 = ap one_if e in
      let k = length-append r.warming [] in
      let w = l.warm in
      let o = l.warm_once in
      rw e (record {
        logged = record {
          warm = omega arith;
          warm_once = omega arith;
          shut = l.shut;
          shut_once = l.shut_once;
        };
        warmed = begun _ _ (omega arith);
        closed = unchanged _ l.shut_once;
      })
  | inr e ↦
      let f : one_if r.environment.warmed_up ≡ 0 = ap one_if e in
      let z = none_if (length r.warming) free in
      let names = initialize_all r.environment.tools in
      let k = length-append r.warming (tools_initialized start names ∷ []) in
      let w = l.warm in
      rw e (record {
        logged = record {
          warm = omega arith;
          warm_once = omega arith;
          shut = l.shut;
          shut_once = l.shut_once;
        };
        warmed = begun _ _ (omega arith);
        closed = unchanged _ l.shut_once;
      })
]

begin_shutdown-Advances :
    (r : Runtime)
    → is_free begins_shutdown r ≡ true
    → IsLogged r
    → Advances begins_shutdown r (advance begins_shutdown r)
unfolding advance begin_shutdown
begin_shutdown-Advances r free l = elim (Bool-cases r.environment.shut_down) [
  | inl e ↦
      let f : one_if r.environment.shut_down ≡ 1 = ap one_if e in
      let w = l.shut in
      let o = l.shut_once in
      rw e (record {
        logged = record {
          warm = l.warm;
          warm_once = l.warm_once;
          shut = omega arith;
          shut_once = omega arith;
        };
        warmed = unchanged _ l.warm_once;
        closed = begun _ _ (omega arith);
      })
  | inr e ↦
      let f : one_if r.environment.shut_down ≡ 0 = ap one_if e in
      let z = none_if r.closing free in
      let w = l.shut in
      rw e (record {
        logged = record {
          warm = l.warm;
          warm_once = l.warm_once;
          shut = omega arith;
          shut_once = omega arith;
        };
        warmed = unchanged _ l.warm_once;
        closed = begun _ _ (omega arith);
      })
]

end_shutdown-Advances :
    (r : Runtime) (n : ℕ)
    → r.closing ≡ n
    → IsLogged r
    → Advances ends_shutdown r (finish_shutdown r n)
unfolding finish_shutdown
end_shutdown-Advances r zero e l = quiet-Advances ends_shutdown r r refl refl l refl refl refl
end_shutdown-Advances r (suc n) e l = quiet-Advances ends_shutdown r _ refl refl l refl refl (
    let h : one_if r.environment.shut_down + suc n ≤ 1 = rw (← e) l.shut_once in
    let (a, b) = flag-le r.environment.shut_down n h in rw (e, a, b) refl)

advance-Advances :
    (t : Turn) (r : Runtime) → is_free t r ≡ true → IsLogged r → Advances t r (advance t r)
unfolding advance register_tool register_agent health_check
advance-Advances (begins_warmup start) r free l = begin_warmup-Advances start r free l
advance-Advances (continues_warmup n now) r free l =
    let g = continue_at-GoesOn n now r.environment r.warming in
    quiet-Advances (continues_warmup n now) r _ refl refl l g.same_log (g.same_count l.warm_once)
      (ap (λ b. one_if b + r.closing) g.same_shut)
advance-Advances begins_shutdown r free l = begin_shutdown-Advances r free l
advance-Advances ends_shutdown r free l = end_shutdown-Advances r r.closing refl l
advance-Advances (adds_tool t) r free l =
    quiet-Advances (adds_tool t) r _ refl refl l refl refl refl
advance-Advances (adds_agent a) r free l =
    quiet-Advances (adds_agent a) r _ refl refl l refl refl refl
advance-Advances (checks m n) r free l = quiet-Advances (checks m n) r _ refl refl l refl refl refl

both : (a b : Bool) → (a && b) ≡ true → (a ≡ true) × (b ≡ true)
both a b e = ground arith

chained :
    (n : ℕ) (a b : Bool) (m : ℕ)
    → n ≡ one_if (ltb 0 m || a)
    → (ltb 0 n || b) ≡ (ltb 0 m || (a || b))
chained n a b m e = ground arith

advance_all-counts :
    (ts : List Turn) (r : Runtime)
    → is_serial ts r ≡ true
    → IsLogged r
    → let log = (advance_all ts r).environment.log in
      (initializations log ≡ one_if (ltb 0 (warm_ups r.environment r.warming) || any is_warmup ts))
      × (cleanups log ≡ one_if (ltb 0 (shut_downs r) || any is_shutdown ts))
unfolding advance_all is_serial
advance_all-counts [] r serial l =
    (l.warm ∙ unchanged _ l.warm_once, l.shut ∙ unchanged _ l.shut_once)
advance_all-counts (t ∷ ts) r serial l =
    let (free, rest) = both (is_free t r) (is_serial ts (advance t r)) serial in
    let a = advance-Advances t r free l in
    let (m, n) = advance_all-counts ts (advance t r) rest a.logged in
    (m ∙ ap one_if (chained _ _ _ _ a.warmed), n ∙ ap one_if (chained _ _ _ _ a.closed))

-- Whatever else is called before, between and during them, a new runtime initialises its tools once
-- if it is warmed up at all, and cleans them up once if it is shut down at all, however often that
-- is asked for: no warm-up may begin while another one waits, nor a shut-down while another one
-- does.
pub advance_all-once :
    (ts : List Turn)
    → is_serial ts new_runtime ≡ true
    → let log = (advance_all ts new_runtime).environment.log in
      (initializations log ≡ one_if (any is_warmup ts))
      × (cleanups log ≡ one_if (any is_shutdown ts))
advance_all-once ts serial =
    advance_all-counts ts new_runtime serial
      (record { warm = refl; warm_once = omega arith; shut = refl; shut_once = omega arith })
