-- ===== src/Runtime/Environment/Logged.antt =====
-- The log of a runtime and what its flags and waiting calls say of it.
use agent_diaries_core.Prelude.{
  ℕ, zero, suc, ◌+◌, ◌≤◌, ◌≡◌, refl, Bool, true, false, List, [], ◌∷◌, arith, length,
}
use agent_diaries_core.Runtime.Environment.{
  Action, initialized, cleaned, Environment, Warming, tools_initialized, tools_checked,
  agents_checked, continue_warmup,
}
use agent_diaries_core.Runtime.Environment.Turns.{
  Turn, begins_warmup, begins_shutdown, Runtime, continue_at, one_if,
}

abbrev pub is_warmup : Turn → Bool
is_warmup (begins_warmup start) = true
is_warmup _ = false

abbrev pub is_shutdown : Turn → Bool
is_shutdown begins_shutdown = true
is_shutdown _ = false

abbrev pub initializations : List Action → ℕ
initializations [] = 0
initializations (initialized names ∷ as_logged) = suc (initializations as_logged)
initializations (cleaned ∷ as_logged) = initializations as_logged

abbrev pub cleanups : List Action → ℕ
cleanups [] = 0
cleanups (initialized names ∷ as_logged) = cleanups as_logged
cleanups (cleaned ∷ as_logged) = suc (cleanups as_logged)

-- Warm-ups that wait or have set the flag, and the same of shut-downs.
abbrev pub warm_ups : Environment → List Warming → ℕ
warm_ups e xs = one_if e.warmed_up + length xs

abbrev pub shut_downs : Runtime → ℕ
shut_downs r = one_if r.environment.shut_down + r.closing

-- The log says that there was one of each at most.
pub record IsLogged (r : Runtime) : Type 0 where
  pub warm : initializations r.environment.log ≡ warm_ups r.environment r.warming
  pub warm_once : warm_ups r.environment r.warming ≤ 1
  pub shut : cleanups r.environment.log ≡ shut_downs r
  pub shut_once : shut_downs r ≤ 1

-- A warm-up that goes on sets the flag at most.
pub record GoesOn (e : Environment) (xs : List Warming) (p : Environment × List Warming)
    : Type 0 where
  pub same_log : p.0.log ≡ e.log
  pub same_shut : p.0.shut_down ≡ e.shut_down
  pub same_count : warm_ups e xs ≤ 1 → warm_ups p.0 p.1 ≡ warm_ups e xs

pub flag-le : (b : Bool) (n : ℕ) → one_if b + suc n ≤ 1 → (b ≡ false) × (n ≡ 0)
flag-le true n h = absurd (omega arith)
flag-le false n h = (refl, omega arith)

pub continue_at-GoesOn :
    (n now : ℕ) (e : Environment) (xs : List Warming) → GoesOn e xs (continue_at n now e xs)
unfolding continue_at continue_warmup
continue_at-GoesOn n now e [] = record { same_log = refl; same_shut = refl; same_count = λ h. refl }
continue_at-GoesOn zero now e (tools_initialized start names ∷ xs) = record {
  same_log = refl;
  same_shut = refl;
  same_count = λ h. refl;
}
continue_at-GoesOn zero now e (tools_checked start names statuses ∷ xs) = record {
  same_log = refl;
  same_shut = refl;
  same_count = λ h. refl;
}
continue_at-GoesOn zero now e (agents_checked start names statuses reports ∷ xs) = record {
  same_log = refl;
  same_shut = refl;
  same_count = λ h. let (a, b) = flag-le e.warmed_up (length xs) h in rw (a, b) refl;
}
continue_at-GoesOn (suc n) now e (x ∷ xs) =
    let g = continue_at-GoesOn n now e xs in
    record {
      same_log = g.same_log;
      same_shut = g.same_shut;
      same_count = λ h. let k = g.same_count (omega arith) in omega arith;
    }
