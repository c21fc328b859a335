-- ===== src/Observability/Providers.antt =====
-- src/core/repositories/index.ts, the class `ProviderRepository`, and
-- src/core/providers/SearchOrchestrator.ts. A provider's answer to the query is a parameter, as are
-- the readings of the clock.
use agent_diaries_core.Prelude.{
  ℕ, zero, suc, ◌+◌, ◌-◌, ◌≤◌, ◌≡◌, refl, if_pos, Bool, true, false, List, [], ◌∷◌, ◌++◌, Option,
  none, some, arith, Text, Text-discrete, codes, length, drop, ◌⊎◌, inl, inr,
}
use agent_diaries_core.JsMap.{JsMap}
use agent_diaries_core.JsMap
use agent_diaries_core.Shared.{Value, Error, thrown, message}
use agent_diaries_core.Shared.Effect.{Result, ok, err}
use agent_diaries_core.Workers.{or_text}

pub record HealthRecord : Type 0 where
  pub provider_name : Text
  pub latency_ms : ℕ
  pub success : Bool
  pub error : Option Text
  pub timestamp : ℕ

-- The records of each provider, and the `ProviderFailure` events, the newest first.
pub record Repository : Type 0 where
  pub health_records : JsMap (List HealthRecord)
  pub failures : List (Text × Text)

abbrev pub or_none : Option (List HealthRecord) → List HealthRecord
or_none none = []
or_none (some rs) = rs

-- `list.slice(-100)`
unfoldable pub last_100 : List HealthRecord → List HealthRecord
last_100 rs = drop (length rs - 100) rs

unfoldable pub push_record :
    Text → HealthRecord → JsMap (List HealthRecord) → JsMap (List HealthRecord)
unfolding last_100
push_record name r m = JsMap.set name (last_100 (or_none (JsMap.get name m) ++ r ∷ [])) m

unfoldable pub record_provider_latency : Text → ℕ → ℕ → Repository → Repository
unfolding push_record
record_provider_latency name latency now repo =
    let r : HealthRecord = record {
      provider_name = name;
      latency_ms = latency;
      success = true;
      error = none;
      timestamp = now;
    } in
    record repo { health_records = push_record name r repo.health_records }

unfoldable pub record_provider_failure : Text → Text → ℕ → Repository → Repository
unfolding push_record
record_provider_failure name error now repo =
    let r : HealthRecord = record {
      provider_name = name;
      latency_ms = 0;
      success = false;
      error = some error;
      timestamp = now;
    } in
    record {
      health_records = push_record name r repo.health_records;
      failures = (name, error) ∷ repo.failures;
    }

unfoldable pub load_provider_health : Text → Repository → List HealthRecord
load_provider_health name repo = or_none (JsMap.get name repo.health_records)

-- A registered provider: its name, what `search` ends with for the query, how long that takes, and
-- the time at which the outcome is recorded.
pub record Provider : Type 0 where
  pub name : Text
  pub outcome : Result Value
  pub latency : ℕ
  pub recorded : ℕ

abbrev pub error_text : Error → Text
error_text e = or_text (some (message e)) (codes "Error")

abbrev pub after_search :
    Provider
    → Repository
    → (Repository → Repository × Result Value)
    → Result Value
    → Repository × Result Value
after_search p repo rest (ok v) = (record_provider_latency p.name p.latency p.recorded repo, ok v)
after_search p repo rest (err e) =
    rest (record_provider_failure p.name (error_text e) p.recorded repo)

abbrev pub all_failed : Text → Error
all_failed query =
    thrown (
      codes "[SearchOrchestrator] All search providers failed for query \"" ++ query ++ codes "\".")

unfoldable pub search_loop : Text → List Provider → Repository → Repository × Result Value
search_loop query [] repo = (repo, err (all_failed query))
search_loop query (p ∷ ps) repo = after_search p repo (search_loop query ps) p.outcome

unfoldable pub search : Text → List Provider → Repository → Repository × Result Value
unfolding search_loop
search query [] repo =
    (repo, err (thrown (codes "[SearchOrchestrator] No search providers registered.")))
search query (p ∷ ps) repo = search_loop query (p ∷ ps) repo

length-drop :
    {A : Type 0} (n : ℕ) (xs : List A) → n ≤ length xs → length (drop n xs) + n ≡ length xs
length-drop zero xs l = omega arith
length-drop (suc n) [] l = absurd (omega arith)
length-drop (suc n) (x ∷ xs) l = let e = length-drop n xs (omega arith) in omega arith

length-last_100 : (rs : List HealthRecord) → length (last_100 rs) ≤ 100
unfolding last_100
length-last_100 rs = let e = length-drop (length rs - 100) rs (omega arith) in omega arith

Result-cases : (r : Result Value) → ((v : Value) × (r ≡ ok v)) ⊎ ((e : Error) × (r ≡ err e))
Result-cases (ok v) = inl (v, refl)
Result-cases (err e) = inr (e, refl)

-- The names of the providers that fail before the first success, and that success.
abbrev pub first_success : List Provider → List Provider × Option (Provider × Value)
first_success [] = ([], none)
first_success (p ∷ ps) = elim p.outcome [
  | ok v ↦ ([], some (p, v))
  | err e ↦ let (failed, found) = first_success ps in (p ∷ failed, found)
]

abbrev pub answer_of : Text → Option (Provider × Value) → Result Value
answer_of query none = err (all_failed query)
answer_of query (some (p, v)) = ok v

-- The search answers what the first provider that succeeds in the order of registration answers,
-- and throws if there is none; it announces one failure for each provider before that one, and for
-- no other.
pub search_loop-first_success :
    (query : Text) (ps : List Provider) (repo : Repository)
    → ((search_loop query ps repo).1 ≡ answer_of query (first_success ps).1)
      × (length (search_loop query ps repo).0.failures
          ≡ length (first_success ps).0 + length repo.failures)
unfolding search_loop record_provider_failure record_provider_latency
search_loop-first_success query [] repo = (refl, omega arith)
search_loop-first_success query (p ∷ ps) repo = elim (Result-cases p.outcome) [
  | inl (v, e) ↦ rw e (refl, omega arith)
  | inr (x, e) ↦
      let after = record_provider_failure p.name (error_text x) p.recorded repo in
      let (answers, announced) = search_loop-first_success query ps after in
      rw e (answers, omega arith)
]

-- No provider has more than 100 records.
abbrev pub IsBounded : Repository → Type 0
IsBounded repo = (name : Text) → length (load_provider_health name repo) ≤ 100

push_record-bounded :
    (j name : Text) (r : HealthRecord) (m : JsMap (List HealthRecord))
    → length (or_none (JsMap.get j m)) ≤ 100
    → length (or_none (JsMap.get j (push_record name r m))) ≤ 100
unfolding push_record
push_record-bounded j name r m h = elim (Text-discrete name j) [
  | yes e ↦
      rw
        (
          JsMap.get-set j name (last_100 (or_none (JsMap.get name m) ++ r ∷ [])) m,
          if_pos (Text-discrete name j) e,
        )
        (length-last_100 (or_none (JsMap.get name m) ++ r ∷ []))
  | no n ↦ rw (JsMap.get-set_ne j name (last_100 (or_none (JsMap.get name m) ++ r ∷ [])) m n) h
]

search_loop-IsBounded :
    (query : Text) (ps : List Provider) (repo : Repository)
    → IsBounded repo
    → IsBounded (search_loop query ps repo).0
unfolding search_loop load_provider_health record_provider_latency record_provider_failure
    push_record
search_loop-IsBounded query [] repo h = h
search_loop-IsBounded query (p ∷ ps) repo h = elim (Result-cases p.outcome) [
  | inl (v, e) ↦ rw e λ name. push_record-bounded name p.name _ repo.health_records (h name)
  | inr (x, e) ↦ rw e (
      search_loop-IsBounded query ps (record_provider_failure p.name (error_text x) p.recorded repo)
        (λ name. push_record-bounded name p.name _ repo.health_records (h name)))
]

-- However many searches are recorded, no provider ever has more than 100 records.
pub search-IsBounded :
    (query : Text) (ps : List Provider) (repo : Repository)
    → IsBounded repo
    → IsBounded (search query ps repo).0
unfolding search
search-IsBounded query [] repo h = h
search-IsBounded query (p ∷ ps) repo h = search_loop-IsBounded query (p ∷ ps) repo h
