-- ===== src/Diary.antt =====
-- src/diary.ts, the class `AgentDiary`: its configuration, its storage, and the steps that its
-- methods share. A method runs under the storage's lock, so it is one transition of the world;
-- each reading of the clock is an argument.
pub mod Claims
pub mod Outcomes
pub mod Views
pub mod Upkeep
pub mod Records
pub mod Probing
pub mod Claiming
pub mod Invariant
pub mod History
pub mod Exclusive
pub mod Replay
pub mod Once
pub mod Readback
pub mod Listing
pub mod Entries
use agent_diaries_core.Prelude.{
  ℕ, suc, zero, ◌+◌, ite, Bool, false, List, [], ◌∷◌, ◌++◌, map, Option, none, some, Text,
  Text-discrete, codes, ltb, take, if◌then◌else◌,
}
use agent_diaries_core.JsMap.{JsMap}
use agent_diaries_core.JsMap
use agent_diaries_core.Shared.{TaskRecord, AgentState, pending}
use agent_diaries_core.Shared.Effect.{◌>>◌, ◌>>=◌, M, Result, ok, return}
use agent_diaries_core.Shared.Signature.{compute_signature}

-- `AgentDiaryOptions`, but for the storage.
pub record Config : Type 0 where
  pub agent_id : Text
  pub max_history : Option ℕ
  pub default_ttl_ms : Option ℕ
  pub hash_fn : Option (Text → Text)
  pub on_task_expired : Option (TaskRecord → Result (Unit {0}))

-- The storage behind the adapter, the `DiaryUpdated` events and the calls of `onTaskExpired`, the
-- newest first.
pub record World : Type 0 where
  pub store : JsMap AgentState
  pub updates : List (Text × AgentState)
  pub expirations : List TaskRecord

-- `options.maxHistory || 500`
unfoldable pub history_limit : Option ℕ → ℕ
history_limit none = 500
history_limit (some zero) = 500
history_limit (some (suc n)) = suc n

abbrev pub limit : Config → ℕ
limit c = history_limit c.max_history

abbrev pub signature_of : Config → Text → Text
signature_of c title = compute_signature c.hash_fn title

-- `a ?? b`
abbrev pub or_else : {A : Type 0} → Option A → Option A → Option A
or_else none b = b
or_else (some a) b = some a

unfoldable pub diary_key : Text → Text
diary_key agent_id = codes "diary_" ++ agent_id

unfoldable pub empty_state : AgentState
empty_state = record { last_run = 0; seen_signatures = []; run_count = 0; history = [] }

unfoldable pub or_empty : Option AgentState → AgentState
or_empty none = empty_state
or_empty (some s) = s

-- What `readDiary` returns.
unfoldable pub loaded : Config → World → AgentState
loaded c w = or_empty (JsMap.get (diary_key c.agent_id) w.store)

abbrev pub read_diary : Config → M World AgentState
read_diary c w = (w, ok (loaded c w))

-- The world after `saveDiary`.
unfoldable pub saved : Config → AgentState → World → World
saved c s w = record w {
  store = JsMap.set (diary_key c.agent_id) s w.store;
  updates = (c.agent_id, s) ∷ w.updates;
}

abbrev pub write_diary : Config → AgentState → M World (Unit {0})
write_diary c s w = (saved c s w, ok tt)

unfoldable pub is_expired : TaskRecord → ℕ → Bool
is_expired r now = elim r.ttl_ms [ none ↦ false | some ttl ↦ ltb (r.timestamp + ttl) now ]

-- `findIndex`, `splice` and the writes to `history[index]`: the first record of a signature.
unfoldable pub find_record : Text → List TaskRecord → Option TaskRecord
find_record s [] = none
find_record s (r ∷ rs) = ite (Text-discrete r.signature s) (some r) (find_record s rs)

unfoldable pub drop_record : Text → List TaskRecord → List TaskRecord
drop_record s [] = []
drop_record s (r ∷ rs) = ite (Text-discrete r.signature s) rs (r ∷ drop_record s rs)

unfoldable pub modify_record : Text → (TaskRecord → TaskRecord) → List TaskRecord → List TaskRecord
modify_record s f [] = []
modify_record s f (r ∷ rs) = ite (Text-discrete r.signature s) (f r ∷ rs) (r ∷ modify_record s f rs)

abbrev pub signatures : List TaskRecord → List Text
signatures = map λ r. r.signature

unfoldable pub call_hook : Config → TaskRecord → M World (Unit {0})
call_hook c r = elim c.on_task_expired [
  | none ↦ return tt
  | some hook ↦ λ w. (record w { expirations = r ∷ w.expirations }, hook r)
]

-- Is the task held by a live record? An expired one is reported and taken out.
pub data Probe : Type 0 where
  held : TaskRecord → Probe
  free : List TaskRecord → Probe

unfoldable pub probe : Config → Text → ℕ → List TaskRecord → M World Probe
probe c s now h = elim (find_record s h) [
  | none ↦ return (free h)
  | some r ↦
      if is_expired r now
      then (do call_hook c r; return (free (drop_record s h)))
      else return (held r)
]

unfoldable pub new_claim : Text → Text → ℕ → Option ℕ → TaskRecord
new_claim title signature now ttl = record {
  title = title;
  signature = signature;
  result = none;
  status = some pending;
  fail_reason = none;
  timestamp = now;
  ttl_ms = ttl;
}

-- A claim goes to the front of the history, which is cut to the limit.
unfoldable pub enter : Config → TaskRecord → ℕ → AgentState → List TaskRecord → AgentState
enter c claim now s h =
    let kept = take (limit c) (claim ∷ h) in
    record {
      last_run = now;
      seen_signatures = signatures kept;
      run_count = s.run_count + 1;
      history = kept;
    }
