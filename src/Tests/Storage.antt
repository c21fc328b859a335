-- ===== src/Tests/Storage.antt =====
-- The caches in front of and behind the storage manager, and the bridge, in small runs.
use agent_diaries_core.Prelude.{
  ℕ, ite, if_pos, if_neg, ◌≢◌, ◌⊎◌, inl, sym, ◌∙◌, ap, ◌≡◌, refl, false, List, [], ◌∷◌, Option,
  none, some, Text, Text-discrete, codes,
}
use agent_diaries_core.JsMap
use agent_diaries_core.Shared.{Value, null, number, WorkflowState}
use agent_diaries_core.Memory.Cache
use agent_diaries_core.Memory.Lru
use agent_diaries_core.Memory.Lru.{LruCache, Provider}
use agent_diaries_core.Memory.Lru.Refinement.{
  Op, gets, sets, deletes, clears, IsCoherent, answers, answers_plain, answers-refines,
}
use agent_diaries_core.Memory.Persistence
use agent_diaries_core.Memory.Persistence.{Persistence}
use agent_diaries_core.Storage.Adapter.{Json}
use agent_diaries_core.Storage.Adapter
use agent_diaries_core.Storage.Files
use agent_diaries_core.Storage.Bridge
use agent_diaries_core.Tests.Workflows.{waits}
use agent_diaries_core.Storage.Bridge.{Document}
use agent_diaries_core.Storage.Bridge.Refinement.{Save, saves_workflow, saves_metric}

-- A cache that holds one entry and never lets it expire.
abbrev look : Text → Option (Text × Value) → Option Value
look k none = none
look k (some (j, v)) = ite (Text-discrete j k) (some v) none

look_put :
    (j k : Text) (v : Value) (s : Option (Text × Value)) (x : Value)
    → look j (some (k, v)) ≡ some x
    → ((k ≡ j) × (x ≡ v)) ⊎ ((k ≢ j) × ((t : ℕ) × (look j s ≡ some x)))
look_put j k v s x h = elim (Text-discrete k j) [
  | yes e ↦
      let is : some v ≡ some x = sym (if_pos (Text-discrete k j) e (some v) none) ∙ h in inl (e, cc)
  | no n ↦
      let is : none ≡ some x = sym (if_neg (Text-discrete k j) n (some v) none) ∙ h in absurd cc
]

abbrev drop_key : Text → Option (Text × Value) → Option (Text × Value)
drop_key k none = none
drop_key k (some (j, v)) = ite (Text-discrete j k) none (some (j, v))

look_drop :
    (j k : Text) (s : Option (Text × Value)) (x : Value)
    → look j (drop_key k s) ≡ some x
    → (k ≢ j) × ((t : ℕ) × (look j s ≡ some x))
look_drop j k none x h = absurd cc
look_drop j k (some (i, v)) x h = elim (Text-discrete i k) [
  | yes e ↦
      let is : look j none ≡ some x =
        ap (look j) (sym (if_pos (Text-discrete i k) e none (some (i, v)))) ∙ h in
      absurd cc
  | no n ↦
      let is : look j (some (i, v)) ≡ some x =
        ap (look j) (sym (if_neg (Text-discrete i k) n none (some (i, v)))) ∙ h in
      let other : k ≡ j → look j (some (i, v)) ≡ none =
        λ e. if_neg (Text-discrete i j) (λ f. n (f ∙ sym e)) (some v) none in
      (λ e. let gone = other e in absurd cc, (0, is))
]

abbrev one_entry : LruCache
one_entry = record {
  Store = Option (Text × Value);
  peek = λ at k s. look k s;
  touch = λ k now s. s;
  put = λ k v ttl now s. some (k, v);
  remove = λ k s. drop_key k s;
  reset = λ s. none;
  peek-touch = λ at j k now s x h. (at, h);
  peek-put = λ at j k v ttl now s x h. look_put j k v s x h;
  peek-remove = λ at j k s x h. look_drop j k s x h;
  peek-reset = λ at j s. refl;
}

abbrev no_entries : Provider one_entry
no_entries = record { cache = none; underlying = [] }

no_entries-IsCoherent : IsCoherent one_entry no_entries
unfolding JsMap.get
no_entries-IsCoherent = record {
  keyed = tt;
  lasting = λ k i h. absurd cc;
  backed = λ at k v h. absurd cc;
}

abbrev calls : List Op
calls =
    sets (codes "a") (number 1) 10
    ∷ sets (codes "b") null 11
    ∷ gets (codes "a") 12
    ∷ gets (codes "a") 13
    ∷ deletes (codes "a")
    ∷ gets (codes "a") 14
    ∷ clears
    ∷ gets (codes "b") 15
    ∷ []

answers-refines_example : answers one_entry calls no_entries ≡ answers_plain calls []
answers-refines_example = answers-refines one_entry calls no_entries no_entries-IsCoherent

-- Documents as their own JSON texts.
abbrev documents : Json Document
documents = record {
  Source = Option Document;
  is_empty = λ d. false;
  stringify = λ d. d;
  parse = λ d. some d;
  is_empty-stringify = λ d. refl;
  parse-stringify = λ d. refl;
}

abbrev saves : List Save
saves =
    saves_workflow waits
    ∷ saves_metric (record { name = codes "steps"; value = 3; tags = []; timestamp = 5 })
    ∷ saves_workflow (record waits { state = WorkflowState.claimed; worker_id = some (codes "w1") })
    ∷ []

abbrev empty_db : Persistence
empty_db = record { workflows = []; traces = []; timeline = []; metrics = []; reports = [] }

-- An entry that lives until 100 is answered at 200, once it was read through the front cache at 50.
abbrev timed : Provider one_entry
timed = record {
  cache = none;
  underlying = (codes "a", record { value = number 1; expires_at = some 100 }) ∷ [];
}

outlived :
    ((Lru.get one_entry (codes "a") 200 (Lru.get one_entry (codes "a") 50 timed).0).1
      ≡ some (number 1))
    × ((Cache.get (codes "a") 200 timed.underlying).1 ≡ none)
unfolding Lru.get Lru.get_found Lru.get_missing Lru.remember Cache.get Cache.answer_item
    Cache.is_over JsMap.get JsMap.delete Text-discrete
outlived = (refl, refl)

-- Two agents whose names differ in a dot share a file.
shared_file :
    Files.get_file_path documents [] (codes "a.b") ≡ Files.get_file_path documents [] (codes "a_b")
unfolding Files.get_file_path Files.safe_key Files.is_safe
shared_file = refl
