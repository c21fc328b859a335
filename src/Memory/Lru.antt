-- ===== src/Memory/Lru.antt =====
-- src/core/memory/LruMemoryProvider.ts, over the in-memory cache provider. The package `lru-cache` is
-- given by its operations and by what they promise; it may drop any entry at any time.
pub mod Refinement
use agent_diaries_core.Prelude.{ℕ, zero, suc, ◌≡◌, ◌≢◌, ◌⊎◌, Bool, List, Option, none, some, Text}
use agent_diaries_core.JsMap.{JsMap}
use agent_diaries_core.Shared.{Value, null}
use agent_diaries_core.Memory.Cache
use agent_diaries_core.Memory.Cache.{Item}

pub record LruCache : Type 1 where
  pub Store : Type 0
  -- What `has` and `get` find at a time; `touch` is the change of the order by `get`.
  pub peek : ℕ → Text → Store → Option Value
  pub touch : Text → ℕ → Store → Store
  pub put : Text → Value → Option ℕ → ℕ → Store → Store
  pub remove : Text → Store → Store
  pub reset : Store → Store
  pub peek-touch :
      (at : ℕ) (j k : Text) (now : ℕ) (s : Store) (x : Value)
      → peek at j (touch k now s) ≡ some x
      → (t : ℕ) × (peek t j s ≡ some x)
  pub peek-put :
      (at : ℕ) (j k : Text) (v : Value) (ttl : Option ℕ) (now : ℕ) (s : Store) (x : Value)
      → peek at j (put k v ttl now s) ≡ some x
      → ((k ≡ j) × (x ≡ v)) ⊎ ((k ≢ j) × ((t : ℕ) × (peek t j s ≡ some x)))
  pub peek-remove :
      (at : ℕ) (j k : Text) (s : Store) (x : Value)
      → peek at j (remove k s) ≡ some x
      → (k ≢ j) × ((t : ℕ) × (peek t j s ≡ some x))
  pub peek-reset : (at : ℕ) (j : Text) (s : Store) → peek at j (reset s) ≡ none

module _ (lru : LruCache) where
  open lru use {Store, peek, touch, put, remove}

  pub record Provider : Type 0 where
    pub cache : Store
    pub underlying : JsMap Item

  -- `value !== null`
  unfoldable pub remember : Text → ℕ → Option Value → Store → Store
  remember key now none s = s
  remember key now (some null) s = s
  remember key now (some v) s = put key v none now s

  unfoldable pub get_missing :
      Text → ℕ → Provider → JsMap Item × Option Value → Provider × Option Value
  unfolding remember
  get_missing key now p (under, v) =
      (record { cache = remember key now v p.cache; underlying = under }, v)

  unfoldable pub get_found : Text → ℕ → Provider → Option Value → Provider × Option Value
  unfolding get_missing Cache.get
  get_found key now p (some v) = (record p { cache = touch key now p.cache }, some v)
  get_found key now p none = get_missing key now p (Cache.get key now p.underlying)

  unfoldable pub get : Text → ℕ → Provider → Provider × Option Value
  unfolding get_found
  get key now p = get_found key now p (peek now key p.cache)

  -- `if (ttlMs)`
  abbrev pub truthy : Option ℕ → Option ℕ
  truthy none = none
  truthy (some zero) = none
  truthy (some (suc n)) = some (suc n)

  unfoldable pub set : Text → Value → Option ℕ → ℕ → Provider → Provider
  unfolding Cache.set
  set key v ttl now p = record {
    cache = put key v (truthy ttl) now p.cache;
    underlying = Cache.set key v ttl now p.underlying;
  }

  unfoldable pub delete : Text → Provider → Provider × Bool
  unfolding Cache.delete
  delete key p =
      let (under, deleted) = Cache.delete key p.underlying in
      (record { cache = remove key p.cache; underlying = under }, deleted)

  unfoldable pub search_keys : (Text → Bool) → ℕ → Provider → Provider × List Text
  unfolding Cache.search_keys
  search_keys matches now p =
      let (under, keys) = Cache.search_keys matches now p.underlying in
      (record p { underlying = under }, keys)

  unfoldable pub clear : Provider → Provider
  unfolding Cache.clear
  clear p = record { cache = lru.reset p.cache; underlying = Cache.clear p.underlying }
