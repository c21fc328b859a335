-- ===== src/Storage.antt =====
-- src/core/storage/StorageManager.ts and the in-memory adapter of src/memory/storage.ts.
pub mod Adapter
pub mod Bridge
pub mod Files
use agent_diaries_core.Prelude.{Option, none, some}

-- `StorageManagerOptions`, for providers of the three kinds. The adapter is given by the bridges
-- that wrap it.
pub record Options (C L P : Type 0) : Type 0 where
  pub cache : Option C
  pub lock : Option L
  pub persistence : Option P
  pub legacy_adapter : Option (C × L × P)

pub record StorageManager (C L P : Type 0) : Type 0 where
  pub cache_provider : C
  pub lock_provider : L
  pub persistence_provider : P

abbrev pub or_value : {A : Type 0} → Option A → A → A
or_value none b = b
or_value (some a) b = a

module _ {C L P : Type 0} where
  -- The constructor, with the three new in-memory providers.
  unfoldable pub create_with : Options C L P → C × L × P → StorageManager C L P
  create_with o (c, l, p) = record {
    cache_provider = or_value o.cache c;
    lock_provider = or_value o.lock l;
    persistence_provider = or_value o.persistence p;
  }

  unfoldable pub create : Options C L P → C × L × P → StorageManager C L P
  unfolding create_with
  create o in_memory = create_with o (or_value o.legacy_adapter in_memory)

  unfoldable pub set_cache : C → StorageManager C L P → StorageManager C L P
  set_cache c m = record m { cache_provider = c }

  unfoldable pub set_lock : L → StorageManager C L P → StorageManager C L P
  set_lock l m = record m { lock_provider = l }

  unfoldable pub set_persistence : P → StorageManager C L P → StorageManager C L P
  set_persistence p m = record m { persistence_provider = p }
