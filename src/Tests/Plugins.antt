-- ===== src/Tests/Plugins.antt =====
-- Two plugins on a storage manager and a bus.
use agent_diaries_core.Prelude.{ℕ, ◌≡◌, refl, All, true, false, [], ◌∷◌, none, some, Text, codes}
use agent_diaries_core.Shared.{thrown}
use agent_diaries_core.Shared.Effect.{ok, err}
use agent_diaries_core.Plugins.{
  Context, Plugin, Registry, list_plugins, initialize_all, initialize_each, initialize_plugin,
  call_initialize,
}
use agent_diaries_core.Plugins.Applied.{Applied, IsModest, initialize_all-Applied}

abbrev context : Context ℕ ℕ Text
context = record {
  storage_manager = record {
    cache_provider = 0;
    lock_provider = 0;
    persistence_provider = codes "memory";
  };
  event_bus = record { handlers = []; made = 0; called = [] };
  worker_registry = [];
}

abbrev redis : Plugin ℕ ℕ Text
redis = record {
  name = codes "redis";
  cache = some 1;
  lock = some 2;
  persistence = none;
  event_subscribers = (codes "WorkflowCreated", 7) ∷ (codes "WorkflowFailed", 8) ∷ [];
  initialize = none;
}

abbrev postgres : Plugin ℕ ℕ Text
postgres = record redis {
  name = codes "postgres";
  cache = none;
  lock = some 3;
  persistence = some (codes "postgres");
  event_subscribers = [];
  initialize = some (λ c. (record c { worker_registry = [] }, ok tt));
}

abbrev two_plugins : Registry ℕ ℕ Text
two_plugins = record {
  plugins = (codes "redis", redis) ∷ (codes "postgres", postgres) ∷ [];
  initialized = false;
}

both-IsModest : All IsModest (list_plugins two_plugins)
unfolding list_plugins call_initialize
both-IsModest = (λ c. (refl, refl, λ event h l. l), (λ c. (refl, refl, λ event h l. l), tt))

initialize_all-Applied_example :
    let (d, r, x) = initialize_all two_plugins context in
    (x ≡ ok tt)
    × (r.initialized ≡ true)
    × (r.plugins ≡ two_plugins.plugins)
    × Applied (list_plugins two_plugins) context d
initialize_all-Applied_example = initialize_all-Applied two_plugins context both-IsModest

-- A hook that throws leaves the registry as it was.
abbrev broken : Registry ℕ ℕ Text
broken = record two_plugins {
  plugins =
      (codes "bad", record redis { initialize = some (λ c. (c, err (thrown (codes "no")))) }) ∷ [];
}

initialize_all-broken :
    let (d, r, x) = initialize_all broken context in
    (r.initialized ≡ false) × (x ≡ err (thrown (codes "no")))
unfolding initialize_all initialize_each initialize_plugin call_initialize list_plugins
initialize_all-broken = (refl, refl)
