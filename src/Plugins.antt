-- ===== src/Plugins.antt =====
-- src/core/plugins/PluginRegistry.ts: plugins give providers to the storage manager and subscribers
-- to the event bus.
pub mod Applied
use agent_diaries_core.Prelude.{ℕ, Bool, true, List, [], ◌∷◌, Option, none, some, Text, codes}
use agent_diaries_core.JsMap.{JsMap}
use agent_diaries_core.JsMap
use agent_diaries_core.Shared.{thrown}
use agent_diaries_core.Shared.Effect.{M, Result, ok, err, return, throw, ◌>>◌}
use agent_diaries_core.Events.{Bus, handler, subscribe}
use agent_diaries_core.Storage.{StorageManager, set_cache, set_lock, set_persistence}
use agent_diaries_core.Workers.{Workers}

-- Providers of the three kinds.
module _ (C L P : Type 0) where
  -- `PluginContext`
  pub record Context : Type 0 where
    pub storage_manager : StorageManager C L P
    pub event_bus : Bus
    pub worker_registry : Workers

  -- `AgentDiariesPlugin`, as far as the registry reads it.
  pub record Plugin : Type 0 where
    pub name : Text
    pub cache : Option C
    pub lock : Option L
    pub persistence : Option P
    pub event_subscribers : List (Text × ℕ)
    pub initialize : Option (M Context (Unit {0}))

  pub record Registry : Type 0 where
    pub plugins : JsMap Plugin
    pub initialized : Bool

abbrev pub given : {A B : Type 0} → (A → B → B) → Option A → B → B
given f none b = b
given f (some a) b = f a b

unfoldable pub subscribe_each : List (Text × ℕ) → Bus → Bus
unfolding subscribe
subscribe_each [] b = b
subscribe_each ((event, h) ∷ subs) b = subscribe_each subs (subscribe event (handler h) b)

module _ {C L P : Type 0} where
  -- A plugin without a name is refused; a second plugin of a name replaces the first.
  unfoldable pub register_named : Plugin C L P → Text → M (Registry C L P) (Unit {0})
  register_named p [] r =
      (r, err (thrown (codes "[PluginRegistry] Plugin must have a valid name.")))
  register_named p (c ∷ cs) r = (record r { plugins = JsMap.set (c ∷ cs) p r.plugins }, ok tt)

  unfoldable pub register : Plugin C L P → M (Registry C L P) (Unit {0})
  unfolding register_named
  register p = register_named p p.name

  unfoldable pub get_plugin : Text → Registry C L P → Option (Plugin C L P)
  get_plugin name r = JsMap.get name r.plugins

  unfoldable pub list_plugins : Registry C L P → List (Plugin C L P)
  list_plugins r = JsMap.values r.plugins

  unfoldable pub provide : Plugin C L P → Context C L P → Context C L P
  unfolding set_cache set_lock set_persistence
  provide p c = record c {
    storage_manager =
        given set_persistence p.persistence
          (given set_lock p.lock (given set_cache p.cache c.storage_manager));
  }

  unfoldable pub subscribe_all : Plugin C L P → Context C L P → Context C L P
  unfolding subscribe_each
  subscribe_all p c = record c { event_bus = subscribe_each p.event_subscribers c.event_bus }

  unfoldable pub call_initialize :
      Option (M (Context C L P) (Unit {0})) → M (Context C L P) (Unit {0})
  call_initialize none = return tt
  call_initialize (some hook) = hook

  unfoldable pub initialize_plugin : Plugin C L P → M (Context C L P) (Unit {0})
  unfolding provide subscribe_all call_initialize
  initialize_plugin p c = call_initialize p.initialize (subscribe_all p (provide p c))

  unfoldable pub initialize_each : List (Plugin C L P) → M (Context C L P) (Unit {0})
  unfolding initialize_plugin
  initialize_each [] = return tt
  initialize_each (p ∷ ps) = initialize_plugin p >> initialize_each ps

  abbrev pub mark : Registry C L P → Result (Unit {0}) → Registry C L P × Result (Unit {0})
  mark r (ok x) = (record r { initialized = true }, ok x)
  mark r (err e) = (r, err e)

  -- An error of a hook leaves the later plugins out and the registry not initialised.
  unfoldable pub initialize_all :
      Registry C L P → Context C L P → Context C L P × Registry C L P × Result (Unit {0})
  unfolding initialize_each list_plugins
  initialize_all r c =
      let (c', result) = initialize_each (list_plugins r) c in
      let (r', x) = mark r result in (c', r', x)
