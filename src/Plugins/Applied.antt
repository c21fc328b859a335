-- ===== src/Plugins/Applied.antt =====
-- What the plugins give is in force after all were initialised.
use agent_diaries_core.Prelude.{
  All-implies, map, ℕ, ◌≡◌, refl, sym, ◌∙◌, ap, subst, true, List, [], ◌∷◌, Option, none, some,
  Text, All,
}
use agent_diaries_core.Shared.Effect.{ok, bind-ok}
use agent_diaries_core.Events.{Bus, handler, subscribe}
use agent_diaries_core.Diary.{or_else}
use agent_diaries_core.Events.Listening.{Listens, subscribe-Listens, subscribe-kept}
use agent_diaries_core.Storage.{or_value, StorageManager, set_cache, set_lock, set_persistence}
use agent_diaries_core.Plugins.{
  Context, Plugin, Registry, provide, subscribe_each, subscribe_all, call_initialize,
  initialize_plugin, initialize_each, initialize_all, list_plugins, given,
}

subscribe_each-kept :
    (subs : List (Text × ℕ)) (event : Text) (h : ℕ) (b : Bus)
    → Listens event h b
    → Listens event h (subscribe_each subs b)
unfolding subscribe_each
subscribe_each-kept [] event h b l = l
subscribe_each-kept ((other, k) ∷ subs) event h b l =
    subscribe_each-kept subs event h (subscribe other (handler k) b)
      (subscribe-kept event other h k b l)

subscribe_each-Listens :
    (subs : List (Text × ℕ)) (b : Bus) → All (λ s. Listens s.0 s.1 (subscribe_each subs b)) subs
unfolding subscribe_each
subscribe_each-Listens [] b = tt
subscribe_each-Listens ((event, h) ∷ subs) b =
    let b' = subscribe event (handler h) b in
    (
      subscribe_each-kept subs event h b' (subscribe-Listens event h b),
      subscribe_each-Listens subs b',
    )

-- The last one that is given.
abbrev pub last_some : {A : Type 0} → List (Option A) → Option A
last_some [] = none
last_some (o ∷ os) = or_else (last_some os) o

or_value-or_else :
    {A : Type 0} (x y : Option A) (a : A) → or_value (or_else x y) a ≡ or_value x (or_value y a)
or_value-or_else none y a = refl
or_value-or_else (some b) y a = refl

module _ {C L P : Type 0} where
  -- The hook returns, keeps the providers and takes no listener off.
  abbrev pub IsModest : Plugin C L P → Type 0
  IsModest p =
      (c : Context C L P)
      → let (d, r) = call_initialize p.initialize c in
        (r ≡ ok tt)
        × (d.storage_manager ≡ c.storage_manager)
        × ((event : Text) (h : ℕ) → Listens event h c.event_bus → Listens event h d.event_bus)

  abbrev pub Subscribed : Bus → Plugin C L P → Type 0
  Subscribed b p = All (λ s. Listens s.0 s.1 b) p.event_subscribers

  -- The providers and the listeners after plugins were initialised one after the other.
  pub record Applied (ps : List (Plugin C L P)) (c d : Context C L P) : Type 0 where
    pub cache_given :
        d.storage_manager.cache_provider
        ≡ or_value (last_some (map (λ p. p.cache) ps)) c.storage_manager.cache_provider
    pub lock_given :
        d.storage_manager.lock_provider
        ≡ or_value (last_some (map (λ p. p.lock) ps)) c.storage_manager.lock_provider
    pub persistence_given :
        d.storage_manager.persistence_provider
        ≡ or_value (last_some (map (λ p. p.persistence) ps)) c.storage_manager.persistence_provider
    pub subscribed : All (Subscribed d.event_bus) ps
    pub still_subscribed :
        (event : Text) (h : ℕ) → Listens event h c.event_bus → Listens event h d.event_bus

  -- The providers of a manager, with those that are given in place of its own.
  abbrev Provided :
      Option C → Option L → Option P → StorageManager C L P → StorageManager C L P → Type 0
  Provided x y z m n =
      (n.cache_provider ≡ or_value x m.cache_provider)
      × (n.lock_provider ≡ or_value y m.lock_provider)
      × (n.persistence_provider ≡ or_value z m.persistence_provider)

  given-Provided :
      (x : Option C) (y : Option L) (z : Option P) (m : StorageManager C L P)
      → Provided x y z m (given set_persistence z (given set_lock y (given set_cache x m)))
  unfolding set_cache set_lock set_persistence
  given-Provided none none none m = (refl, refl, refl)
  given-Provided none none (some z) m = (refl, refl, refl)
  given-Provided none (some y) none m = (refl, refl, refl)
  given-Provided none (some y) (some z) m = (refl, refl, refl)
  given-Provided (some x) none none m = (refl, refl, refl)
  given-Provided (some x) none (some z) m = (refl, refl, refl)
  given-Provided (some x) (some y) none m = (refl, refl, refl)
  given-Provided (some x) (some y) (some z) m = (refl, refl, refl)

  -- One plugin, and then the others.
  Applied-cons :
      (p : Plugin C L P) (ps : List (Plugin C L P)) (c e d : Context C L P)
      → Provided p.cache p.lock p.persistence c.storage_manager e.storage_manager
      → ((event : Text) (h : ℕ)
          → Listens event h (subscribe_each p.event_subscribers c.event_bus)
          → Listens event h e.event_bus)
      → Applied ps e d
      → Applied (p ∷ ps) c d
  Applied-cons p ps c e d (a, b, z) l r = record {
    cache_given =
        r.cache_given
        ∙ ap (or_value (last_some (map (λ q. q.cache) ps))) a
        ∙ sym (or_value-or_else (last_some (map (λ q. q.cache) ps)) p.cache _);
    lock_given =
        r.lock_given
        ∙ ap (or_value (last_some (map (λ q. q.lock) ps))) b
        ∙ sym (or_value-or_else (last_some (map (λ q. q.lock) ps)) p.lock _);
    persistence_given =
        r.persistence_given
        ∙ ap (or_value (last_some (map (λ q. q.persistence) ps))) z
        ∙ sym (or_value-or_else (last_some (map (λ q. q.persistence) ps)) p.persistence _);
    subscribed = (
      All-implies p.event_subscribers (λ s k. r.still_subscribed s.0 s.1 (l s.0 s.1 k))
          (subscribe_each-Listens p.event_subscribers c.event_bus),
      r.subscribed,
    );
    still_subscribed = λ event h k.
        r.still_subscribed event h
          (l event h (subscribe_each-kept p.event_subscribers event h c.event_bus k));
  }

  initialize_each-Applied :
      (ps : List (Plugin C L P)) (c : Context C L P)
      → All IsModest ps
      → let (d, r) = initialize_each ps c in (r ≡ ok tt) × Applied ps c d
  unfolding initialize_each initialize_plugin subscribe_all provide
  initialize_each-Applied [] c a = (
    refl,
    record {
      cache_given = refl;
      lock_given = refl;
      persistence_given = refl;
      subscribed = tt;
      still_subscribed = λ event h l. l;
    },
  )
  initialize_each-Applied (p ∷ ps) c (m, ms) =
      let (fine, manager, listening) = m (subscribe_all p (provide p c)) in
      let e = (initialize_plugin p c).0 in
      let (ends, rest) = initialize_each-Applied ps e ms in
      let made = given-Provided p.cache p.lock p.persistence c.storage_manager in
      let joined : initialize_each (p ∷ ps) c ≡ initialize_each ps e =
        bind-ok (initialize_plugin p) (λ _. initialize_each ps) (ap (λ x. (e, x)) fine) in
      rw joined (
        ends,
        Applied-cons p ps c e (initialize_each ps e).0
            (subst (Provided p.cache p.lock p.persistence c.storage_manager) (sym manager) made)
            listening rest,
      )

  -- If the hooks of the plugins return, keep the providers and take no listener off, all plugins are
  -- initialised: each provider is that of the last plugin that gives one, and the subscribers of all
  -- plugins listen, as do the earlier listeners.
  pub initialize_all-Applied :
      (r : Registry C L P) (c : Context C L P)
      → All IsModest (list_plugins r)
      → let (d, r', x) = initialize_all r c in
        (x ≡ ok tt)
        × (r'.initialized ≡ true)
        × (r'.plugins ≡ r.plugins)
        × Applied (list_plugins r) c d
  unfolding initialize_all
  initialize_all-Applied r c a =
      let (ends, applied) = initialize_each-Applied (list_plugins r) c a in
      rw ends (refl, refl, refl, applied)
