-- ===== src/Memory/Cache.antt =====
-- src/memory/MemoryProviders.ts, the class `MemoryCacheProvider`. The pattern of `searchKeys` is
-- given by its test on keys. Each reading of the clock is an argument.
use agent_diaries_core.Prelude.{
  ℕ, zero, suc, ◌+◌, ◌≡◌, refl, ◌≢◌, ◌∙◌, ap, sym, Bool, true, false, List, [], ◌∷◌, Option, none,
  some, arith, Text, ltb, if◌then◌else◌,
}
use agent_diaries_core.JsMap.{JsMap}
use agent_diaries_core.JsMap
use agent_diaries_core.Shared.{Value}

pub record Item : Type 0 where
  pub value : Value
  pub expires_at : Option ℕ

-- `item.expiresAt && now > item.expiresAt`
unfoldable pub is_over : ℕ → Option ℕ → Bool
is_over now none = false
is_over now (some zero) = false
is_over now (some (suc t)) = ltb (suc t) now

unfoldable pub answer_item : Text → ℕ → JsMap Item → Option Item → JsMap Item × Option Value
unfolding is_over
answer_item key now m none = (m, none)
answer_item key now m (some item) =
    if is_over now item.expires_at then (JsMap.delete key m, none) else (m, some item.value)

unfoldable pub get : Text → ℕ → JsMap Item → JsMap Item × Option Value
unfolding answer_item
get key now m = answer_item key now m (JsMap.get key m)

-- `ttlMs ? Date.now() + ttlMs : undefined`
unfoldable pub expiry : Option ℕ → ℕ → Option ℕ
expiry none now = none
expiry (some zero) now = none
expiry (some (suc ttl)) now = some (now + suc ttl)

unfoldable pub set : Text → Value → Option ℕ → ℕ → JsMap Item → JsMap Item
unfolding expiry
set key value ttl now m = JsMap.set key (record { value = value; expires_at = expiry ttl now }) m

unfoldable pub delete : Text → JsMap Item → JsMap Item × Bool
delete key m = (JsMap.delete key m, JsMap.has key m)

unfoldable pub search_keys : (Text → Bool) → ℕ → JsMap Item → JsMap Item × List Text
unfolding is_over
search_keys matches now [] = ([], [])
search_keys matches now ((key, item) ∷ m) =
    let (rest, found) = search_keys matches now m in
    if is_over now item.expires_at
    then (rest, found)
    else ((key, item) ∷ rest, if matches key then key ∷ found else found)

unfoldable pub clear : JsMap Item → JsMap Item
clear m = []

-- Is the value still there at `at`, when it was stored at `now` with this time to live?
abbrev pub lives : Option ℕ → ℕ → ℕ → Bool
lives none now at = true
lives (some zero) now at = true
lives (some (suc ttl)) now at = if ltb (now + suc ttl) at then false else true

abbrev pub value_if : Bool → Value → Option Value
value_if true v = some v
value_if false v = none

answer_of : ℕ → Option Item → Option Value
answer_of now none = none
answer_of now (some item) = if is_over now item.expires_at then none else some item.value

answer_item-of :
    (key : Text) (now : ℕ) (m : JsMap Item) (o : Option Item)
    → (answer_item key now m o).1 ≡ answer_of now o
unfolding answer_item answer_of
answer_item-of key now m none = refl
answer_item-of key now m (some item) = ground arith

answer_of-new :
    (at now : ℕ) (v : Value) (ttl : Option ℕ)
    → answer_of at (some (record { value = v; expires_at = expiry ttl now }))
      ≡ value_if (lives ttl now at) v
unfolding answer_of expiry is_over
answer_of-new at now v none = refl
answer_of-new at now v (some zero) = refl
answer_of-new at now v (some (suc t)) = ground arith

-- A stored value is read back until its time to live has passed, and not later; without a time to
-- live, or with one of 0, it stays. Other keys are read as before.
pub get-set_until :
    (j k : Text) (v : Value) (ttl : Option ℕ) (now at : ℕ) (m : JsMap Item)
    → ((get k at (set k v ttl now m)).1 ≡ value_if (lives ttl now at) v)
      × (k ≢ j → (get j at (set k v ttl now m)).1 ≡ (get j at m).1)
unfolding get set
get-set_until j k v ttl now at m = (
  answer_item-of k at _ _
      ∙ ap (answer_of at) (JsMap.get-set_self k _ m)
      ∙ answer_of-new at now v ttl,
  λ ne.
      answer_item-of j at _ _
      ∙ ap (answer_of at) (JsMap.get-set_ne j k _ m ne)
      ∙ sym (answer_item-of j at _ _),
)
