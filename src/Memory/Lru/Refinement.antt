-- ===== src/Memory/Lru/Refinement.antt =====
-- The cache in front of a cache is not seen by its users.
use agent_diaries_core.Prelude.{
  ℕ, ◌≡◌, refl, sym, ◌∙◌, ap, subst, inl, inr, Bool, List, [], ◌∷◌, Option, none, some, Text,
  Text-discrete, if_pos, Option-cases,
}
use agent_diaries_core.JsMap.{JsMap}
use agent_diaries_core.JsMap
use agent_diaries_core.Shared.{Value, null}
use agent_diaries_core.Memory.Cache
use agent_diaries_core.Memory.Cache.{Item, is_over, expiry, answer_item}
use agent_diaries_core.Memory.Lru
use agent_diaries_core.Memory.Lru.{LruCache, Provider, remember, get_missing, get_found}

-- A call without a time to live.
pub data Op : Type 0 where
  gets : Text → ℕ → Op
  sets : Text → Value → ℕ → Op
  deletes : Text → Op
  clears : Op

pub data Answer : Type 0 where
  value : Option Value → Answer
  deleted : Bool → Answer
  nothing : Answer

-- The calls on the underlying cache alone.
unfoldable pub perform_plain : Op → JsMap Item → JsMap Item × Answer
unfolding Cache.get Cache.set Cache.delete Cache.clear
perform_plain (gets k now) m = let (m', v) = Cache.get k now m in (m', value v)
perform_plain (sets k v now) m = (Cache.set k v none now m, nothing)
perform_plain (deletes k) m = let (m', b) = Cache.delete k m in (m', deleted b)
perform_plain clears m = (Cache.clear m, nothing)

unfoldable pub answers_plain : List Op → JsMap Item → List Answer
unfolding perform_plain
answers_plain [] m = []
answers_plain (o ∷ os) m = (perform_plain o m).1 ∷ answers_plain os (perform_plain o m).0

abbrev plain : Value → Item
plain v = record { value = v; expires_at = none }

get-plain :
    (k : Text) (now : ℕ) (m : JsMap Item) (v : Value)
    → JsMap.get k m ≡ some (plain v)
    → Cache.get k now m ≡ (m, some v)
unfolding Cache.get answer_item is_over
get-plain k now m v e = ap (answer_item k now m) e

get-none :
    (k : Text) (now : ℕ) (m : JsMap Item) → JsMap.get k m ≡ none → Cache.get k now m ≡ (m, none)
unfolding Cache.get answer_item
get-none k now m e = ap (answer_item k now m) e

module _ (lru : LruCache) where
  open lru use {Store, peek, touch, put, remove, peek-touch, peek-put, peek-remove, peek-reset}

  unfoldable pub perform : Op → Provider lru → Provider lru × Answer
  unfolding Lru.get Lru.set Lru.delete Lru.clear
  perform (gets k now) p = let (q, v) = Lru.get lru k now p in (q, value v)
  perform (sets k v now) p = (Lru.set lru k v none now p, nothing)
  perform (deletes k) p = let (q, b) = Lru.delete lru k p in (q, deleted b)
  perform clears p = (Lru.clear lru p, nothing)

  unfoldable pub answers : List Op → Provider lru → List Answer
  unfolding perform
  answers [] p = []
  answers (o ∷ os) p = (perform o p).1 ∷ answers os (perform o p).0

  -- Nothing has a time to live, and what the front cache has is what the underlying one has.
  pub record IsCoherent (p : Provider lru) : Type 0 where
    pub keyed : JsMap.IsMap p.underlying
    pub lasting : (k : Text) (i : Item) → JsMap.get k p.underlying ≡ some i → i ≡ plain i.value
    pub backed :
        (at : ℕ) (k : Text) (v : Value)
        → peek at k p.cache ≡ some v
        → JsMap.get k p.underlying ≡ some (plain v)

  -- The underlying cache does what it would do alone, with the same answer.
  abbrev Agrees : Op → Provider lru → Type 0
  Agrees o p =
      IsCoherent (perform o p).0
      × ((perform o p).0.underlying ≡ (perform_plain o p.underlying).0)
      × ((perform o p).1 ≡ (perform_plain o p.underlying).1)

  remember-IsCoherent :
      (k : Text) (now : ℕ) (v : Value) (p : Provider lru)
      → JsMap.get k p.underlying ≡ some (plain v)
      → IsCoherent p
      → IsCoherent (record p { cache = put k v none now p.cache })
  remember-IsCoherent k now v p e c = record {
    keyed = c.keyed;
    lasting = c.lasting;
    backed = λ at j x h. elim (peek-put at j k v none now p.cache x h) [
      | inl same ↦
          subst (λ i. JsMap.get i p.underlying ≡ some (plain x)) same.0
            (e ∙ ap (λ y. some (plain y)) (sym same.1))
      | inr other ↦ c.backed other.1.0 j x other.1.1
    ];
  }

  get_missing-IsCoherent :
      (k : Text) (now : ℕ) (v : Value) (p : Provider lru)
      → JsMap.get k p.underlying ≡ some (plain v)
      → IsCoherent p
      → IsCoherent (get_missing lru k now p (p.underlying, some v)).0
  unfolding get_missing remember
  get_missing-IsCoherent k now null p e c = c
  get_missing-IsCoherent k now v p e c = remember-IsCoherent k now v p e c

  get_found-Agrees :
      (k : Text) (now : ℕ) (p : Provider lru) (o : Option Value)
      → peek now k p.cache ≡ o
      → IsCoherent p
      → let (q, v) = get_found lru k now p o in
        IsCoherent q
        × (q.underlying ≡ (Cache.get k now p.underlying).0)
        × (v ≡ (Cache.get k now p.underlying).1)
  unfolding get_found
  get_found-Agrees k now p (some v) e c =
      let g = get-plain k now p.underlying v (c.backed now k v e) in
      (
        record {
          keyed = c.keyed;
          lasting = c.lasting;
          backed =
              λ at j x h. let (t, old) = peek-touch at j k now p.cache x h in c.backed t j x old;
        },
        ap (λ (q : JsMap Item × Option Value). q.0) (sym g),
        ap (λ (q : JsMap Item × Option Value). q.1) (sym g),
      )
  get_found-Agrees k now p none e c = elim (Option-cases (JsMap.get k p.underlying)) [
    | inl no_item ↦ let g = get-none k now p.underlying no_item in rw g (c, refl, refl)
    | inr (i, found) ↦
        let found' = found ∙ ap some (c.lasting k i found) in
        let g = get-plain k now p.underlying i.value found' in
        rw g (get_missing-IsCoherent k now i.value p found' c, refl, refl)
  ]

  set-IsCoherent :
      (k : Text) (v : Value) (now : ℕ) (p : Provider lru)
      → IsCoherent p
      → IsCoherent (Lru.set lru k v none now p)
  unfolding Lru.set Cache.set expiry
  set-IsCoherent k v now p c = record {
    keyed = JsMap.set-IsMap k (plain v) p.underlying c.keyed;
    lasting = λ j i h. elim (Text-discrete k j) [
      | yes e ↦
          let same = JsMap.get-set j k (plain v) p.underlying ∙ if_pos (Text-discrete k j) e _ _ in
          let is : i ≡ plain v = cc in rw is refl
      | no ne ↦ c.lasting j i (sym (JsMap.get-set_ne j k (plain v) p.underlying ne) ∙ h)
    ];
    backed = λ at j x h. elim (peek-put at j k v none now p.cache x h) [
      | inl same ↦
          JsMap.get-set j k (plain v) p.underlying
          ∙ if_pos (Text-discrete k j) same.0 _ _
          ∙ ap (λ y. some (plain y)) (sym same.1)
      | inr other ↦
          JsMap.get-set_ne j k (plain v) p.underlying other.0 ∙ c.backed other.1.0 j x other.1.1
    ];
  }

  delete-IsCoherent :
      (k : Text) (p : Provider lru) → IsCoherent p → IsCoherent (Lru.delete lru k p).0
  unfolding Lru.delete Cache.delete
  delete-IsCoherent k p c = record {
    keyed = JsMap.delete-IsMap k p.underlying c.keyed;
    lasting = λ j i h. elim (Text-discrete k j) [
      | yes e ↦
          let gone = JsMap.get-delete j k p.underlying c.keyed ∙ if_pos (Text-discrete k j) e _ _ in
          absurd cc
      | no ne ↦ c.lasting j i (sym (JsMap.get-delete_ne j k p.underlying ne) ∙ h)
    ];
    backed = λ at j x h.
        let other = peek-remove at j k p.cache x h in
        JsMap.get-delete_ne j k p.underlying other.0 ∙ c.backed other.1.0 j x other.1.1;
  }

  clear-IsCoherent : (p : Provider lru) → IsCoherent (Lru.clear lru p)
  unfolding Lru.clear Cache.clear JsMap.get
  clear-IsCoherent p = record {
    keyed = tt;
    lasting = λ j i h. absurd cc;
    backed = λ at j x h. let gone = peek-reset at j p.cache in absurd cc;
  }

  perform-Agrees : (o : Op) (p : Provider lru) → IsCoherent p → Agrees o p
  unfolding perform perform_plain Lru.get
  perform-Agrees (gets k now) p c =
      let (a, b, d) = get_found-Agrees k now p (peek now k p.cache) refl c in (a, b, ap value d)
  perform-Agrees (sets k v now) p c = (set-IsCoherent k v now p c, refl, refl)
  perform-Agrees (deletes k) p c = (delete-IsCoherent k p c, refl, refl)
  perform-Agrees clears p c = (clear-IsCoherent p, refl, refl)

  -- Whatever the front cache drops, all calls without a time to live are answered as the underlying
  -- cache alone would answer them, as long as the front cache starts with values that the
  -- underlying one has, without a time to live, too.
  pub answers-refines :
      (os : List Op) (p : Provider lru)
      → IsCoherent p
      → answers os p ≡ answers_plain os p.underlying
  unfolding answers answers_plain
  answers-refines [] p c = refl
  answers-refines (o ∷ os) p c =
      let (a, b, d) = perform-Agrees o p c in
      ap (λ rest. (perform o p).1 ∷ rest)
        (answers-refines os (perform o p).0 a ∙ ap (answers_plain os) b)
      ∙ ap (λ x. x ∷ answers_plain os (perform_plain o p.underlying).0) d
