-- ===== src/JsMap.antt =====
-- `Map<string, V>` of JavaScript: entries in the order of their first insertion.
use agent_diaries_core.Prelude.{
  ◌≡◌, refl, ◌≢◌, ◌∙◌, ite, if_pos, if_neg, Bool, true, false, List, [], ◌∷◌, map, Option, none,
  some, arith, Text, Text-discrete, All,
}

abbrev pub JsMap {ℓ} : Type ℓ → Type ℓ
JsMap V = List (Text × V)

module _ {ℓ} {V : Type ℓ} where
  unfoldable pub get : Text → JsMap V → Option V
  get k [] = none
  get k ((j, v) ∷ m) = ite (Text-discrete j k) (some v) (get k m)

  -- An entry that is there keeps its place.
  unfoldable pub set : Text → V → JsMap V → JsMap V
  set k v [] = (k, v) ∷ []
  set k v ((j, w) ∷ m) = ite (Text-discrete j k) ((j, v) ∷ m) ((j, w) ∷ set k v m)

  unfoldable pub delete : Text → JsMap V → JsMap V
  delete k [] = []
  delete k ((j, w) ∷ m) = ite (Text-discrete j k) m ((j, w) ∷ delete k m)

  unfoldable pub has : Text → JsMap V → Bool
  has k [] = false
  has k ((j, w) ∷ m) = ite (Text-discrete j k) true (has k m)

  abbrev pub values : JsMap V → List V
  values m = map (λ e. e.1) m

  abbrev pub keys : JsMap V → List Text
  keys m = map (λ e. e.0) m

  pub get-set :
      (j k : Text) (v : V) (m : JsMap V)
      → get j (set k v m) ≡ ite (Text-discrete k j) (some v) (get j m)
  unfolding get set
  get-set j k v [] = refl
  get-set j k v ((i, w) ∷ m) = ground (arith, get-set j k v m)

  pub get-set_self : (k : Text) (v : V) (m : JsMap V) → get k (set k v m) ≡ some v
  get-set_self k v m = get-set k k v m ∙ if_pos (Text-discrete k k) refl _ _

  pub get-set_ne : (j k : Text) (v : V) (m : JsMap V) → k ≢ j → get j (set k v m) ≡ get j m
  get-set_ne j k v m ne = get-set j k v m ∙ if_neg (Text-discrete k j) ne _ _

  -- No key twice, as in every map that `set` and `delete` build.
  abbrev pub IsMap : JsMap V → Type 0
  IsMap [] = Unit {0}
  IsMap ((k, v) ∷ m) = All (λ j. j ≢ k) (keys m) × IsMap m

  absent_from_set :
      (j k : Text) (v : V) (m : JsMap V)
      → k ≢ j
      → All (λ i. i ≢ j) (keys m)
      → All (λ i. i ≢ j) (keys (set k v m))
  unfolding set
  absent_from_set j k v [] ne a = (ne, tt)
  absent_from_set j k v ((i, w) ∷ m) ne a = ground (arith, absent_from_set j k v m)

  pub set-IsMap : (k : Text) (v : V) (m : JsMap V) → IsMap m → IsMap (set k v m)
  unfolding set
  set-IsMap k v [] i = (tt, tt)
  set-IsMap k v ((j, w) ∷ m) i = ground (arith, absent_from_set j k v m, set-IsMap k v m)

  get-absent : (k : Text) (m : JsMap V) → All (λ i. i ≢ k) (keys m) → get k m ≡ none
  unfolding get
  get-absent k [] a = refl
  get-absent k ((j, w) ∷ m) a = if_neg (Text-discrete j k) a.0 _ _ ∙ get-absent k m a.1

  pub get-delete :
      (j k : Text) (m : JsMap V)
      → IsMap m
      → get j (delete k m) ≡ ite (Text-discrete k j) none (get j m)
  unfolding get delete
  get-delete j k [] i = ground arith
  get-delete j k ((l, w) ∷ m) i = ground (arith, get-delete j k m i.1, get-absent k m)

  pub get-delete_ne : (j k : Text) (m : JsMap V) → k ≢ j → get j (delete k m) ≡ get j m
  unfolding get delete
  get-delete_ne j k [] ne = refl
  get-delete_ne j k ((l, w) ∷ m) ne = ground (arith, get-delete_ne j k m)

  absent_from_delete :
      (j k : Text) (m : JsMap V) → All (λ i. i ≢ j) (keys m) → All (λ i. i ≢ j) (keys (delete k m))
  unfolding delete
  absent_from_delete j k [] a = tt
  absent_from_delete j k ((i, w) ∷ m) a = ground (arith, absent_from_delete j k m)

  pub delete-IsMap : (k : Text) (m : JsMap V) → IsMap m → IsMap (delete k m)
  unfolding delete
  delete-IsMap k [] i = tt
  delete-IsMap k ((j, w) ∷ m) i = ground (arith, absent_from_delete j k m, delete-IsMap k m)
