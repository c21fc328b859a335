-- ===== src/Agents/Statistics.antt =====
-- src/agents/AgentRegistry.ts: `statistics`, and its agreement with the look-ups.
use agent_diaries_core.Prelude.{
  ℕ, ◌+◌, ◌≡◌, refl, ◌∙◌, ap, if_pos, if_neg, Bool, true, false, ◌||◌, List, [], ◌∷◌, Option, none,
  some, arith, Text, Text-discrete, length, filter, any, if◌then◌else◌,
}
use agent_diaries_core.JsMap.{JsMap}
use agent_diaries_core.JsMap
use agent_diaries_core.Sorting.{sort, text_le, any-sort, IsSorted, sort-IsSorted, text_le-IsTotal}
use agent_diaries_core.Tools.Registry.{same_text, includes}
use agent_diaries_core.Agents.{
  Category, Capability, Agent, Agents, has_capability, find_by_capability, find_by_category,
}

pub record Statistics : Type 0 where
  pub total : ℕ
  pub by_category : JsMap ℕ
  pub capabilities : List Text

abbrev pub or_zero : Option ℕ → ℕ
or_zero none = 0
or_zero (some n) = n

unfoldable pub count_categories : List Agent → JsMap ℕ → JsMap ℕ
count_categories [] m = m
count_categories (a ∷ as_given) m =
    let c = a.metadata.category in
    count_categories as_given (JsMap.set c (or_zero (JsMap.get c m) + 1) m)

-- `Set.add`
unfoldable pub add_name : Text → List Text → List Text
add_name t [] = t ∷ []
add_name t (u ∷ us) = if same_text u t then u ∷ us else u ∷ add_name t us

unfoldable pub add_names : List Capability → List Text → List Text
unfolding add_name
add_names [] names = names
add_names (c ∷ cs) names = add_names cs (add_name c.name names)

unfoldable pub collect_names : List Agent → List Text → List Text
unfolding add_names
collect_names [] names = names
collect_names (a ∷ as_given) names =
    collect_names as_given (add_names a.metadata.capabilities names)

unfoldable pub statistics : Agents → Statistics
unfolding count_categories collect_names
statistics m = record {
  total = length m;
  by_category = count_categories (JsMap.values m) [];
  capabilities = sort text_le (collect_names (JsMap.values m) []);
}

get-count_categories :
    (c : Category) (as_given : List Agent) (m : JsMap ℕ)
    → or_zero (JsMap.get c (count_categories as_given m))
      ≡ or_zero (JsMap.get c m) + length (filter (λ a. same_text a.metadata.category c) as_given)
unfolding count_categories
get-count_categories c [] m = omega arith
get-count_categories c (a ∷ as_given) m =
    let d = a.metadata.category in
    let n = or_zero (JsMap.get d m) + 1 in
    get-count_categories c as_given (JsMap.set d n m) ∙ elim (Text-discrete d c) [
      | yes e ↦
          let new = ap or_zero (JsMap.get-set c d n m ∙ if_pos (Text-discrete d c) e _ _) in
          let same = ap (λ k. or_zero (JsMap.get k m)) e in
          rw (if_pos (Text-discrete d c) e) (omega arith)
      | no ne ↦
          let old = ap or_zero (JsMap.get-set_ne c d n m ne) in
          rw (if_neg (Text-discrete d c) ne) (omega arith)
    ]

any-add_name :
    (p : Text → Bool) (t : Text) (us : List Text) → any p (add_name t us) ≡ p t || any p us
unfolding add_name
any-add_name p t [] = refl
any-add_name p t (u ∷ us) = elim (Text-discrete u t) [
  | yes e ↦ let same = ap p e in rw (if_pos (Text-discrete u t) e) (ground (arith))
  | no ne ↦ rw (if_neg (Text-discrete u t) ne) (ground (arith, any-add_name p t us))
]

any-add_names :
    (p : Text → Bool) (cs : List Capability) (us : List Text)
    → any p (add_names cs us) ≡ any (λ c. p c.name) cs || any p us
unfolding add_names
any-add_names p [] us = refl
any-add_names p (c ∷ cs) us =
    ground (arith, any-add_names p cs (add_name c.name us), any-add_name p c.name us)

any-collect_names :
    (p : Text → Bool) (as_given : List Agent) (us : List Text)
    → any p (collect_names as_given us)
      ≡ any (λ a. any (λ c. p c.name) a.metadata.capabilities) as_given || any p us
unfolding collect_names
any-collect_names p [] us = refl
any-collect_names p (a ∷ as_given) us = ground (
  arith,
  any-collect_names p as_given (add_names a.metadata.capabilities us),
  any-add_names p a.metadata.capabilities us,
)

-- Is there an item?
abbrev pub nonempty : List Agent → Bool
nonempty [] = false
nonempty (a ∷ as_given) = true

any-nonempty :
    (p : Agent → Bool) (as_given : List Agent) → any p as_given ≡ nonempty (filter p as_given)
any-nonempty p [] = refl
any-nonempty p (a ∷ as_given) = ground (arith, any-nonempty p as_given)

or_false : (b : Bool) → b || false ≡ b
or_false true = refl
or_false false = refl

-- The statistics agree with the look-ups: a category is counted as often as `findByCategory` finds
-- agents of it, the capabilities are those for which `findByCapability` finds an agent, and they
-- are in the order of strings.
pub statistics-agrees :
    (m : Agents) (category : Category) (name : Text)
    → (or_zero (JsMap.get category (statistics m).by_category)
        ≡ length (find_by_category category m))
      × (includes (statistics m).capabilities name ≡ nonempty (find_by_capability name m))
      × IsSorted text_le (statistics m).capabilities
unfolding statistics find_by_category find_by_capability has_capability JsMap.get
statistics-agrees m category name = (
  get-count_categories category (JsMap.values m) [] ∙ omega arith,
  any-sort text_le (λ u. same_text u name) (collect_names (JsMap.values m) [])
      ∙ any-collect_names (λ u. same_text u name) (JsMap.values m) []
      ∙ or_false _
      ∙ any-nonempty (has_capability name) (JsMap.values m),
  sort-IsSorted text_le text_le-IsTotal (collect_names (JsMap.values m) []),
)
