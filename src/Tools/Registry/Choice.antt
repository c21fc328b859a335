-- ===== src/Tools/Registry/Choice.antt =====
-- Which tools the registry finds, recommends and lets an agent see.
use agent_diaries_core.Prelude.{
  ◌≤◌, ◌≡◌, refl, sym, ◌∙◌, ap, subst, Bool, true, List, [], ◌∷◌, Option, none, some, arith, Text,
  filter, leb, Bool-cases, inl, inr, All, Memᴰ,
}
use mathlib.Core.List.Memᴰ
use agent_diaries_core.JsMap
use agent_diaries_core.Tools.Registry.{
  Tool, Registry, includes, find, is_usable, latency, insert_by_latency, sort_by_latency, first,
  recommend,
}

-- The least of the tools by latency, the first of two equal ones.
pub data Quickest (ts : List Tool) : Option Tool → Type 0 where
  no_tool : ts ≡ [] → Quickest ts none
  quickest : (t : Tool) → Memᴰ t ts → All (λ u. latency t ≤ latency u) ts → Quickest ts (some t)

All-le :
    (t u : Tool) (ts : List Tool)
    → latency t ≤ latency u
    → All (λ x. latency u ≤ latency x) ts
    → All (λ x. latency t ≤ latency x) ts
All-le t u [] l h = tt
All-le t u (x ∷ ts) l (p, h) = (omega arith, All-le t u ts l h)

first-insert_by_latency :
    (t : Tool) (ts us : List Tool)
    → Quickest ts (first us)
    → Quickest (t ∷ ts) (first (insert_by_latency t us))
unfolding first insert_by_latency
first-insert_by_latency t ts [] (no_tool e) = quickest t (Memᴰ.head refl) (omega arith, rw e tt)
first-insert_by_latency t ts (u ∷ us) (quickest _ m h) =
    elim (Bool-cases (leb (latency t) (latency u))) [
      | inl l ↦ rw l (quickest t (Memᴰ.head refl) (omega arith, All-le t u ts (ground arith) h))
      | inr l ↦ rw l (quickest u (Memᴰ.tail m) (ground arith, h))
    ]

first-sort_by_latency : (ts : List Tool) → Quickest ts (first (sort_by_latency ts))
unfolding sort_by_latency first
first-sort_by_latency [] = no_tool refl
first-sort_by_latency (t ∷ ts) =
    first-insert_by_latency t ts (sort_by_latency ts) (first-sort_by_latency ts)

in_cons :
    (p : Tool → Bool) (t u : Tool) (ts : List Tool)
    → p u ≡ true
    → (Memᴰ t (filter p ts) → Memᴰ t ts × (p t ≡ true))
    → Memᴰ t (u ∷ filter p ts)
    → Memᴰ t (u ∷ ts) × (p t ≡ true)
in_cons p t u ts e h (Memᴰ.head q) = (Memᴰ.head q, ap p q ∙ e)
in_cons p t u ts e h (Memᴰ.tail m) = let (n, k) = h m in (Memᴰ.tail n, k)

-- Filters keep what passes, and nothing else.
pub filter-Memᴰ :
    (p : Tool → Bool) (t : Tool) (ts : List Tool) → Memᴰ t (filter p ts) → Memᴰ t ts × (p t ≡ true)
filter-Memᴰ p t [] m = absurd (Memᴰ.not-nil m)
filter-Memᴰ p t (u ∷ ts) m = elim (Bool-cases (p u)) [
  | inl e ↦ in_cons p t u ts e (filter-Memᴰ p t ts) (rw e at m)
  | inr e ↦ let (n, k) = filter-Memᴰ p t ts (rw e at m) in (Memᴰ.tail n, k)
]

pub Memᴰ-filter :
    (p : Tool → Bool) (t : Tool) (ts : List Tool) → Memᴰ t ts → p t ≡ true → Memᴰ t (filter p ts)
Memᴰ-filter p t [] m e = absurd (Memᴰ.not-nil m)
Memᴰ-filter p t (u ∷ ts) (Memᴰ.head q) e = rw (ap p (sym q) ∙ e) (Memᴰ.head q)
Memᴰ-filter p t (u ∷ ts) (Memᴰ.tail m) e = elim (Bool-cases (p u)) [
  | inl k ↦ rw k (Memᴰ.tail (Memᴰ-filter p t ts m e))
  | inr k ↦ rw k (Memᴰ-filter p t ts m e)
]

All-Memᴰ : (P : Tool → Type 0) (t : Tool) (ts : List Tool) → All P ts → Memᴰ t ts → P t
All-Memᴰ P t (u ∷ ts) (p, h) (Memᴰ.head e) = subst P (sym e) p
All-Memᴰ P t (u ∷ ts) (p, h) (Memᴰ.tail m) = All-Memᴰ P t ts h m
All-Memᴰ P t [] h m = absurd (Memᴰ.not-nil m)

-- A registered tool with the capability that is healthy, unknown, or was not checked.
abbrev pub IsCandidate : Text → Registry → Tool → Type 0
IsCandidate capability r t =
    Memᴰ t (JsMap.values r)
    × (includes t.capabilities capability ≡ true)
    × (is_usable t.health_state ≡ true)

-- What a recommendation says: without one no tool is a candidate, and a recommended tool is a
-- candidate than which none is quicker.
pub data Recommends (capability : Text) (r : Registry) : Option Tool → Type 0 where
  nobody : ((t : Tool) → ¬ IsCandidate capability r t) → Recommends capability r none
  best :
      (t : Tool)
      → IsCandidate capability r t
      → ((u : Tool) → IsCandidate capability r u → latency t ≤ latency u)
      → Recommends capability r (some t)

candidates : Text → Registry → List Tool
unfolding find
candidates capability r = filter (λ t. is_usable t.health_state) (find capability r)

candidates-IsCandidate :
    (capability : Text) (r : Registry) (t : Tool)
    → Memᴰ t (candidates capability r)
    → IsCandidate capability r t
unfolding candidates find
candidates-IsCandidate capability r t m =
    let (n, usable) = filter-Memᴰ (λ t. is_usable t.health_state) t (find capability r) m in
    let (k, able) = filter-Memᴰ (λ t. includes t.capabilities capability) t (JsMap.values r) n in
    (k, able, usable)

IsCandidate-candidates :
    (capability : Text) (r : Registry) (t : Tool)
    → IsCandidate capability r t
    → Memᴰ t (candidates capability r)
unfolding candidates find
IsCandidate-candidates capability r t (k, able, usable) =
    Memᴰ-filter (λ t. is_usable t.health_state) t (find capability r)
      (Memᴰ-filter (λ t. includes t.capabilities capability) t (JsMap.values r) k able) usable

Quickest-Recommends :
    (capability : Text) (r : Registry) (o : Option Tool)
    → Quickest (candidates capability r) o
    → Recommends capability r o
Quickest-Recommends capability r none (no_tool e) =
    nobody λ t c. Memᴰ.not-nil (subst (Memᴰ t) e (IsCandidate-candidates capability r t c))
Quickest-Recommends capability r (some t) (quickest _ m h) =
    best t (candidates-IsCandidate capability r t m) λ u c.
      All-Memᴰ (λ x. latency t ≤ latency x) u (candidates capability r) h
        (IsCandidate-candidates capability r u c)

-- The registry recommends a registered tool with the capability whose health is good or unknown and
-- whose latency is the least of all such tools, and nothing only if there is no such tool.
pub recommend-best :
    (capability : Text) (r : Registry) → Recommends capability r (recommend capability r)
unfolding recommend candidates
recommend-best capability r =
    Quickest-Recommends capability r _ (first-sort_by_latency (candidates capability r))
