-- ===== src/Shared/Signature/Laws.antt =====
-- Signatures are normal forms: normalising one again changes nothing.
use mathlib.Core.List.{cons≢nil}
use agent_diaries_core.Prelude.{
  ℕ, ◌≡◌, refl, ap, ◌∙◌, inl, inr, [], ◌∷◌, map, Bool, true, false, arith, Text, if◌then◌else◌,
  Bool-cases,
}
use agent_diaries_core.Shared.Signature.{
  lower, is_space, trim_start, trim_cons, trim_end, squeeze, normalize_signature,
}

lower-lower : (c : ℕ) → lower (lower c) ≡ lower c
unfolding lower
lower-lower c = ground arith

is_space-lower : (c : ℕ) → is_space (lower c) ≡ is_space c
unfolding lower is_space
is_space-lower c = ground arith

-- No white space in front.
abbrev IsFlush : Text → Type 0
IsFlush [] = Unit {0}
IsFlush (c ∷ cs) = is_space c ≡ false

trim_start-IsFlush : (t : Text) → IsFlush (trim_start t)
unfolding trim_start
trim_start-IsFlush [] = tt
trim_start-IsFlush (c ∷ cs) = ground (arith, trim_start-IsFlush cs)

trim_cons-IsFlush : (c : ℕ) (t : Text) → is_space c ≡ false → IsFlush (trim_cons c t)
unfolding trim_cons
trim_cons-IsFlush c [] h = rw h h
trim_cons-IsFlush c (d ∷ t) h = h

trim_end-IsFlush : (t : Text) → IsFlush t → IsFlush (trim_end t)
unfolding trim_end
trim_end-IsFlush [] h = tt
trim_end-IsFlush (c ∷ cs) h = trim_cons-IsFlush c (trim_end cs) h

squeeze-IsFlush : (t : Text) → IsFlush t → IsFlush (squeeze false t)
unfolding squeeze
squeeze-IsFlush [] h = tt
squeeze-IsFlush (c ∷ cs) h = rw h h

trim_start-of-IsFlush : (t : Text) → IsFlush t → trim_start t ≡ t
unfolding trim_start
trim_start-of-IsFlush [] h = refl
trim_start-of-IsFlush (c ∷ cs) h = rw h

map-lower-trim_start : (t : Text) → map lower (trim_start t) ≡ trim_start (map lower t)
unfolding trim_start
map-lower-trim_start [] = refl
map-lower-trim_start (c ∷ cs) = ground (arith, is_space-lower c, map-lower-trim_start cs)

map-lower-trim_cons :
    (c : ℕ) (t : Text) → map lower (trim_cons c t) ≡ trim_cons (lower c) (map lower t)
unfolding trim_cons
map-lower-trim_cons c [] = ground (arith, is_space-lower c)
map-lower-trim_cons c (d ∷ t) = refl

map-lower-trim_end : (t : Text) → map lower (trim_end t) ≡ trim_end (map lower t)
unfolding trim_end
map-lower-trim_end [] = refl
map-lower-trim_end (c ∷ cs) =
    map-lower-trim_cons c (trim_end cs) ∙ ap (trim_cons (lower c)) (map-lower-trim_end cs)

lower_blank : lower 32 ≡ 32
unfolding lower
lower_blank = refl

is_space_blank : is_space 32 ≡ true
unfolding is_space
is_space_blank = refl

map-lower-squeeze : (b : Bool) (t : Text) → map lower (squeeze b t) ≡ squeeze b (map lower t)
unfolding squeeze
map-lower-squeeze b [] = refl
map-lower-squeeze b (c ∷ cs) =
    rw (is_space-lower c, ← map-lower-squeeze (is_space c) cs) (ground (arith, lower_blank))

map-lower-map-lower : (t : Text) → map lower (map lower t) ≡ map lower t
map-lower-map-lower [] = refl
map-lower-map-lower (c ∷ cs) = rw (lower-lower c, map-lower-map-lower cs)

squeeze-squeeze :
    (t : Text)
    → (squeeze false (squeeze true t) ≡ squeeze true t)
      × (squeeze true (squeeze true t) ≡ squeeze true t)
      × (squeeze false (squeeze false t) ≡ squeeze false t)
unfolding squeeze
squeeze-squeeze [] = (refl, refl, refl)
squeeze-squeeze (c ∷ cs) = elim (Bool-cases (is_space c)) [
  | inl blank ↦
      let (a, b, d) = squeeze-squeeze cs in rw blank (a, b, rw is_space_blank (ap (◌∷◌ 32) b))
  | inr solid ↦
      let (a, b, d) = squeeze-squeeze cs in let e = ap (◌∷◌ c) d in rw (solid, solid) (e, e, e)
]

-- What is kept in front of white space at the end is not empty.
squeeze-trim_end-eq-nil : (b : Bool) (t : Text) → squeeze b (trim_end t) ≡ [] → trim_end t ≡ []
unfolding squeeze trim_end trim_cons
squeeze-trim_end-eq-nil b [] h = refl
squeeze-trim_end-eq-nil b (c ∷ cs) h = last (trim_end cs) (squeeze-trim_end-eq-nil true cs) h
  where
    last :
        (r : Text)
        → (squeeze true r ≡ [] → r ≡ [])
        → squeeze b (trim_cons c r) ≡ []
        → trim_cons c r ≡ []
    last [] ih h = ground arith
    last (d ∷ ds) ih h = ground arith

trim_end-trim_cons : (c : ℕ) (t : Text) → trim_end t ≡ t → trim_end (trim_cons c t) ≡ trim_cons c t
unfolding trim_end trim_cons
trim_end-trim_cons c [] h = ground arith
trim_end-trim_cons c (d ∷ t) h = rw h

trim_end-trim_end : (t : Text) → trim_end (trim_end t) ≡ trim_end t
unfolding trim_end
trim_end-trim_end [] = refl
trim_end-trim_end (c ∷ cs) = trim_end-trim_cons c (trim_end cs) (trim_end-trim_end cs)

trim_cons_full : (c : ℕ) (t : Text) → ¬ (t ≡ []) → trim_cons c t ≡ c ∷ t
unfolding trim_cons
trim_cons_full c [] h = absurd (h refl)
trim_cons_full c (d ∷ t) h = refl

trim_cons_solid : (c : ℕ) (t : Text) → is_space c ≡ false → trim_cons c t ≡ c ∷ t
unfolding trim_cons
trim_cons_solid c [] h = rw h
trim_cons_solid c (d ∷ t) h = refl

squeeze-trim_cons :
    (b : Bool) (c : ℕ) (t : Text)
    → (squeeze true t ≡ [] → t ≡ [])
    → squeeze b (trim_cons c t) ≡ (
        if is_space c
        then (if b then squeeze true t else trim_cons 32 (squeeze true t))
        else c ∷ squeeze false t)
unfolding squeeze trim_cons
squeeze-trim_cons b c [] h = ground (arith, is_space_blank)
squeeze-trim_cons b c (d ∷ t) h =
    ground (arith, trim_cons_full 32 (squeeze true (d ∷ t)) (λ e. cons≢nil (h e)))

trim_end-squeeze : (b : Bool) (t : Text) → trim_end (squeeze b t) ≡ squeeze b (trim_end t)
unfolding squeeze trim_end
trim_end-squeeze b [] = refl
trim_end-squeeze b (c ∷ cs) =
    rw (squeeze-trim_cons b c (trim_end cs) (squeeze-trim_end-eq-nil true cs)) (
      rw (← trim_end-squeeze true cs, ← trim_end-squeeze false cs)
        (ground (arith, trim_cons_solid c (trim_end (squeeze false cs)))))

map-lower-trimmed :
    (t : Text)
    → map lower (trim_end (trim_start (map lower t))) ≡ trim_end (trim_start (map lower t))
map-lower-trimmed t = rw (map-lower-trim_end, map-lower-trim_start, map-lower-map-lower)

-- Normalising a signature changes nothing.
pub normalize_signature_idem :
    (title : Text) → normalize_signature (normalize_signature title) ≡ normalize_signature title
unfolding normalize_signature
normalize_signature_idem title =
    let words = trim_start (map lower title) in
    let flush = trim_end-IsFlush words (trim_start-IsFlush (map lower title)) in
    rw
      (
        map-lower-squeeze false (trim_end words),
        map-lower-trimmed title,
        trim_start-of-IsFlush (squeeze false (trim_end words))
            (squeeze-IsFlush (trim_end words) flush),
        trim_end-squeeze false (trim_end words),
        trim_end-trim_end words,
      )
      (squeeze-squeeze (trim_end words)).2
