-- ===== src/Sorting.antt =====
-- `Array.prototype.sort`, which is stable, by a Boolean order, and what it keeps.
use agent_diaries_core.Prelude.{
  suc, ◌≡◌, refl, ◌∙◌, ap, Bool, true, false, ◌||◌, List, [], ◌∷◌, arith, length, filter, any,
  if◌then◌else◌, Bool-cases, inl, inr, Text, ltb,
}

module _ {ℓ} {A : Type ℓ} (le : A → A → Bool) where
  unfoldable pub insert : A → List A → List A
  insert x [] = x ∷ []
  insert x (y ∷ ys) = if le x y then x ∷ y ∷ ys else y ∷ insert x ys

  unfoldable pub sort : List A → List A
  unfolding insert
  sort [] = []
  sort (x ∷ xs) = insert x (sort xs)

  -- No item is before one that comes first.
  abbrev pub IsSorted : List A → Type 0
  IsSorted [] = Unit {0}
  IsSorted (x ∷ []) = Unit {0}
  IsSorted (x ∷ y ∷ ys) = (le x y ≡ true) × IsSorted (y ∷ ys)

  abbrev pub IsTotal : Type ℓ
  IsTotal = (x y : A) → le x y ≡ false → le y x ≡ true

  insert-IsSorted : IsTotal → (x : A) (ys : List A) → IsSorted ys → IsSorted (insert x ys)
  unfolding insert
  insert-IsSorted total x [] s = tt
  insert-IsSorted total x (y ∷ []) s = ground (arith, total x y)
  insert-IsSorted total x (y ∷ z ∷ zs) s = elim (Bool-cases (le x y)) [
    | inl e ↦ rw e (e, s)
    | inr e ↦ rw e (ground (arith, total x y, insert-IsSorted total x (z ∷ zs) s.1))
  ]

  pub sort-IsSorted : IsTotal → (xs : List A) → IsSorted (sort xs)
  unfolding sort
  sort-IsSorted total [] = tt
  sort-IsSorted total (x ∷ xs) = insert-IsSorted total x (sort xs) (sort-IsSorted total xs)

  length-filter-insert :
      (p : A → Bool) (x : A) (ys : List A)
      → length (filter p (insert x ys)) ≡ length (filter p (x ∷ ys))
  unfolding insert
  length-filter-insert p x [] = refl
  length-filter-insert p x (y ∷ ys) = ground (arith, length-filter-insert p x ys)

  -- Sorting keeps every item as often as it is there.
  pub length-filter-sort :
      (p : A → Bool) (xs : List A) → length (filter p (sort xs)) ≡ length (filter p xs)
  unfolding sort
  length-filter-sort p [] = refl
  length-filter-sort p (x ∷ xs) =
      length-filter-insert p x (sort xs) ∙ ground (arith, length-filter-sort p xs)

  length-insert : (x : A) (ys : List A) → length (insert x ys) ≡ suc (length ys)
  unfolding insert
  length-insert x [] = refl
  length-insert x (y ∷ ys) = ground (arith, length-insert x ys)

  pub length-sort : (xs : List A) → length (sort xs) ≡ length xs
  unfolding sort
  length-sort [] = refl
  length-sort (x ∷ xs) = length-insert x (sort xs) ∙ ap suc (length-sort xs)

  any-insert : (p : A → Bool) (x : A) (ys : List A) → any p (insert x ys) ≡ any p (x ∷ ys)
  unfolding insert
  any-insert p x [] = refl
  any-insert p x (y ∷ ys) = ground (arith, any-insert p x ys)

  pub any-sort : (p : A → Bool) (xs : List A) → any p (sort xs) ≡ any p xs
  unfolding sort
  any-sort p [] = refl
  any-sort p (x ∷ xs) = any-insert p x (sort xs) ∙ ap (λ b. p x || b) (any-sort p xs)

-- The order of strings: by their code units.
unfoldable pub text_le : Text → Text → Bool
text_le [] u = true
text_le (c ∷ cs) [] = false
text_le (c ∷ cs) (d ∷ ds) = if ltb c d then true else if ltb d c then false else text_le cs ds

pub text_le-IsTotal : (t u : Text) → text_le t u ≡ false → text_le u t ≡ true
unfolding text_le
text_le-IsTotal [] u e = cc
text_le-IsTotal (c ∷ cs) [] e = refl
text_le-IsTotal (c ∷ cs) (d ∷ ds) e = ground (arith, text_le-IsTotal cs ds)
