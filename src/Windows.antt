-- ===== src/Windows.antt =====
-- The last items of a list, as a buffer of bounded size keeps them.
use native.Mathlib.Nat.{zero-add, add-zero, suc-add}
use agent_diaries_core.Prelude.{
  ℕ, zero, suc, ◌+◌, ◌-◌, ◌≤◌, ◌≡◌, refl, ◌∙◌, ap, List, [], ◌∷◌, ◌++◌, arith, length, drop,
  length-append,
}

module _ {ℓ} {A : Type ℓ} where
  abbrev pub last : ℕ → List A → List A
  last n xs = drop (length xs - n) xs

  pub append-nil : (xs : List A) → xs ++ [] ≡ xs
  append-nil [] = refl
  append-nil (x ∷ xs) = ap (◌∷◌ x) (append-nil xs)

  pub append_assoc : (xs ys zs : List A) → (xs ++ ys) ++ zs ≡ xs ++ (ys ++ zs)
  append_assoc [] ys zs = refl
  append_assoc (x ∷ xs) ys zs = ap (◌∷◌ x) (append_assoc xs ys zs)

  drop-append : (k : ℕ) (xs ys : List A) → k ≤ length xs → drop k xs ++ ys ≡ drop k (xs ++ ys)
  drop-append zero xs ys l = refl
  drop-append (suc k) [] ys l = absurd (omega arith)
  drop-append (suc k) (x ∷ xs) ys l = drop-append k xs ys (omega arith)

  drop-drop : (j k : ℕ) (xs : List A) → drop j (drop k xs) ≡ drop (k + j) xs
  drop-drop j zero xs = rw zero-add
  drop-drop zero (suc k) [] = rw add-zero
  drop-drop (suc j) (suc k) [] = rw suc-add
  drop-drop j (suc k) (x ∷ xs) = rw suc-add (drop-drop j k xs)

  length-drop : (k : ℕ) (xs : List A) → length (drop k xs) ≡ length xs - k
  length-drop zero xs = omega arith
  length-drop (suc k) [] = omega arith
  length-drop (suc k) (x ∷ xs) = let e = length-drop k xs in omega arith

  -- Cutting early changes nothing at the end.
  pub last-append : (n : ℕ) (xs ys : List A) → last n (last n xs ++ ys) ≡ last n (xs ++ ys)
  last-append n xs ys =
      let k = length xs - n in
      let joined = drop-append k xs ys (omega arith) in
      let sum : k + (length (drop k (xs ++ ys)) - n) ≡ length (xs ++ ys) - n =
        let e = length-drop k (xs ++ ys) in let l = length-append xs ys in omega arith in
      ap (last n) joined
      ∙ drop-drop (length (drop k (xs ++ ys)) - n) k (xs ++ ys)
      ∙ ap (λ m. drop m (xs ++ ys)) sum

  pub length-last : (n : ℕ) (xs : List A) → length (last n xs) ≤ n
  length-last n xs = let e = length-drop (length xs - n) xs in omega arith

  pub last_of_length-le : (n : ℕ) (xs : List A) → length xs ≤ n → last n xs ≡ xs
  last_of_length-le n xs l = let e : length xs - n ≡ 0 = omega arith in rw e refl
