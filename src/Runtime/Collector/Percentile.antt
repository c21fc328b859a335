-- ===== src/Runtime/Collector/Percentile.antt =====
-- src/runtime/RuntimeMetricsCollector.ts: `percentile`, and how many durations lie on either side of it.
use agent_diaries_core.Prelude.{
  ℕ, zero, suc, ◌+◌, ◌-◌, ◌*◌, ◌/◌, ◌≤◌, ◌<◌, ◌≡◌, refl, ap, ◌∙◌, inl, inr, true, false, List, [],
  ◌∷◌, arith, length, filter, All, leb, ltb, if◌then◌else◌,
}
use agent_diaries_core.Runtime.Collector.Rank.{rank, IsUsed, rank-exact}
use agent_diaries_core.Sorting.{sort, IsSorted, sort-IsSorted, length-filter-sort, length-sort}

-- `xs[i]`, for an index that is in range.
unfoldable pub at : List ℕ → ℕ → ℕ
at [] i = 0
at (x ∷ xs) zero = x
at (x ∷ xs) (suc i) = at xs i

abbrev pub smaller : ℕ → ℕ → ℕ
smaller a b = if ltb a b then a else b

-- `sorted[Math.max(0, Math.min(idx, sorted.length - 1))]`
unfoldable pub percentile : List ℕ → ℕ → ℕ
unfolding at rank
percentile [] p = 0
percentile (x ∷ xs) p = let n = length (x ∷ xs) in at (x ∷ xs) (smaller (rank p n - 1) (n - 1))

abbrev pub count_le : ℕ → List ℕ → ℕ
count_le v xs = length (filter (λ y. leb y v) xs)

abbrev pub count_lt : ℕ → List ℕ → ℕ
count_lt v xs = length (filter (λ y. ltb y v) xs)

leb-IsTotal : (x y : ℕ) → leb x y ≡ false → leb y x ≡ true
leb-IsTotal x y e = ground arith

All-le : (x y : ℕ) (ys : List ℕ) → x ≤ y → All (λ z. y ≤ z) ys → All (λ z. x ≤ z) ys
All-le x y [] l a = tt
All-le x y (z ∷ zs) l (h, a) = (omega arith, All-le x y zs l a)

head-le : (x : ℕ) (xs : List ℕ) → IsSorted leb (x ∷ xs) → All (λ y. x ≤ y) xs
head-le x [] s = tt
head-le x (y ∷ ys) s = let l : x ≤ y = ground arith in (l, All-le x y ys l (head-le y ys s.1))

All-at : (v : ℕ) (xs : List ℕ) (i : ℕ) → All (λ y. v ≤ y) xs → i < length xs → v ≤ at xs i
unfolding at
All-at v [] i a h = absurd (omega arith)
All-at v (x ∷ xs) zero a h = a.0
All-at v (x ∷ xs) (suc i) a h = All-at v xs i a.1 (omega arith)

tail-IsSorted : (x : ℕ) (xs : List ℕ) → IsSorted leb (x ∷ xs) → IsSorted leb xs
tail-IsSorted x [] s = tt
tail-IsSorted x (y ∷ ys) s = s.1

count_le-at :
    (xs : List ℕ) (i : ℕ) → IsSorted leb xs → i < length xs → suc i ≤ count_le (at xs i) xs
unfolding at
count_le-at [] i s h = absurd (omega arith)
count_le-at (x ∷ xs) zero s h = ground arith
count_le-at (x ∷ xs) (suc i) s h =
    ground (arith, count_le-at xs i (tail-IsSorted x xs s), All-at x xs i (head-le x xs s))

count_lt-none : (v : ℕ) (xs : List ℕ) → All (λ y. v ≤ y) xs → count_lt v xs ≡ 0
count_lt-none v [] a = refl
count_lt-none v (x ∷ xs) a = ground (arith, count_lt-none v xs)

count_lt-at : (xs : List ℕ) (i : ℕ) → IsSorted leb xs → i < length xs → count_lt (at xs i) xs ≤ i
unfolding at
count_lt-at [] i s h = absurd (omega arith)
count_lt-at (x ∷ xs) zero s h = ground (arith, count_lt-none x xs (head-le x xs s))
count_lt-at (x ∷ xs) (suc i) s h = ground (arith, count_lt-at xs i (tail-IsSorted x xs s))

mul_le : (p n : ℕ) → p ≤ 100 → p * n ≤ 100 * n
mul_le p n h = grind arith

mul_pos : (p n : ℕ) → 0 < p → 0 < n → 0 < p * n
mul_pos p n h k = grind arith

-- The rank that is read lies within the list, and is the least that reaches the percentage.
rank_bounds :
    (m n : ℕ)
    → 0 < m
    → m ≤ 100 * n
    → let i = smaller ((m + 99) / 100 - 1) (n - 1) in (i < n) × (m ≤ 100 * suc i) × (100 * i < m)
rank_bounds m n h k = ground arith

used_bounds : (p : ℕ) → IsUsed p → (0 < p) × (p ≤ 100)
used_bounds p (inl e) = (omega arith, omega arith)
used_bounds p (inr e) = (omega arith, omega arith)

percentile-at :
    (xs : List ℕ) (p : ℕ)
    → 0 < length xs
    → percentile xs p ≡ at xs (smaller (rank p (length xs) - 1) (length xs - 1))
unfolding percentile
percentile-at [] p h = absurd (omega arith)
percentile-at (x ∷ xs) p h = refl

-- For `p` 95 or 99 and a window of 1 to 1000 durations, at least `p` percent of the durations are no
-- longer than their `p`-th percentile, and fewer than `p` percent are shorter.
pub percentile-ranks :
    (ds : List ℕ) (p : ℕ)
    → IsUsed p
    → 0 < length ds
    → length ds ≤ 1000
    → let v = percentile (sort leb ds) p in
      (p * length ds ≤ 100 * count_le v ds) × (100 * count_lt v ds < p * length ds)
percentile-ranks ds p used h bound =
    let xs = sort leb ds in
    let n : length xs ≡ length ds = length-sort leb ds in
    let h' : 0 < length xs = omega arith in
    let (k, l) : (0 < p) × (p ≤ 100) = used_bounds p used in
    let i = smaller ((p * length xs + 99) / 100 - 1) (length xs - 1) in
    let s = sort-IsSorted leb leb-IsTotal ds in
    let e =
      percentile-at xs p h'
      ∙ ap (λ r. at xs (smaller (r - 1) (length xs - 1)))
          (rank-exact p (length xs) used h' (omega arith)) in
    let (a, b, c) =
      rank_bounds (p * length xs) (length xs) (mul_pos p (length xs) k h')
        (mul_le p (length xs) l) in
    let le = count_le-at xs i s a in
    let lt = count_lt-at xs i s a in
    let le' = length-filter-sort leb (λ y. leb y (at xs i)) ds in
    let lt' = length-filter-sort leb (λ y. ltb y (at xs i)) ds in
    let m = ap (λ t. p * t) n in rw e (omega arith, omega arith)
