-- ===== src/Runtime/Collector/Rank.antt =====
-- src/runtime/RuntimeMetricsCollector.ts: the rank that `percentile` computes in double precision, beside
-- the exact one.
use agent_diaries_core.Prelude.{
  ℕ, zero, suc, ◌+◌, ◌-◌, ◌*◌, ◌/◌, ◌%◌, ◌≤◌, ◌<◌, ◌≡◌, refl, ◌⊎◌, inl, inr, Bool, true, ◌&&◌, ◌||◌,
  arith, ltb, ◌==◌, if◌then◌else◌, ℕ_discrete,
}
use Prim.Native.Nat.{◌^◌}

-- A quotient to the nearest integer, a half to the even one.
unfoldable pub nearest : ℕ → ℕ → ℕ
nearest a b =
    let q = a / b in
    let r = a % b in if ltb b (2 * r) || (2 * r == b) && (q % 2 == 1) then q + 1 else q

-- How often a number is doubled until it is 100 at least; 7 times are enough.
unfoldable pub doublings : ℕ → ℕ → ℕ
doublings zero x = 0
doublings (suc k) x = let rest = doublings k (2 * x) in if ltb x 100 then suc rest else 0

-- How many bits a number has beyond the 53 of a significand, up to so many.
unfoldable pub excess : ℕ → ℕ → ℕ
excess zero x = 0
excess (suc k) x = let rest = excess k (x / 2) in if ltb x (2 ^ 53) then 0 else suc rest

-- `Math.ceil((p / 100) * n)` for lists of less than 2 ^ 16 items. The quotient is a significand of 53
-- bits over a power of two, and the product is rounded to 53 bits again.
unfoldable pub rank : ℕ → ℕ → ℕ
unfolding nearest doublings excess
rank p n =
    let e = 2 ^ (52 + doublings 7 p) in
    let product = nearest (p * e) 100 * n in
    let unit = 2 ^ excess 16 product in (nearest product unit * unit + (e - 1)) / e

-- The percentiles that the snapshots ask for.
abbrev pub IsUsed : ℕ → Type 0
IsUsed p = (p ≡ 95) ⊎ (p ≡ 99)

exact_to : ℕ → ℕ → Bool
unfolding rank
exact_to p zero = true
exact_to p (suc n) = (rank p (suc n) == (p * suc n + 99) / 100) && exact_to p n

exact_95 : exact_to 95 1000 ≡ true
unfolding exact_to rank
exact_95 = refl

exact_99 : exact_to 99 1000 ≡ true
unfolding exact_to rank
exact_99 = refl

both : (a b : Bool) → (a && b) ≡ true → (a ≡ true) × (b ≡ true)
both a b e = ground arith

same_if : (a b : ℕ) → (a == b) ≡ true → a ≡ b
same_if a b e = ground arith

exact_below : (p n m : ℕ) → exact_to p m ≡ true → 0 < n → n ≤ m → rank p n ≡ (p * n + 99) / 100
unfolding exact_to
exact_below p n zero e h k = absurd (omega arith)
exact_below p n (suc m) e h k =
    let (last, earlier) = both (rank p (suc m) == (p * suc m + 99) / 100) (exact_to p m) e in
    elim (ℕ_discrete n (suc m)) [
      | yes same ↦ rw same (same_if (rank p (suc m)) ((p * suc m + 99) / 100) last)
      | no ne ↦ exact_below p n m earlier h (omega arith)
    ]

-- For windows of up to 1000 durations the rounding does not change the rank.
pub rank-exact : (p n : ℕ) → IsUsed p → 0 < n → n ≤ 1000 → rank p n ≡ (p * n + 99) / 100
rank-exact p n (inl e) h k = rw e (exact_below 95 n 1000 exact_95 h k)
rank-exact p n (inr e) h k = rw e (exact_below 99 n 1000 exact_99 h k)
