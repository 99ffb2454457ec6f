-- ===== src/Benchmark/Ranks.antt =====
-- src/benchmark.cpp `nearest_rank`.
use bengal_market.Base.{
  All, List, [], arith, get_or, if◌then◌else◌, leb, length, ltb, max, refl, suc, zero, ℕ, ◌*◌, ◌+◌,
  ◌-◌, ◌/◌, ◌<◌, ◌∷◌, ◌≡◌, ◌≢◌, ◌≤◌,
}
use bengal_market.Base.Words.{add_u64, max_u64, mul_u64}
use bengal_market.Benchmark.{nearest_rank}
use bengal_market.Histogram.Quantile.{le_times, target_is_rank, times_le}

-- The list is in order.
abbrev pub Sorted : List ℕ → Type 0
Sorted [] = Unit
Sorted (x ∷ xs) = All (λ y. x ≤ y) xs × Sorted xs

-- How many of the values are at most `v`, and how many are below it.
abbrev pub count_le : ℕ → List ℕ → ℕ
count_le v [] = 0
count_le v (x ∷ xs) = if leb x v then suc (count_le v xs) else count_le v xs

abbrev pub count_lt : ℕ → List ℕ → ℕ
count_lt v [] = 0
count_lt v (x ∷ xs) = if ltb x v then suc (count_lt v xs) else count_lt v xs

get_or-All : (P : ℕ → Type 0) (xs : List ℕ) (i : ℕ) → i < length xs → All P xs → P (get_or xs i 0)
get_or-All P [] i h a = absurd (omega arith)
get_or-All P (x ∷ xs) zero h (p, a) = p
get_or-All P (x ∷ xs) (suc i) h (p, a) = get_or-All P xs i (omega arith) a

-- At least `i + 1` values are at most the one at `i`.
count_le-get_or :
    (xs : List ℕ) (i : ℕ) → Sorted xs → i < length xs → i < count_le (get_or xs i 0) xs
count_le-get_or [] i s h = absurd (omega arith)
count_le-get_or (x ∷ xs) zero s h = ground arith
count_le-get_or (x ∷ xs) (suc i) (a, s) h =
    let below = get_or-All (λ y. x ≤ y) xs i (omega arith) a in
    let more = count_le-get_or xs i s (omega arith) in ground arith

count_lt-none : (v : ℕ) (xs : List ℕ) → All (λ y. v ≤ y) xs → count_lt v xs ≡ 0
count_lt-none v [] a = refl
count_lt-none v (x ∷ xs) (p, a) = ground (arith, count_lt-none v xs a)

-- At most `i` values are below the one at `i`.
count_lt-get_or :
    (xs : List ℕ) (i : ℕ) → Sorted xs → i < length xs → count_lt (get_or xs i 0) xs ≤ i
count_lt-get_or [] i s h = absurd (omega arith)
count_lt-get_or (x ∷ xs) zero (a, s) h = ground (arith, count_lt-none x xs a)
count_lt-get_or (x ∷ xs) (suc i) (a, s) h = ground (arith, count_lt-get_or xs i s (omega arith))

-- Of values in order, one or more and few enough for the rank not to overflow, and for a percentile
-- from 1 to 100, the share of the values that are at most `nearest_rank` reaches the percentile, and
-- the share of those below it does not.
pub nearest_rank-counts :
    (sorted : List ℕ) (percentile : ℕ)
    → sorted ≢ []
    → Sorted sorted
    → length sorted * 100 + 99 ≤ max_u64
    → 1 ≤ percentile
    → percentile ≤ 100
    → (length sorted * percentile ≤ 100 * count_le (nearest_rank sorted percentile) sorted)
      × (100 * count_lt (nearest_rank sorted percentile) sorted < length sorted * percentile)
unfolding nearest_rank
nearest_rank-counts [] percentile ne s hl p0 p1 = absurd (ne refl)
nearest_rank-counts (x ∷ xs) percentile ne s hl p0 p1 =
    let n = length (x ∷ xs) in
    let i = max 1 (add_u64 (mul_u64 n percentile) 99 / 100) - 1 in
    let least = le_times n percentile p0 in
    let most = times_le n percentile p1 in
    let target = target_is_rank n percentile hl p1 in
    let inside : i < n = omega arith in
    let below = count_le-get_or (x ∷ xs) i s inside in
    let above = count_lt-get_or (x ∷ xs) i s inside in (omega arith, omega arith)
