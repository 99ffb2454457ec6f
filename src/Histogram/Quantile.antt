-- ===== src/Histogram/Quantile.antt =====
-- src/core.cpp `latency_histogram::quantile` against the values themselves.
use mathlib.Core.Path.{ap₂, subst}
use native.Mathlib.Nat.{pow-suc}
use native.Mathlib.Numerals.{add-one}
use bengal_market.Base.{
  All, All-map, Bool-cases, List, [], ap, arith, if◌then◌else◌, inl, inr, leb, leb→le, length, ltb,
  refl, suc, sym, zero, ℕ, ◌*◌, ◌+◌, ◌-◌, ◌/◌, ◌<◌, ◌==◌, ◌^◌, ◌∙◌, ◌∷◌, ◌≡◌, ◌≢◌, ◌≤◌, ◌⊎◌,
}
use bengal_market.Base.Words.{add_u64, max_u64, mul_u64}
use bengal_market.Histogram.{Histogram, after, bucket_of, quantile, quantile_loop}
use bengal_market.Histogram.Buckets.{bucket_of-le, bucket_of-lt, upper}
use bengal_market.Histogram.Inv.{Describes, after-Describes, count_in, table}

-- How many of the values are at most `q`.
abbrev pub count_le : ℕ → List ℕ → ℕ
count_le q [] = 0
count_le q (v ∷ vs) = if leb v q then suc (count_le q vs) else count_le q vs

-- How many fall into the buckets below `i`.
abbrev count_below : ℕ → List ℕ → ℕ
count_below i [] = 0
count_below i (v ∷ vs) = if ltb (bucket_of v) i then suc (count_below i vs) else count_below i vs

count_below-zero : (vs : List ℕ) → count_below 0 vs ≡ 0
count_below-zero [] = refl
count_below-zero (v ∷ vs) = ground (arith, count_below-zero vs)

count_below-suc : (i : ℕ) (vs : List ℕ) → count_below (suc i) vs ≡ count_below i vs + count_in i vs
count_below-suc i [] = refl
count_below-suc i (v ∷ vs) = ground (arith, count_below-suc i vs)

count_below-all : (vs : List ℕ) → count_below 65 vs ≡ length vs
count_below-all [] = refl
count_below-all (v ∷ vs) = ground (arith, count_below-all vs, bucket_of-lt v)

count_below-count_le :
    (i : ℕ) (vs : List ℕ)
    → i ≤ 64
    → All (λ v. v ≤ 2 ^ 63) vs
    → count_below (suc i) vs ≡ count_le (upper i) vs
count_below-count_le i [] hi h = refl
count_below-count_le i (v ∷ vs) hi (hv, hs) =
    ground (arith, bucket_of-le v i hv hi, count_below-count_le i vs hi hs)

count_below-length : (i : ℕ) (vs : List ℕ) → count_below i vs ≤ length vs
count_below-length i [] = omega arith
count_below-length i (v ∷ vs) = ground (arith, count_below-length i vs)

-- What the loop returns: the upper end of the first bucket that reaches the target.
record Reaches (vs : List ℕ) (target q : ℕ) : Type 0 where
  bucket : ℕ
  in_range : bucket ≤ 64
  value : q ≡ upper bucket
  before : count_below bucket vs < target
  reached : target ≤ count_below (suc bucket) vs

reported :
    (i : ℕ) → i ≤ 64 → (if i == 0 then 0 else if ltb 64 i then max_u64 else 2 ^ (i - 1)) ≡ upper i
reported zero h = refl
reported (suc i) h = ground arith

loop-Reaches :
    (vs : List ℕ) (k i target maximum : ℕ)
    → i + k ≡ 65
    → length vs ≤ max_u64
    → count_below i vs < target
    → target ≤ length vs
    → Reaches vs target (quantile_loop (table vs i k) i (count_below i vs) target maximum)
unfolding quantile_loop
loop-Reaches vs zero i target maximum e hl lt le =
    let e' : i ≡ 65 = omega arith in absurd (omega (arith, rw e' at lt, count_below-all vs))
loop-Reaches vs (suc k) i target maximum e hl lt le =
    let total : add_u64 (count_below i vs) (count_in i vs) ≡ count_below (suc i) vs =
      omega (arith, count_below-suc i vs, count_below-length (suc i) vs) in
    elim (Bool-cases (leb target (count_below (suc i) vs))) [
      | inl t ↦
          rw (total, t)
            (record {
              bucket = i;
              in_range = omega arith;
              value = reported i (omega arith);
              before = lt;
              reached = leb→le _ _ t;
            })
      | inr f ↦
          rw (total, f, add-one)
            (loop-Reaches vs k (suc i) target maximum (omega arith) hl (ground arith) le)
    ]

-- The half of a bucket's upper end is the upper end of the bucket before.
half_upper : (j : ℕ) → upper (suc j) / 2 ≡ upper j
half_upper zero = refl
half_upper (suc j) = omega (arith, pow-suc 2 j)

-- `q` is at or above the target-th smallest value, and its half is below it.
abbrev pub RoundsUp : List ℕ → ℕ → ℕ → Type 0
RoundsUp vs target q = (target ≤ count_le q vs) × ((q ≡ 0) ⊎ (count_le (q / 2) vs < target))

Reaches-RoundsUp :
    (vs : List ℕ) (target q : ℕ)
    → All (λ v. v ≤ 2 ^ 63) vs
    → Reaches vs target q
    → RoundsUp vs target q
Reaches-RoundsUp vs target q h r = rw r.value (
    go r.bucket r.in_range r.before
      (rw (count_below-count_le r.bucket vs r.in_range h) at r.reached))
  where
    go :
        (b : ℕ)
        → b ≤ 64
        → count_below b vs < target
        → target ≤ count_le (upper b) vs
        → RoundsUp vs target (upper b)
    go zero hb lo hi = (hi, inl refl)
    go (suc j) hb lo hi =
        (hi, inr (rw (half_upper j) (rw (count_below-count_le j vs (omega arith) h) at lo)))

-- `(samples * percentile + 99) / 100`, the nearest rank.
abbrev pub rank : ℕ → ℕ → ℕ
rank n percentile = (n * percentile + 99) / 100

pub times_le : (n p : ℕ) → p ≤ 100 → n * p ≤ n * 100
times_le n p h = grind arith

pub le_times : (n p : ℕ) → 1 ≤ p → n ≤ n * p
le_times n p h = grind arith

rank_range : (n p : ℕ) → 1 ≤ n → 1 ≤ p → p ≤ 100 → (1 ≤ rank n p) × (rank n p ≤ n)
rank_range n p hn p0 p1 = omega (arith, times_le n p p1, le_times n p p0)

pub target_is_rank :
    (n p : ℕ) → n * 100 + 99 ≤ max_u64 → p ≤ 100 → add_u64 (mul_u64 n p) 99 / 100 ≡ rank n p
target_is_rank n p hn p1 = omega (arith, times_le n p p1)

quantile-Reaches :
    (h : Histogram) (vs : List ℕ) (percentile : ℕ)
    → Describes h vs
    → 1 ≤ length vs
    → length vs * 100 + 99 ≤ max_u64
    → 1 ≤ percentile
    → percentile ≤ 100
    → Reaches vs (rank (length vs) percentile) (quantile h percentile)
unfolding quantile
quantile-Reaches h vs p d hn hl p0 p1 =
    let target = rank (length vs) p in
    let (r0, r1) = rank_range (length vs) p hn p0 p1 in
    let z = count_below-zero vs in
    subst (Reaches vs target)
      (sym (
        ap (λ b. quantile_loop b 0 0 (add_u64 (mul_u64 h.samples p) 99 / 100) h.maximum) d.counts
        ∙ ap (λ n. quantile_loop (table vs 0 65) 0 0 (add_u64 (mul_u64 n p) 99 / 100) h.maximum)
            d.number
        ∙ ap₂ (λ c t. quantile_loop (table vs 0 65) 0 c t h.maximum) (sym z)
            (target_is_rank (length vs) p hl p1)))
      (loop-Reaches vs 65 0 target h.maximum refl (omega arith) (omega (arith, z)) r1)

-- Of one or more latencies up to 2^63 ns, few enough for the rank not to overflow, and for a
-- percentile from 1 to 100, the reported quantile is at most one doubling above the nearest-rank
-- quantile: as many latencies as the rank says are at most the report, and, unless it is 0, fewer
-- are at most its half.
pub quantile-RoundsUp :
    (vs : List ℕ) (percentile : ℕ)
    → vs ≢ []
    → length vs * 100 + 99 ≤ max_u64
    → All (λ v. v ≤ 2 ^ 63) vs
    → 1 ≤ percentile
    → percentile ≤ 100
    → RoundsUp vs (rank (length vs) percentile) (quantile (after vs) percentile)
quantile-RoundsUp [] percentile ne hl hv p0 p1 = absurd (ne refl)
quantile-RoundsUp (v ∷ vs) percentile ne hl hv p0 p1 =
    let fits = All-map (λ w. w ≤ 2 ^ 63) (λ w. w ≤ max_u64) (λ w l. omega arith) (v ∷ vs) hv in
    Reaches-RoundsUp (v ∷ vs) _ _ hv (
      quantile-Reaches (after (v ∷ vs)) (v ∷ vs) percentile
        (after-Describes (v ∷ vs) fits (omega arith)) (omega arith) hl p0 p1)
