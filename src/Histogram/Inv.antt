-- ===== src/Histogram/Inv.antt =====
-- src/core.cpp `latency_histogram`: what the fields hold after a run of latencies.
use mathlib.Core.Path.{subst}
use native.Mathlib.Decide.{dec_lt}
use bengal_market.Base.{
  All, All-map, List, [], ap, arith, get_or, if◌then◌else◌, inl, inr, length, max, min, refl,
  replicate, set, suc, sym, zero, ℕ, ◌+◌, ◌<◌, ◌==◌, ◌∙◌, ◌∷◌, ◌≡◌, ◌≤◌, ◌⊎◌,
}
use bengal_market.Base.Words.{add_u64, max_u64}
use bengal_market.Histogram.{Histogram, after, bucket_of, empty, observe}
use bengal_market.Histogram.Buckets.{bucket_of-lt}

-- How many of the latencies fall into bucket `i`.
abbrev pub count_in : ℕ → List ℕ → ℕ
count_in i [] = 0
count_in i (v ∷ vs) = if bucket_of v == i then suc (count_in i vs) else count_in i vs

-- The counts of `k` buckets from `i` on.
abbrev pub table : List ℕ → ℕ → ℕ → List ℕ
table vs i zero = []
table vs i (suc k) = count_in i vs ∷ table vs (suc i) k

count_in-le : (i : ℕ) (vs : List ℕ) → count_in i vs ≤ length vs
count_in-le i [] = omega arith
count_in-le i (v ∷ vs) = ground (arith, count_in-le i vs)

table-nil : (i k : ℕ) → table [] i k ≡ replicate k 0
table-nil i zero = refl
table-nil i (suc k) = ap (λ r. 0 ∷ r) (table-nil (suc i) k)

table_past : (v : ℕ) (vs : List ℕ) (i k : ℕ) → bucket_of v < i → table (v ∷ vs) i k ≡ table vs i k
table_past v vs i zero h = refl
table_past v vs i (suc k) h = ground (arith, table_past v vs (suc i) k (omega arith))

table-set :
    (v : ℕ) (vs : List ℕ) (i j k : ℕ)
    → bucket_of v ≡ i + j
    → j < k
    → length vs < max_u64
    → set (table vs i k) j (add_u64 (get_or (table vs i k) j 0) 1) ≡ table (v ∷ vs) i k
table-set v vs i j zero h hj hl = absurd (omega arith)
table-set v vs i zero (suc k) h hj hl =
    ground (arith, table_past v vs (suc i) k (omega arith), count_in-le i vs)
table-set v vs i (suc j) (suc k) h hj hl =
    ground (arith, table-set v vs (suc i) j k (omega arith) (omega arith) hl)

abbrev pub Member : ℕ → List ℕ → Type 0
Member a [] = ⊥
Member a (x ∷ xs) = (a ≡ x) ⊎ Member a xs

-- The extremes are values that were seen, once there is one.
abbrev pub Attained : ℕ → ℕ → List ℕ → Type 0
Attained lo hi [] = (lo ≡ max_u64) × (hi ≡ 0)
Attained lo hi (v ∷ vs) = Member lo (v ∷ vs) × Member hi (v ∷ vs)

-- The fields say of the latencies `vs` what their names promise.
pub record Describes (h : Histogram) (vs : List ℕ) : Type 0 where
  pub counts : h.buckets ≡ table vs 0 65
  pub number : h.samples ≡ length vs
  pub least : All (λ v. h.minimum ≤ v) vs
  pub greatest : All (λ v. v ≤ h.maximum) vs
  pub attained : Attained h.minimum h.maximum vs

min_stays : (lo v : ℕ) → ¬ (v < lo) → min lo v ≡ lo
min_stays lo v h = omega arith

max_stays : (hi v : ℕ) → ¬ (hi < v) → max hi v ≡ hi
max_stays hi v h = omega arith

min-Member :
    (lo v : ℕ) (vs : List ℕ)
    → v ≤ max_u64
    → (hi : ℕ) → Attained lo hi vs
    → Member (min lo v) (v ∷ vs)
min-Member lo v [] hv hi (a, b) = inl (omega arith)
min-Member lo v (w ∷ vs) hv hi (a, b) = elim (dec_lt v lo) [
  | yes l ↦ inl (omega arith)
  | no l ↦ inr (subst (λ x. Member x (w ∷ vs)) (sym (min_stays lo v l)) a)
]

max-Member : (lo hi v : ℕ) (vs : List ℕ) → Attained lo hi vs → Member (max hi v) (v ∷ vs)
max-Member lo hi v [] (a, b) = inl (omega arith)
max-Member lo hi v (w ∷ vs) (a, b) = elim (dec_lt hi v) [
  | yes l ↦ inl (omega arith)
  | no l ↦ inr (subst (λ x. Member x (w ∷ vs)) (sym (max_stays hi v l)) b)
]

empty-Describes : Describes empty []
empty-Describes = record {
  counts = sym (table-nil 0 65);
  number = refl;
  least = tt;
  greatest = tt;
  attained = (refl, refl);
}

observe-Describes :
    (h : Histogram) (v : ℕ) (vs : List ℕ)
    → v ≤ max_u64
    → length vs < max_u64
    → Describes h vs
    → Describes (observe h v) (v ∷ vs)
unfolding observe
observe-Describes h v vs hv hl d = record {
  counts =
      ap (λ b. set b (bucket_of v) (add_u64 (get_or b (bucket_of v) 0) 1)) d.counts
      ∙ table-set v vs 0 (bucket_of v) 65 (omega arith) (bucket_of-lt v) hl;
  number = omega (arith, d.number);
  least = (
    omega arith,
    All-map (λ w. h.minimum ≤ w) (λ w. min h.minimum v ≤ w) (λ w l. omega arith) vs d.least,
  );
  greatest = (
    omega arith,
    All-map (λ w. w ≤ h.maximum) (λ w. w ≤ max h.maximum v) (λ w l. omega arith) vs d.greatest,
  );
  attained = (
    min-Member h.minimum v vs hv h.maximum d.attained,
    max-Member h.minimum h.maximum v vs d.attained,
  );
}

-- After fewer than 2^64 latencies, each a `uint64_t`, the histogram describes them: every bucket counts its values, and
-- the number, the least and the greatest value are theirs.
pub after-Describes :
    (vs : List ℕ) → All (λ v. v ≤ max_u64) vs → length vs ≤ max_u64 → Describes (after vs) vs
unfolding after
after-Describes [] hv hl = empty-Describes
after-Describes (v ∷ vs) (hv, hvs) hl =
    observe-Describes (after vs) v vs hv hl (after-Describes vs hvs (omega arith))
