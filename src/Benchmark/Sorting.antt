-- ===== src/Benchmark/Sorting.antt =====
-- src/benchmark.cpp `distribution`: its median against the values as they come.
use native.Mathlib.Decide.{dec_le}
use bengal_market.Base.{
  All, All-map, List, [], ap, arith, false, leb, length, refl, suc, sym, true, ℕ, ◌*◌, ◌+◌, ◌<◌,
  ◌∙◌, ◌∷◌, ◌≡◌, ◌≢◌, ◌≤◌,
}
use bengal_market.Base.Words.{max_u64}
use bengal_market.Benchmark.{distribution, insert, nearest_rank, sort}
use bengal_market.Benchmark.Ranks.{Sorted, count_le, count_lt, nearest_rank-counts}

insert-All : (P : ℕ → Type 0) (v : ℕ) (xs : List ℕ) → P v → All P xs → All P (insert v xs)
unfolding insert
insert-All P v [] p a = (p, tt)
insert-All P v (x ∷ xs) p (q, a) = elim (dec_le v x) [
  | yes le ↦ let t : leb v x ≡ true = ground arith in rw t (p, (q, a))
  | no gt ↦ let t : leb v x ≡ false = ground arith in rw t (q, insert-All P v xs p a)
]

insert-Sorted : (v : ℕ) (xs : List ℕ) → Sorted xs → Sorted (insert v xs)
unfolding insert
insert-Sorted v [] s = (tt, tt)
insert-Sorted v (x ∷ xs) (a, s) = elim (dec_le v x) [
  | yes le ↦
      let t : leb v x ≡ true = ground arith in
      rw t ((le, All-map (λ y. x ≤ y) (λ y. v ≤ y) (λ y h. omega arith) xs a), (a, s))
  | no gt ↦
      let t : leb v x ≡ false = ground arith in
      rw t (insert-All (λ y. x ≤ y) v xs (omega arith) a, insert-Sorted v xs s)
]

sort-Sorted : (xs : List ℕ) → Sorted (sort xs)
unfolding sort
sort-Sorted [] = tt
sort-Sorted (x ∷ xs) = insert-Sorted x (sort xs) (sort-Sorted xs)

count_le-insert : (n v : ℕ) (xs : List ℕ) → count_le n (insert v xs) ≡ count_le n (v ∷ xs)
unfolding insert
count_le-insert n v [] = refl
count_le-insert n v (x ∷ xs) = ground (arith, count_le-insert n v xs)

count_lt-insert : (n v : ℕ) (xs : List ℕ) → count_lt n (insert v xs) ≡ count_lt n (v ∷ xs)
unfolding insert
count_lt-insert n v [] = refl
count_lt-insert n v (x ∷ xs) = ground (arith, count_lt-insert n v xs)

length-insert : (v : ℕ) (xs : List ℕ) → length (insert v xs) ≡ suc (length xs)
unfolding insert
length-insert v [] = refl
length-insert v (x ∷ xs) = ground (arith, length-insert v xs)

sort-counts :
    (n : ℕ) (xs : List ℕ)
    → (count_le n (sort xs) ≡ count_le n xs)
      × (count_lt n (sort xs) ≡ count_lt n xs)
      × (length (sort xs) ≡ length xs)
unfolding sort
sort-counts n [] = (refl, refl, refl)
sort-counts n (x ∷ xs) =
    let (a, b, c) = sort-counts n xs in
    (
      ground (arith, a, count_le-insert n x (sort xs)),
      ground (arith, b, count_lt-insert n x (sort xs)),
      length-insert x (sort xs) ∙ ap suc c,
    )

-- Of one or more values in any order, few enough for the rank not to overflow, at least half are at
-- most the median that `distribution` gives, and fewer than half are below it.
pub distribution-median :
    (values : List ℕ)
    → values ≢ []
    → length values * 100 + 99 ≤ max_u64
    → (length values * 50 ≤ 100 * count_le (distribution values).median values)
      × (100 * count_lt (distribution values).median values < length values * 50)
unfolding distribution
distribution-median values ne hl =
    let m = nearest_rank (sort values) 50 in
    let (a, b, c) = sort-counts m values in
    let some_left : sort values ≢ [] = λ e. ne (no_values values (sym c ∙ ap length e)) in
    rw⁻¹ (a, b, c)
      (nearest_rank-counts (sort values) 50 some_left (sort-Sorted values) (omega (arith, c))
        (omega arith) (omega arith))
  where
    no_values : (xs : List ℕ) → length xs ≡ 0 → xs ≡ []
    no_values [] e = refl
    no_values (x ∷ xs) e = absurd (omega (arith, e))
