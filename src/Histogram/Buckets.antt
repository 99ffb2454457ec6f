-- ===== src/Histogram/Buckets.antt =====
-- src/core.cpp `latency_histogram::observe`: which values a bucket holds.
use native.Mathlib.Decide.{ℕ_discrete}
use native.Mathlib.Nat.{one-le-pow, pow-suc}
use bengal_market.Base.{arith, false, suc, zero, ℕ, ◌-◌, ◌/◌, ◌<◌, ◌==◌, ◌^◌, ◌↔◌, ◌≡◌, ◌≤◌}
use bengal_market.Base.Words.{sub_u64}
use bengal_market.Histogram.{bit_width, bit_width_fuel, bucket_of}

-- The greatest value of a bucket, which `quantile` reports for it.
abbrev pub upper : ℕ → ℕ
upper zero = 0
upper (suc j) = 2 ^ j

bit_width_fuel-le : (fuel n j : ℕ) → n < 2 ^ fuel → (bit_width_fuel fuel n ≤ j) ↔ (n < 2 ^ j)
unfolding bit_width_fuel
bit_width_fuel-le zero n j h = omega (arith, one-le-pow j 2 (omega arith))
bit_width_fuel-le (suc fuel) n zero h = ground arith
bit_width_fuel-le (suc fuel) n (suc j) h =
    let p = pow-suc 2 j in
    let one = one-le-pow j 2 (omega arith) in
    let ih = bit_width_fuel-le fuel (n / 2) j (omega (arith, pow-suc 2 fuel)) in
    (λ l. ground (arith, p, one, ih.0), λ l. ground (arith, p, ih.1))

-- A number has at most `j` binary digits just when it is below 2^j.
bit_width-le : (n j : ℕ) → n < 2 ^ 64 → (bit_width n ≤ j) ↔ (n < 2 ^ j)
unfolding bit_width
bit_width-le n j h = bit_width_fuel-le 64 n j h

pub bucket_of-lt : (v : ℕ) → bucket_of v < 65
unfolding bucket_of
bucket_of-lt v = ground arith

-- A latency of at most 2^63 ns falls into one of the buckets up to `i` just when it is at most the
-- upper end of bucket `i`.
pub bucket_of-le : (v i : ℕ) → v ≤ 2 ^ 63 → i ≤ 64 → (bucket_of v ≤ i) ↔ (v ≤ upper i)
unfolding bucket_of
bucket_of-le v zero hv hi = ground arith
bucket_of-le v (suc j) hv hi =
    let p = one-le-pow j 2 (omega arith) in
    elim (ℕ_discrete v 0) [
      | yes e ↦ rw e ((λ l. omega arith), (λ l. omega arith))
      | no ne ↦
          let t : (v == 0) ≡ false = ground arith in
          let e : sub_u64 v 1 ≡ v - 1 = omega arith in
          let w = bit_width-le (v - 1) j (omega arith) in
          let all : bit_width (v - 1) ≤ 63 =
            (bit_width-le (v - 1) 63 (omega arith)).1 (omega arith) in
          rw (t, e)
            (
              (λ l. let lt : v - 1 < 2 ^ j = w.0 (omega arith) in omega arith),
              (λ l. let le : bit_width (v - 1) ≤ j = w.1 (omega arith) in omega arith),
            )
    ]
