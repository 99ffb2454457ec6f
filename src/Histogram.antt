-- ===== src/Histogram.antt =====
-- src/core.cpp: `latency_histogram`, latencies counted by powers of two, and its quantiles.
pub mod Buckets
pub mod Inv
pub mod Quantile
mod Tests
use bengal_market.Base.{
  List, [], get_or, if◌then◌else◌, leb, ltb, max, min, replicate, set, suc, zero, ℕ, ◌+◌, ◌-◌, ◌/◌,
  ◌==◌, ◌^◌, ◌∷◌,
}
use bengal_market.Base.Words.{add_u64, max_u64, mul_u64, sub_u64}

-- `std::bit_width`: the number of binary digits.
pub bit_width_fuel : ℕ → ℕ → ℕ
bit_width_fuel zero n = 0
bit_width_fuel (suc fuel) n =
    let rest = bit_width_fuel fuel (n / 2) in if n == 0 then 0 else suc rest

-- 64 rounds are enough for a `uint64_t`.
unfoldable pub bit_width : ℕ → ℕ
unfolding bit_width_fuel
bit_width n = bit_width_fuel 64 n

abbrev pub bucket_count : ℕ
bucket_count = 65

pub record Histogram : Type 0 where
  pub buckets : List ℕ
  pub samples : ℕ
  pub minimum : ℕ
  pub maximum : ℕ

abbrev pub empty : Histogram
empty = record { buckets = replicate bucket_count 0; samples = 0; minimum = max_u64; maximum = 0 }

pub bucket_of : ℕ → ℕ
bucket_of value = if value == 0 then 0 else min (bit_width (sub_u64 value 1) + 1) (bucket_count - 1)

unfoldable pub observe : Histogram → ℕ → Histogram
observe h value =
    let bucket = bucket_of value in
    record {
      buckets = set h.buckets bucket (add_u64 (get_or h.buckets bucket 0) 1);
      samples = add_u64 h.samples 1;
      minimum = min h.minimum value;
      maximum = max h.maximum value;
    }

-- The loop of `quantile` over the buckets from `index` on; the array has 65 of them, and a run past
-- its end returns the maximum.
pub quantile_loop : List ℕ → ℕ → ℕ → ℕ → ℕ → ℕ
quantile_loop [] index cumulative target maximum = maximum
quantile_loop (count ∷ rest) index cumulative target maximum =
    let total = add_u64 cumulative count in
    let later = quantile_loop rest (index + 1) total target maximum in
    if leb target total
    then (if index == 0 then 0 else if ltb 64 index then max_u64 else 2 ^ (index - 1))
    else later

pub quantile : Histogram → ℕ → ℕ
quantile h percentile =
    quantile_loop h.buckets 0 0 (add_u64 (mul_u64 h.samples percentile) 99 / 100) h.maximum

-- `latency_summary` of include/bengal_market/model.hpp.
pub record LatencySummary : Type 0 where
  pub samples : ℕ
  pub minimum_ns : ℕ
  pub p50_ns : ℕ
  pub p95_ns : ℕ
  pub p99_ns : ℕ
  pub maximum_ns : ℕ

unfoldable pub summary : Histogram → LatencySummary
summary h =
    if h.samples == 0
    then record { samples = 0; minimum_ns = 0; p50_ns = 0; p95_ns = 0; p99_ns = 0; maximum_ns = 0 }
    else record {
      samples = h.samples;
      minimum_ns = h.minimum;
      p50_ns = quantile h 50;
      p95_ns = quantile h 95;
      p99_ns = quantile h 99;
      maximum_ns = h.maximum;
    }

-- The histogram after a run of latencies, the newest first.
unfoldable pub after : List ℕ → Histogram
after [] = empty
after (v ∷ vs) = observe (after vs) v

-- For the modules that compute with a histogram.
unfoldable pub histogram_code : Unit {0}
unfolding summary quantile quantile_loop after observe bucket_of bit_width
histogram_code = tt
