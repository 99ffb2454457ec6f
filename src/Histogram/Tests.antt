-- ===== src/Histogram/Tests.antt =====
-- A histogram at work, and the properties at concrete inputs.
use mathlib.Core.List.{cons-ne-nil}
use bengal_market.Base.{List, [], arith, refl, ℕ, ◌^◌, ◌∷◌, ◌≡◌}
use bengal_market.Base.Words.{max_u64}
use bengal_market.Histogram.{after, histogram_code, quantile, summary}
use bengal_market.Histogram.Inv.{Describes, after-Describes}
use bengal_market.Histogram.Quantile.{RoundsUp, quantile-RoundsUp, rank}

abbrev latencies : List ℕ
latencies = 1000 ∷ 3 ∷ 2 ∷ 1 ∷ 0 ∷ []

quantiles : summary (after latencies) ≡ record {
  samples = 5;
  minimum_ns = 0;
  p50_ns = 2;
  p95_ns = 1024;
  p99_ns = 1024;
  maximum_ns = 1000;
}
unfolding histogram_code
quantiles = refl

-- A latency above 2^63 ns is reported as 2^63: the branch for an index above 64 is never taken.
saturates : quantile (after (max_u64 ∷ [])) 50 ≡ 2 ^ 63
unfolding histogram_code
saturates = refl

after-Describes_example : Describes (after latencies) latencies
after-Describes_example = after-Describes latencies (omega arith) (omega arith)

quantile-RoundsUp_example : RoundsUp latencies (rank 5 95) (quantile (after latencies) 95)
quantile-RoundsUp_example =
    quantile-RoundsUp latencies 95 (cons-ne-nil 1000 _) (omega arith) (omega arith) (omega arith)
      (omega arith)
