-- ===== src/Benchmark/Reads.antt =====
-- src/benchmark.cpp: `metric`, `latency_metric`, `summarize`, `comparable` and the tests of
-- `parse_report`, on the JSON values of the reports. A call that throws is `none`.
use bengal_market.Base.{
  Bool, Bytes, List, Option, [], codes, eq_text, false, if◌then◌else◌, none, some, true, ℕ, ◌++◌,
  ◌==◌, ◌>>=◌, ◌∷◌,
}
use bengal_market.Benchmark.{Distribution, Summary, distribution}
use bengal_market.Json.{JsonLib}
use bengal_market.Json.Value.{JsonValue, json_number, object_of}
use bengal_market.Pipeline.{report}
use bengal_market.Spsc.Runs.{expected}

-- `distribution` as the JSON value that it returns.
abbrev pub distribution_value : Distribution → JsonValue
distribution_value d = object_of (
    (codes "samples", json_number d.samples)
    ∷ (codes "min", json_number d.least)
    ∷ (codes "p25", json_number d.p25)
    ∷ (codes "median", json_number d.median)
    ∷ (codes "p75", json_number d.p75)
    ∷ (codes "p95", json_number d.p95)
    ∷ (codes "max", json_number d.greatest)
    ∷ [])

-- The five vectors of `summarize`.
pub record Columns : Type 0 where
  pub elapsed : List ℕ
  pub p50 : List ℕ
  pub p95 : List ℕ
  pub p99 : List ℕ
  pub backpressure : List ℕ

abbrev pub no_columns : Columns
no_columns = record { elapsed = []; p50 = []; p95 = []; p99 = []; backpressure = [] }

abbrev pub summary_value : Summary → JsonValue
summary_value s = object_of (
    (codes "elapsed_ns", distribution_value s.elapsed_ns)
    ∷ (codes "stage_latency_p50_ns", distribution_value s.stage_latency_p50_ns)
    ∷ (codes "stage_latency_p95_ns", distribution_value s.stage_latency_p95_ns)
    ∷ (codes "stage_latency_p99_ns", distribution_value s.stage_latency_p99_ns)
    ∷ (codes "backpressure", distribution_value s.backpressure)
    ∷ [])

-- The distributions of the five vectors.
abbrev pub summary_of : Columns → Summary
summary_of c = record {
  elapsed_ns = distribution c.elapsed;
  stage_latency_p50_ns = distribution c.p50;
  stage_latency_p95_ns = distribution c.p95;
  stage_latency_p99_ns = distribution c.p99;
  backpressure = distribution c.backpressure;
}

module _ (J : JsonLib) where
  pub record RunRecord : Type 0 where
    pub iteration : ℕ
    pub order : ℕ
    pub engine : Bytes
    pub output : Bytes
    pub error : Bytes
    pub report : J.Json

  unfoldable pub field_of : J.Json → Bytes → Bytes → Option ℕ
  field_of report group name = do g ← J.at report group; value ← J.at g name; J.get_u64 value

  unfoldable pub latency_of : J.Json → Bytes → Option ℕ
  latency_of report name = do
    pipeline ← J.at report (codes "pipeline")
    latency ← J.at pipeline (codes "latency_ns")
    value ← J.at latency name
    J.get_u64 value

  unfoldable pub push_columns : Columns → RunRecord → Option Columns
  unfolding field_of latency_of
  push_columns c run = do
    elapsed ← field_of run.report (codes "pipeline") (codes "elapsed_ns")
    p50 ← latency_of run.report (codes "p50")
    p95 ← latency_of run.report (codes "p95")
    p99 ← latency_of run.report (codes "p99")
    backpressure ← field_of run.report (codes "pipeline") (codes "backpressure")
    some (record {
      elapsed = c.elapsed ++ elapsed ∷ [];
      p50 = c.p50 ++ p50 ∷ [];
      p95 = c.p95 ++ p95 ∷ [];
      p99 = c.p99 ++ p99 ∷ [];
      backpressure = c.backpressure ++ backpressure ∷ [];
    })

  -- The loop of `summarize`.
  unfoldable pub gather : Bytes → Columns → List RunRecord → Option Columns
  unfolding push_columns
  gather engine c [] = some c
  gather engine c (run ∷ runs) =
      (if eq_text run.engine engine then push_columns c run else some c) >>= λ c'.
      gather engine c' runs

  unfoldable pub summarize_runs : List RunRecord → Bytes → Option JsonValue
  unfolding gather
  summarize_runs runs engine =
      gather engine no_columns runs >>= λ c. some (summary_value (summary_of c))

  -- `a != expected || rest`, turned round: `true` where the report goes on to `rest`.
  abbrev pub and_equal : Option ℕ → ℕ → Option Bool → Option Bool
  and_equal none expected rest = none
  and_equal (some n) expected rest = if n == expected then rest else some false

  -- The loop of `comparable`, with the five values of the first report.
  unfoldable pub runs_agree :
      (events checksum frames gaps out_of_order : ℕ) → List RunRecord → Option Bool
  unfolding field_of latency_of
  runs_agree events checksum frames gaps out_of_order [] = some true
  runs_agree events checksum frames gaps out_of_order (run ∷ runs) =
      let input = field_of run.report (codes "input") in
      let pipeline = field_of run.report (codes "pipeline") in
      and_equal (input (codes "parse_errors")) 0 (
        and_equal (pipeline (codes "dropped")) 0 (
          and_equal (pipeline (codes "events")) events (
            and_equal (pipeline (codes "checksum")) checksum (
              and_equal (input (codes "frames")) frames (
                and_equal (input (codes "sequence_gaps")) gaps (
                  and_equal (input (codes "out_of_order")) out_of_order (
                    and_equal (latency_of run.report (codes "samples")) events
                      (runs_agree events checksum frames gaps out_of_order runs))))))))

  unfoldable pub comparable_runs : List RunRecord → Option Bool
  unfolding runs_agree
  comparable_runs [] = some false
  comparable_runs (first ∷ runs) = do
    events ← field_of first.report (codes "pipeline") (codes "events")
    checksum ← field_of first.report (codes "pipeline") (codes "checksum")
    frames ← field_of first.report (codes "input") (codes "frames")
    gaps ← field_of first.report (codes "input") (codes "sequence_gaps")
    out_of_order ← field_of first.report (codes "input") (codes "out_of_order")
    runs_agree events checksum frames gaps out_of_order (first ∷ runs)

  -- `true` where `parse_report` takes the report.
  unfoldable pub report_fits : J.Json → Bytes → Option Bool
  report_fits report expected_engine = do
    schema ← J.at report (codes "schema_version")
    if J.equals_number schema 1
        then (J.at report (codes "engine") >>= λ engine.
            some (J.equals_text engine expected_engine))
        else some false
