-- ===== src/Benchmark/Tests.antt =====
-- Tests of the benchmark's parts.
use bengal_market.Base.{
  All, Bytes, List, [], arith, codes, map, refl, some, true, ◌*◌, ◌<◌, ◌↔◌, ◌∷◌, ◌≡◌, ◌≤◌,
}
use bengal_market.Benchmark.{comparable, distribution, html_escape, nearest_rank, summarize}
use bengal_market.Benchmark.Agree.{Agrees, comparable-Agrees}
use bengal_market.Benchmark.Escape.{Displays, html_escape-Displays}
use bengal_market.Benchmark.Ranks.{count_le, count_lt, nearest_rank-counts}
use bengal_market.Benchmark.Reads.{RunRecord, comparable_runs, summarize_runs, summary_value}
use bengal_market.Benchmark.Shown.{IsRunOf, IsWord, typed}
use bengal_market.Benchmark.Sorting.{distribution-median}
use bengal_market.Benchmark.Verdict.{reports-read_back}
use bengal_market.Json.Same.{same_value}
use bengal_market.Json.Table.{table_library, table_library-IsJson}
use bengal_market.Json.Value.{JsonValue, json_weight}
use bengal_market.Report.{ReplayReport}
use bengal_market.Report.Text.{report_json, report_value}

abbrev pub sample_report : ReplayReport
sample_report = record {
  engine = codes "bengal";
  input = record { frames = 3; parse_errors = 0; sequence_gaps = 1; out_of_order = 0 };
  stage_latency = record {
    samples = 2;
    minimum_ns = 5;
    p50_ns = 8;
    p95_ns = 8;
    p99_ns = 8;
    maximum_ns = 7;
  };
  events = 2;
  dropped = 0;
  backpressure = 0;
  checksum = 77;
  elapsed_ns = 1000;
}

comparable-Agrees_example :
    (comparable (sample_report ∷ record sample_report { engine = codes "standard" } ∷ []) ≡ true)
    ↔ All
        (Agrees sample_report)
        (sample_report ∷ record sample_report { engine = codes "standard" } ∷ [])
comparable-Agrees_example =
    comparable-Agrees sample_report (record sample_report { engine = codes "standard" } ∷ [])

nearest_rank-counts_example :
    (3 * 50 ≤ 100 * count_le (nearest_rank (10 ∷ 20 ∷ 30 ∷ []) 50) (10 ∷ 20 ∷ 30 ∷ []))
    × (100 * count_lt (nearest_rank (10 ∷ 20 ∷ 30 ∷ []) 50) (10 ∷ 20 ∷ 30 ∷ []) < 3 * 50)
nearest_rank-counts_example =
    nearest_rank-counts (10 ∷ 20 ∷ 30 ∷ []) 50 (λ e. cc e)
      ((omega arith, (omega arith, tt)), ((omega arith, tt), (tt, tt))) (omega arith) (omega arith)
      (omega arith)

html_escape-Displays_example : Displays (html_escape (codes "<a&b>")) (codes "<a&b>")
html_escape-Displays_example = html_escape-Displays (codes "<a&b>")

distribution-median_example :
    (3 * 50 ≤ 100 * count_le (distribution (30 ∷ 10 ∷ 20 ∷ [])).median (30 ∷ 10 ∷ 20 ∷ []))
    × (100 * count_lt (distribution (30 ∷ 10 ∷ 20 ∷ [])).median (30 ∷ 10 ∷ 20 ∷ []) < 3 * 50)
distribution-median_example = distribution-median (30 ∷ 10 ∷ 20 ∷ []) (λ e. cc e) (omega arith)

abbrev pub report_table : List (Bytes × JsonValue)
report_table =
    (codes "A", report_value (codes "1.0") sample_report)
    ∷ (codes "B", report_value (codes "1.0") (record sample_report { engine = codes "standard" }))
    ∷ []

abbrev pub sample_runs : List (RunRecord (table_library report_table) × ReplayReport)
sample_runs =
    (
      record {
        iteration = 1;
        order = 1;
        engine = codes "bengal";
        output = codes "a.json";
        error = codes "a.txt";
        report = report_value (codes "1.0") sample_report;
      },
      sample_report,
    )
    ∷ (
      record {
        iteration = 1;
        order = 2;
        engine = codes "standard";
        output = codes "b.json";
        error = codes "b.txt";
        report = report_value (codes "1.0") (record sample_report { engine = codes "standard" });
      },
      record sample_report { engine = codes "standard" },
    )
    ∷ []

sample_words : (engine : Bytes) → IsWord (record sample_report { engine = engine })
sample_words engine = record {
  frames = omega arith;
  parse_errors = omega arith;
  sequence_gaps = omega arith;
  out_of_order = omega arith;
  events = omega arith;
  dropped = omega arith;
  backpressure = omega arith;
  checksum = omega arith;
  elapsed_ns = omega arith;
  samples = omega arith;
  p50_ns = omega arith;
  p95_ns = omega arith;
  p99_ns = omega arith;
}

pub sample_runs-IsRunOf :
    All (IsRunOf ((table_library-IsJson report_table).shown) (codes "1.0")) sample_runs
unfolding report_json report_value same_value json_weight
sample_runs-IsRunOf = (
  record { text = codes "A"; written = refl; parsed = refl; words = sample_words (codes "bengal") },
  (
    record {
      text = codes "B";
      written = refl;
      parsed = refl;
      words = sample_words (codes "standard");
    },
    tt,
  ),
)

reports-read_back_example :
    (comparable_runs (table_library report_table) (map (λ x. x.0) sample_runs)
      ≡ some (comparable (map (λ x. x.1) sample_runs)))
    × (summarize_runs (table_library report_table) (map (λ x. x.0) sample_runs) (codes "bengal")
        ≡ some (
            summary_value (
              summarize
                (map (typed ((table_library-IsJson report_table).shown) (codes "1.0")) sample_runs)
                (codes "bengal"))))
reports-read_back_example =
    reports-read_back ((table_library-IsJson report_table).shown) (codes "1.0") sample_runs
      (codes "bengal") sample_runs-IsRunOf
