-- ===== src/Benchmark/RunTests.antt =====
-- Tests of src/benchmark.cpp `run_benchmark`: one warm-up and one measured round.
use mathlib.Core.Option.{some-injective}
use mathlib.Core.Path.{subst}
use bengal_market.AtomicOutput.{filename}
use bengal_market.Base.{
  Bytes, List, Option, [], codes, false, map, none, refl, some, true, ◌∷◌, ◌≡◌,
}
use bengal_market.Benchmark.{comparable, distribution, plan, plan_from, summarize}
use bengal_market.Benchmark.Computed.{IsComputed}
use bengal_market.Benchmark.Host.{Build, other_status}
use bengal_market.Benchmark.Laws.{ends_in_slash}
use bengal_market.Benchmark.Machine.{
  environment_value, first_matching_line, memory_bytes, read_optional, utc_now,
}
use bengal_market.Benchmark.Manifest.{Facts, manifest_of}
use bengal_market.Benchmark.Memory.{Machine, memory_host, memory_host-IsHost}
use bengal_market.Benchmark.Page.{html_report, html_row}
use bengal_market.Benchmark.PageLaws.{html_report-manifest_of}
use bengal_market.Benchmark.Process.{
  read_text, run_child, run_process, sha256, wait_loop, write_text,
}
use bengal_market.Benchmark.Program.{
  benchmark_at, publish_report, replay_all, run_at, run_benchmark,
}
use bengal_market.Benchmark.Reads.{
  comparable_runs, field_of, gather, latency_of, push_columns, report_fits, runs_agree,
  summarize_runs, summary_value,
}
use bengal_market.Benchmark.Replays.{measure, parse_report, run_replay, stem_of, warm_up}
use bengal_market.Benchmark.Shown.{typed}
use bengal_market.Benchmark.Tests.{report_table, sample_report, sample_runs, sample_runs-IsRunOf}
use bengal_market.Benchmark.Verdict.{reports-read_back}
use bengal_market.Benchmark.Whole.{IsBenchmark, IsWithout, run_benchmark-IsSafe}
use bengal_market.Charconv.Print.{print_uint}
use bengal_market.Cli.Program.{BenchmarkOptions}
use bengal_market.Effects.{Outcome, returned, ◌>>=◌}
use bengal_market.Json.Table.{table_library, table_library-IsJson}
use bengal_market.Json.Value.{JsonValue, json_string}
use bengal_market.Report.Text.{report_value}

-- A replay prints the name of its engine, which stands for its report.
abbrev run_table : List (Bytes × JsonValue)
run_table =
    (codes "bengal", report_value (codes "1.0") sample_report)
    ∷ (
      codes "standard",
      report_value (codes "1.0") (record sample_report { engine = codes "standard" }),
    )
    ∷ []

abbrev run_build : Build
run_build = record {
  version = codes "1";
  source_revision = codes "r";
  bengal_version = codes "1.0";
  compiler = codes "c";
}

abbrev run_options : BenchmarkOptions
run_options = record {
  input = codes "in.jsonl";
  output = codes "out";
  executable = codes "tool";
  runs = 1;
  warmups = 1;
}

abbrev run_dump : JsonValue → Option Bytes
run_dump v = some (codes "1")

abbrev empty_disk : Machine
empty_disk = record { names = []; files = λ p. none; opened = []; status = other_status }

benchmark_run :
    (run_benchmark memory_host
      (table_library run_table)
      run_build
      run_dump
      run_dump
      1
      run_options
      empty_disk).0
    ≡ returned (record { output = codes "out"; measured_processes = 2; comparable = true })
unfolding run_benchmark run_at benchmark_at replay_all publish_report sha256 run_process run_child
    wait_loop read_text write_text warm_up measure run_replay parse_report report_fits report_value
    stem_of comparable_runs runs_agree field_of latency_of summarize_runs gather push_columns
    html_report html_row manifest_of environment_value ◌>>=◌ print_uint distribution utc_now
    memory_bytes read_optional first_matching_line filename
benchmark_run = refl

run_benchmark-IsSafe_example :
    Outcome
      (IsBenchmark memory_host-IsHost
        (table_library run_table)
        run_build
        run_dump
        run_dump
        run_options
        empty_disk)
      (IsWithout memory_host-IsHost
        (table_library run_table)
        run_build
        run_dump
        run_dump
        run_options
        empty_disk)
      (run_benchmark memory_host
        (table_library run_table)
        run_build
        run_dump
        run_dump
        1
        run_options
        empty_disk)
run_benchmark-IsSafe_example =
    run_benchmark-IsSafe memory_host-IsHost (table_library run_table) run_build run_dump run_dump
      run_options empty_disk
      (λ output e.
        subst (λ o. ends_in_slash o ≡ false) (some-injective (codes "out") output e) refl)

abbrev sample_facts : Facts (table_library report_table)
sample_facts = record {
  runs = 1;
  warmups = 1;
  created = codes "now";
  executable_digest = codes "e";
  digest = codes "d";
  name = codes "in.jsonl";
  size = 1;
  environment = json_string (codes "here");
  valid = comparable (map (λ x. x.1) sample_runs);
  bengal_summary = summary_value (
      summarize (map (typed ((table_library-IsJson report_table).shown) (codes "1.0")) sample_runs)
        (codes "bengal"));
  standard_summary = summary_value (
      summarize (map (typed ((table_library-IsJson report_table).shown) (codes "1.0")) sample_runs)
        (codes "standard"));
  measured = map (λ x. x.0) sample_runs;
}

sample_read :
    (engine : Bytes)
    → (comparable_runs (table_library report_table) (map (λ x. x.0) sample_runs)
        ≡ some (comparable (map (λ x. x.1) sample_runs)))
      × (summarize_runs (table_library report_table) (map (λ x. x.0) sample_runs) engine
          ≡ some (
              summary_value (
                summarize
                  (map
                    (typed ((table_library-IsJson report_table).shown) (codes "1.0"))
                    sample_runs)
                  engine)))
sample_read engine =
    reports-read_back ((table_library-IsJson report_table).shown) (codes "1.0") sample_runs engine
      sample_runs-IsRunOf

sample_facts-IsComputed : IsComputed (table_library report_table) run_options sample_facts
unfolding plan plan_from
sample_facts-IsComputed = record {
  runs = refl;
  warmups = refl;
  order = refl;
  verdict = (sample_read []).0;
  bengal_side = (sample_read (codes "bengal")).1;
  standard_side = (sample_read (codes "standard")).1;
}

html_report-manifest_of_example :
    (page : Bytes) × (html_report run_dump
        (manifest_of (table_library report_table) run_build sample_facts)
      ≡ some page)
html_report-manifest_of_example =
    html_report-manifest_of run_dump (λ n. (codes "1", refl)) (table_library report_table) run_build
      run_options sample_facts sample_facts-IsComputed
