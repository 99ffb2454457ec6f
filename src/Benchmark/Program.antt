-- ===== src/Benchmark/Program.antt =====
-- src/benchmark.cpp `run_benchmark`, over the calls of Host, the JSON library and its `dump` and
-- `dump(2)`.
use bengal_market.AtomicOutput.{created, filename}
use bengal_market.Base.{
  Bytes, Option, [], codes, is_empty, length, ltb, not, some, ℕ, ◌++◌, ◌==◌, ◌||◌, ◌∷◌,
}
use bengal_market.Benchmark.{maximum_runs, maximum_warmups}
use bengal_market.Benchmark.Host.{Build, Host, carry_out, demand, query, ◌//◌}
use bengal_market.Benchmark.Machine.{environment_value, utc_now}
use bengal_market.Benchmark.Manifest.{Facts, manifest_of}
use bengal_market.Benchmark.Page.{html_report}
use bengal_market.Benchmark.Process.{sha256, write_text}
use bengal_market.Benchmark.Reads.{comparable_runs, summarize_runs}
use bengal_market.Benchmark.Replays.{Place, measure, place_at, warm_up}
use bengal_market.Cli.Program.{BenchmarkOptions, BenchmarkResult}
use bengal_market.Effects.{Action, Done, failure, pure, unless, ◌>>=◌, ◌>>◌}
use bengal_market.Json.{JsonLib}
use bengal_market.Json.Value.{JsonValue}

module _ (H : Host) (J : JsonLib) (build : Build) (dump pretty : JsonValue → Option Bytes)
    (fuel : ℕ) where
  open H use {World}

  -- The loops, and the manifest of what they gave.
  unfoldable pub replay_all : BenchmarkOptions → Place → Bytes → Bytes → Action World (Facts J)
  unfolding warm_up measure environment_value comparable_runs summarize_runs utc_now
  replay_all options place digest executable_digest = do
    warm_up H J fuel place 1 options.warmups
    measured ← measure H J fuel place 1 options.runs
    valid ← demand H (comparable_runs J measured) (codes "JSON")
    created ← query H (λ s. some (utc_now H build s)) (codes "")
    size ← query H (H.file_size place.input) (codes "filesystem error")
    environment ← environment_value H build
    bengal_summary ← demand H (summarize_runs J measured (codes "bengal")) (codes "JSON")
    standard_summary ← demand H (summarize_runs J measured (codes "standard")) (codes "JSON")
    pure (record {
      runs = options.runs;
      warmups = options.warmups;
      created = created;
      executable_digest = executable_digest;
      digest = digest;
      name = filename place.input;
      size = size;
      environment = environment;
      valid = valid;
      bengal_summary = bengal_summary;
      standard_summary = standard_summary;
      measured = measured;
    })

  -- The two files of the report, and the name that the directory gets last.
  unfoldable pub publish_report : Place → Facts J → Action World Done
  unfolding write_text html_report manifest_of
  publish_report place facts = do
    text ← demand H (pretty (manifest_of J build facts)) (codes "JSON")
    write_text H (place.working // codes "manifest.json") (text ++ 10 ∷ [])
    page ← demand H (html_report dump (manifest_of J build facts)) (codes "JSON")
    write_text H (place.working // codes "report.html") page
    carry_out H (H.rename place.working place.output) (codes "filesystem error")

  -- From the first replay's directory on.
  unfoldable pub benchmark_at : BenchmarkOptions → Place → Action World (Facts J)
  unfolding sha256 write_text replay_all publish_report
  benchmark_at options place = do
    carry_out H (H.create_directories (place.working // codes "runs")) (codes "filesystem error")
    digest ← sha256 H fuel place.input place.working
    executable_digest ← sha256 H fuel place.executable place.working
    write_text H (place.working // codes "fixture.sha256")
        (digest ++ (codes "  " ++ (filename place.input ++ 10 ∷ [])))
    facts ← replay_all options place digest executable_digest
    publish_report place facts
    pure facts

  abbrev pub check_no_output : Place → Action World Done
  check_no_output place s =
      unless (not (H.exists place.output s || H.exists place.working s))
        (failure (codes "benchmark output or partial output already exists")) s

  -- From the test of the output on.
  unfoldable pub run_at : BenchmarkOptions → Place → Action World BenchmarkResult
  unfolding benchmark_at
  run_at options place = do
    check_no_output place
    facts ← benchmark_at options place
    pure (record {
      output = place.output;
      measured_processes = length facts.measured;
      comparable = facts.valid;
    })

  unfoldable pub run_benchmark : BenchmarkOptions → Action World BenchmarkResult
  unfolding run_at
  run_benchmark options = do
    unless (not (is_empty options.input || is_empty options.output || is_empty options.executable))
        (failure (codes "benchmark input, output, and executable are required"))
    unless (not ((options.runs == 0) || ltb maximum_runs options.runs))
        (failure (codes "benchmark runs must be between 1 and 1000"))
    unless (not (ltb maximum_warmups options.warmups))
        (failure (codes "benchmark warmups must be between 0 and 100"))
    input ← query H (H.canonical options.input) (codes "filesystem error")
    executable ← query H (H.canonical options.executable) (codes "filesystem error")
    output ← query H (H.absolute options.output) (codes "filesystem error")
    run_at options (place_at input executable output)
