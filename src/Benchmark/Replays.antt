-- ===== src/Benchmark/Replays.antt =====
-- src/benchmark.cpp: `parse_report`, and of `run_benchmark` one replay (`run_replay`) and the two loops
-- over replays.
use bengal_market.Base.{
  Bool, Bytes, List, Option, [], codes, false, if◌then◌else◌, ltb, none, not, some, suc, true, zero,
  ℕ, ◌%◌, ◌++◌, ◌+◌, ◌==◌, ◌∷◌,
}
use bengal_market.Benchmark.{EngineName, Planned, bengal, standard}
use bengal_market.Benchmark.Host.{Host, carry_out, demand, query, ◌//◌}
use bengal_market.Benchmark.Process.{read_text, run_process}
use bengal_market.Benchmark.Reads.{RunRecord, report_fits}
use bengal_market.Charconv.Print.{print_uint}
use bengal_market.Decimal.{set_width}
use bengal_market.Effects.{Action, Done, cut_off, failure, pure, raise, unless, ◌>>=◌, ◌>>◌}
use bengal_market.Json.{JsonLib}
use bengal_market.Pipeline.{report}

abbrev pub engine_text : EngineName → Bytes
engine_text bengal = codes "bengal"
engine_text standard = codes "standard"

-- The file names of a replay, without their ends.
unfoldable pub stem_of : Bool → Planned → Bytes
stem_of measured p =
    (if measured then codes "run-" else codes "warmup-")
    ++ (set_width 3 (print_uint p.iteration)
        ++ (codes "-order-"
            ++ (set_width 2 (print_uint p.order) ++ (codes "-" ++ engine_text p.engine))))

-- What `run_benchmark` has computed before the first replay.
pub record Place : Type 0 where
  pub input : Bytes
  pub executable : Bytes
  pub output : Bytes
  pub working : Bytes

abbrev pub place_at : Bytes → Bytes → Bytes → Place
place_at input executable output = record {
  input = input;
  executable = executable;
  output = output;
  working = output ++ codes ".part";
}

abbrev pub replay_of : ℕ → ℕ → Bool → Planned
replay_of iteration order bengal_turn = record {
  iteration = iteration;
  order = order;
  engine = if bengal_turn then bengal else standard;
}

module _ (H : Host) (J : JsonLib) (fuel : ℕ) where
  open H use {World}

  unfoldable pub parse_report : Bytes → Bytes → Action World J.Json
  unfolding read_text report_fits
  parse_report path expected_engine = do
    text ← read_text H path
    report ← demand H (J.parse text) (codes "JSON")
    fits ← demand H (report_fits J report expected_engine) (codes "JSON")
    unless fits (failure (codes "child replay returned an incompatible report: "))
    pure report

  -- The test of the exit code.
  abbrev pub check_replay : ℕ → Bytes → Action World Done
  check_replay code standard_error = if ltb 1 code then failed else pure tt
    where
      failed : Action World Done
      failed = do
        text ← read_text H standard_error
        raise (failure (codes "replay process failed with exit code "))

  abbrev pub remove_outputs : Bytes → Bytes → Action World (Option (RunRecord J))
  remove_outputs standard_output standard_error = do
    carry_out H (H.remove standard_output) (codes "filesystem error")
    carry_out H (H.remove standard_error) (codes "filesystem error")
    pure none

  abbrev pub keep_run :
      Place → Planned → Bytes → Bytes → J.Json → Action World (Option (RunRecord J))
  keep_run place p standard_output standard_error report = do
    output ← query H (H.relative standard_output place.working) (codes "filesystem error")
    error ← query H (H.relative standard_error place.working) (codes "filesystem error")
    pure (
        some (record {
          iteration = p.iteration;
          order = p.order;
          engine = engine_text p.engine;
          output = output;
          error = error;
          report = report;
        }))

  unfoldable pub run_replay : Place → Bool → Planned → Action World (Option (RunRecord J))
  unfolding run_process read_text stem_of parse_report
  run_replay place measured p = do
    let base = if measured then place.working // codes "runs" else place.working
    let standard_output = base // (stem_of measured p ++ codes ".json")
    let standard_error = base // (stem_of measured p ++ codes ".stderr.txt")
    code ←
        run_process H fuel place.executable
          (codes "replay"
            ∷ codes "--input"
            ∷ place.input
            ∷ codes "--engine"
            ∷ engine_text p.engine
            ∷ [])
          standard_output standard_error
    check_replay code standard_error
    report ← parse_report standard_output (engine_text p.engine)
    if measured
        then keep_run place p standard_output standard_error report
        else remove_outputs standard_output standard_error

  -- The warm-up loop from `iteration` on, by the rounds left.
  unfoldable pub warm_up : Place → ℕ → ℕ → Action World Done
  unfolding run_replay
  warm_up place iteration zero = pure tt
  warm_up place iteration (suc more) = do
    let bengal_first = not (iteration % 2 == 0)
    first ← run_replay place false (replay_of iteration 1 bengal_first)
    second ← run_replay place false (replay_of iteration 2 (not bengal_first))
    warm_up place (iteration + 1) more

  -- `*` of an optional that has nothing is undefined.
  abbrev pub dereference : {A : Type 0} → Option A → Action World A
  dereference none = cut_off
  dereference (some a) = pure a

  -- The measuring loop.
  unfoldable pub measure : Place → ℕ → ℕ → Action World (List (RunRecord J))
  unfolding run_replay
  measure place iteration zero = pure []
  measure place iteration (suc more) = do
    let bengal_first = not (iteration % 2 == 0)
    o ← run_replay place true (replay_of iteration 1 bengal_first)
    first ← dereference o
    o' ← run_replay place true (replay_of iteration 2 (not bengal_first))
    second ← dereference o'
    runs ← measure place (iteration + 1) more
    pure (first ∷ second ∷ runs)
