-- ===== src/Cli/Program.antt =====
-- src/main.cpp: `main`, over the parts of the program that it calls.
pub mod Refused
pub mod Exits
mod Tests
use bengal_market.Base.{
  Bool, Bytes, List, Option, [], codes, eq_text, if◌then◌else◌, ltb, none, some, true, ℕ, ◌&&◌, ◌*◌,
  ◌+◌, ◌==◌, ◌^◌, ◌||◌, ◌∷◌,
}
use bengal_market.Cli.{
  Arguments, parse_arguments, reject_unknown, required, unsigned_value, value_or,
}
use bengal_market.Effects.{
  Action, Done, Fault, Result, failure, out_of_fuel, pure, raise, raised, returned, unless, ◌>>=◌,
  ◌>>◌,
}
use bengal_market.Live.{CaptureOptions, CaptureResult}
use bengal_market.Pipeline.{report}
use bengal_market.Report.{PipelineEngine, ReplayReport, bengal, reports_comparable, standard}

pub record BenchmarkOptions : Type 0 where
  pub input : Bytes
  pub output : Bytes
  pub executable : Bytes
  pub runs : ℕ
  pub warmups : ℕ

pub record BenchmarkResult : Type 0 where
  pub output : Bytes
  pub measured_processes : ℕ
  pub comparable : Bool

-- What `main` calls: the commands, the stream for what it says, and the signal handlers. `complain`
-- is the line that the handler of `std::exception` writes.
pub record Parts : Type 1 where
  pub World : Type 0
  pub has_live : Bool
  pub usage : World → Unit {0} × World
  pub print : Bytes → World → Unit {0} × World
  pub complain : Fault → World → Unit {0} × World
  pub generate_fixture : Bytes → ℕ → Bytes → Action World Done
  pub replay : Bytes → PipelineEngine → Action World ReplayReport
  pub canonical : Bytes → Action World Bytes
  pub run_benchmark : BenchmarkOptions → Action World BenchmarkResult
  pub capture_live : CaptureOptions → Action World CaptureResult
  pub open_signals : Action World Done
  pub close_signals : World → Unit {0} × World
  pub capture_signal : World → ℕ
  pub version_text : Bytes
  pub report_json : ReplayReport → Bytes
  pub comparison_json : ReplayReport → ReplayReport → Bytes
  -- `none` is the exception of a text that is not UTF-8.
  pub benchmark_json : BenchmarkResult → Option Bytes
  pub capture_json : CaptureResult → ℕ → Option Bytes

module _ (P : Parts) where
  open P use {World}

  abbrev pub call : {A : Type 0} → (World → A × World) → Action World A
  call f s = (returned (f s).0, (f s).1)

  abbrev pub or_invalid : {A : Type 0} → Option A → Action World A
  or_invalid none = raise (failure (codes "invalid argument"))
  or_invalid (some a) = pure a

  -- `dump` of a JSON value, which may hold a path.
  abbrev pub dumped : Option Bytes → Action World Bytes
  dumped none = raise (failure (codes "[json.exception.type_error.316] "))
  dumped (some text) = pure text

  abbrev pub reject : Arguments → List Bytes → Action World Done
  reject options accepted =
      unless (reject_unknown options accepted) (failure (codes "unknown option --"))

  pub generate_command : Arguments → Action World ℕ
  generate_command options = do
    reject options (codes "output" ∷ codes "events" ∷ codes "product" ∷ [])
    output ← or_invalid (required options (codes "output"))
    events ← or_invalid (unsigned_value options (codes "events") 10000)
    P.generate_fixture output events (value_or options (codes "product") (codes "BTC-USD"))
    pure 0

  abbrev pub engine_of : Bytes → Option PipelineEngine
  engine_of name =
      if eq_text name (codes "bengal")
      then some bengal
      else if eq_text name (codes "standard")
      then some standard
      else none

  abbrev pub replay_exit : ReplayReport → ℕ
  replay_exit report = if (report.input.parse_errors == 0) && (report.dropped == 0) then 0 else 1

  pub replay_command : Arguments → Action World ℕ
  replay_command options = do
    reject options (codes "input" ∷ codes "engine" ∷ [])
    engine ← or_invalid (engine_of (value_or options (codes "engine") (codes "bengal")))
    input ← or_invalid (required options (codes "input"))
    report ← P.replay input engine
    call (P.print (P.report_json report))
    pure (replay_exit report)

  pub compare_command : Arguments → Action World ℕ
  compare_command options = do
    reject options (codes "input" ∷ [])
    input ← or_invalid (required options (codes "input"))
    first ← P.replay input bengal
    second ← P.replay input standard
    call (P.print (P.comparison_json first second))
    pure (if reports_comparable first second then 0 else 1)

  pub benchmark_command : Arguments → Action World ℕ
  benchmark_command options = do
    reject options (codes "input" ∷ codes "output" ∷ codes "runs" ∷ codes "warmup" ∷ [])
    input ← or_invalid (required options (codes "input"))
    output ← or_invalid (required options (codes "output"))
    executable ← P.canonical (codes "/proc/self/exe")
    runs ← or_invalid (unsigned_value options (codes "runs") 10)
    warmups ← or_invalid (unsigned_value options (codes "warmup") 1)
    result ← P.run_benchmark (record {
      input = input;
      output = output;
      executable = executable;
      runs = runs;
      warmups = warmups;
    })
    text ← dumped (P.benchmark_json result)
    call (P.print text)
    pure (if result.comparable then 0 else 1)

  -- `std::chrono::seconds` of a `uint64_t`: what is negative there is no duration.
  abbrev pub seconds_ns : ℕ → ℕ
  seconds_ns n = if ltb n (2 ^ 63) then n * 1000000000 else 0

  -- With the handlers installed, `m`; they are taken back however it ends.
  abbrev pub with_signals : {A : Type 0} → Action World A → Action World A
  with_signals m = P.open_signals >> λ s. ((m s).0, (P.close_signals (m s).1).1)

  pub capture_command : Arguments → Action World ℕ
  capture_command options = do
    reject options (codes "output" ∷ codes "product" ∷ codes "duration" ∷ codes "endpoint" ∷ [])
    unless P.has_live (failure (codes "live capture was disabled at build time"))
    output ← or_invalid (required options (codes "output"))
    seconds ← or_invalid (unsigned_value options (codes "duration") 30)
    with_signals (do
      result ← P.capture_live (record {
        output = output;
        product_ids = value_or options (codes "product") (codes "BTC-USD") ∷ [];
        duration_ns = seconds_ns seconds;
        endpoint =
            value_or options (codes "endpoint") (codes "wss://advanced-trade-ws.coinbase.com");
        stop_given = true;
      })
      signal ← call (λ s. (P.capture_signal s, s))
      text ← dumped (P.capture_json result signal)
      call (P.print text)
      pure (if signal == 0 then 0 else 128 + signal))

  pub run_command : Bytes → Arguments → Action World ℕ
  unfolding generate_command replay_command compare_command benchmark_command capture_command
  run_command command options =
      if eq_text command (codes "generate")
      then generate_command options
      else if eq_text command (codes "replay")
      then replay_command options
      else if eq_text command (codes "compare")
      then compare_command options
      else if eq_text command (codes "benchmark")
      then benchmark_command options
      else if eq_text command (codes "capture")
      then capture_command options
      else (call P.usage >> pure 2)

  abbrev pub is_help : Bytes → Bool
  is_help word = eq_text word (codes "--help") || eq_text word (codes "-h")

  -- The `try` block, from `argv[1]` on.
  pub dispatch : List Bytes → Action World ℕ
  unfolding run_command
  dispatch [] = call P.usage >> pure 2
  dispatch (command ∷ []) =
      if is_help command
      then (call P.usage >> pure 0)
      else if eq_text command (codes "--version")
      then (call (P.print P.version_text) >> pure 0)
      else run_command command []
  dispatch (command ∷ word ∷ words) =
      or_invalid (parse_arguments (word ∷ words)) >>= run_command command

  -- The handler of `std::exception`.
  abbrev pub exit_of : Result ℕ × World → Result ℕ × World
  exit_of (returned n, s) = (returned n, s)
  exit_of (raised e, s) = (returned 2, (P.complain e s).1)
  exit_of (out_of_fuel, s) = (out_of_fuel, s)

  unfoldable pub main : List Bytes → Action World ℕ
  unfolding dispatch
  main words s = exit_of (dispatch words s)
