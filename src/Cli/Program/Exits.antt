-- ===== src/Cli/Program/Exits.antt =====
-- src/main.cpp `main`: its exit codes.
use bengal_market.Base.{
  Bool, Bytes, List, [], codes, eq_text, false, some, true, ℕ, ◌+◌, ◌<◌, ◌∷◌, ◌≡◌, ◌⊎◌,
}
use bengal_market.Cli.{Arguments, parse_arguments, required, unsigned_value, value_or}
use bengal_market.Cli.Program.{
  BenchmarkOptions, BenchmarkResult, Parts, dispatch, engine_of, is_help,
}
use bengal_market.Effects.{Action, Done, Fault, Outcome, raised, returned}
use bengal_market.Live.{CaptureOptions, CaptureResult}
use bengal_market.Report.{PipelineEngine, ReplayReport, bengal, reports_comparable, standard}

module _ (P : Parts) where
  -- The parts come to an end.
  pub record IsEnding : Type 0 where
    pub generate_ends :
        (output : Bytes) (n : ℕ) (product : Bytes) (s : P.World)
        → Outcome (λ u s. Done) (λ s. Done) (P.generate_fixture output n product s)
    pub replay_ends :
        (input : Bytes) (engine : PipelineEngine) (s : P.World)
        → Outcome (λ r s. Done) (λ s. Done) (P.replay input engine s)
    pub canonical_ends :
        (path : Bytes) (s : P.World) → Outcome (λ r s. Done) (λ s. Done) (P.canonical path s)
    pub benchmark_ends :
        (options : BenchmarkOptions) (s : P.World)
        → Outcome (λ r s. Done) (λ s. Done) (P.run_benchmark options s)
    pub capture_ends :
        (options : CaptureOptions) (s : P.World)
        → Outcome (λ r s. Done) (λ s. Done) (P.capture_live options s)
    pub signals_end : (s : P.World) → Outcome (λ u s. Done) (λ s. Done) (P.open_signals s)

-- The exit code that a command line and the outcomes of the parts ask for: `IsExit P words s n`.
pub data IsExit (P : Parts) : List Bytes → P.World → ℕ → Type 0 where
  told :
      {command : Bytes} {s : P.World}
      → (is_help P command ≡ true) ⊎ (eq_text command (codes "--version") ≡ true)
      → IsExit P (command ∷ []) s 0
  generated :
      {command : Bytes} {words : List Bytes} {s s' : P.World}
      → eq_text command (codes "generate") ≡ true
      → (options : Arguments) → parse_arguments words ≡ some options
      → (output product : Bytes) (n : ℕ) → required options (codes "output") ≡ some output
      → unsigned_value options (codes "events") 10000 ≡ some n
      → value_or options (codes "product") (codes "BTC-USD") ≡ product
      → P.generate_fixture output n product s ≡ (returned tt, s')
      → IsExit P (command ∷ words) s 0
  replayed_clean :
      {command : Bytes} {words : List Bytes} {s s' : P.World}
      → eq_text command (codes "replay") ≡ true
      → (options : Arguments) → parse_arguments words ≡ some options
      → (input : Bytes) (engine : PipelineEngine) (report : ReplayReport)
      → required options (codes "input") ≡ some input
      → engine_of P (value_or options (codes "engine") (codes "bengal")) ≡ some engine
      → P.replay input engine s ≡ (returned report, s')
      → report.input.parse_errors ≡ 0
      → report.dropped ≡ 0
      → IsExit P (command ∷ words) s 0
  replayed_unclean :
      {command : Bytes} {words : List Bytes} {s s' : P.World}
      → eq_text command (codes "replay") ≡ true
      → (options : Arguments) → parse_arguments words ≡ some options
      → (input : Bytes) (engine : PipelineEngine) (report : ReplayReport)
      → required options (codes "input") ≡ some input
      → engine_of P (value_or options (codes "engine") (codes "bengal")) ≡ some engine
      → P.replay input engine s ≡ (returned report, s')
      → 0 < report.input.parse_errors + report.dropped
      → IsExit P (command ∷ words) s 1
  compared :
      {command : Bytes} {words : List Bytes} {s s' s2 : P.World}
      → eq_text command (codes "compare") ≡ true
      → (options : Arguments) → parse_arguments words ≡ some options
      → (input : Bytes) (first second : ReplayReport) (same : Bool)
      → required options (codes "input") ≡ some input
      → P.replay input bengal s ≡ (returned first, s')
      → P.replay input standard s' ≡ (returned second, s2)
      → reports_comparable first second ≡ same
      → IsExit P (command ∷ words) s (elim same [ true ↦ 0 | false ↦ 1 ])
  benchmarked :
      {command : Bytes} {words : List Bytes} {s s' s2 : P.World}
      → eq_text command (codes "benchmark") ≡ true
      → (given : Arguments) → parse_arguments words ≡ some given
      → (executable : Bytes) (options : BenchmarkOptions) (result : BenchmarkResult) (same : Bool)
      → required given (codes "input") ≡ some options.input
      → required given (codes "output") ≡ some options.output
      → P.canonical (codes "/proc/self/exe") s ≡ (returned executable, s')
      → P.run_benchmark options s' ≡ (returned result, s2)
      → result.comparable ≡ same
      → IsExit P (command ∷ words) s (elim same [ true ↦ 0 | false ↦ 1 ])
  captured_whole :
      {command : Bytes} {words : List Bytes} {s s' s2 : P.World}
      → eq_text command (codes "capture") ≡ true
      → (given : Arguments) → parse_arguments words ≡ some given
      → (options : CaptureOptions) (result : CaptureResult)
      → required given (codes "output") ≡ some options.output
      → P.open_signals s ≡ (returned tt, s')
      → P.capture_live options s' ≡ (returned result, s2)
      → P.capture_signal s2 ≡ 0
      → IsExit P (command ∷ words) s 0
  captured_signalled :
      {command : Bytes} {words : List Bytes} {s s' s2 : P.World}
      → eq_text command (codes "capture") ≡ true
      → (given : Arguments) → parse_arguments words ≡ some given
      → (options : CaptureOptions) (result : CaptureResult) (signal : ℕ)
      → required given (codes "output") ≡ some options.output
      → P.open_signals s ≡ (returned tt, s')
      → P.capture_live options s' ≡ (returned result, s2)
      → P.capture_signal s2 ≡ signal
      → 0 < signal
      → IsExit P (command ∷ words) s (128 + signal)
  no_command : {s : P.World} → IsExit P [] s 2
  unknown_command :
      {command : Bytes} {words : List Bytes} {s : P.World}
      → eq_text command (codes "generate") ≡ false
      → eq_text command (codes "replay") ≡ false
      → eq_text command (codes "compare") ≡ false
      → eq_text command (codes "benchmark") ≡ false
      → eq_text command (codes "capture") ≡ false
      → IsExit P (command ∷ words) s 2
  failed :
      {words : List Bytes} {s s' : P.World} {e : Fault}
      → dispatch P words s ≡ (raised e, s')
      → IsExit P words s 2

module _ (P : Parts) (Q : ℕ → Type 0) where
  -- What the call returns, if it does not throw, satisfies `Q`. It ends.
  abbrev Exits : Action P.World ℕ → P.World → Type 0
  Exits m s = Outcome (λ n s'. Q n) (λ s'. Done) (m s)

module _ (P : Parts) (E : IsEnding P) (command : Bytes) (words : List Bytes) (s : P.World)
    (options : Arguments) (parsed : parse_arguments words ≡ some options) where
  abbrev HasCode : ℕ → Type 0
  HasCode = IsExit P (command ∷ words) s
