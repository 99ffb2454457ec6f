-- ===== src/Benchmark.antt =====
-- src/benchmark.cpp: the order of the replays, the statistics of their reports, the test whether they
-- are comparable, and the escape of texts in HTML.
pub mod Ranks
pub mod Sorting
pub mod Agree
pub mod Escape
pub mod Order
pub mod Reads
pub mod Shown
pub mod Verdict
pub mod Host
pub mod Process
pub mod Machine
pub mod Page
pub mod Replays
pub mod Manifest
pub mod Program
pub mod Laws
pub mod Guards
pub mod Absent
pub mod Kept
pub mod Computed
pub mod Published
pub mod Whole
pub mod PageLaws
pub mod Memory
mod RunTests
mod Tests
use bengal_market.Base.{
  Bool, Bytes, List, [], codes, eq_text, false, get_or, if◌then◌else◌, leb, length, ltb, max, not,
  suc, true, zero, ℕ, ◌%◌, ◌&&◌, ◌++◌, ◌+◌, ◌-◌, ◌/◌, ◌==◌, ◌||◌, ◌∷◌,
}
use bengal_market.Base.Words.{add_u64, mul_u64}
use bengal_market.Histogram.Quantile.{rank}
use bengal_market.Report.{ReplayReport}

abbrev pub maximum_runs : ℕ
maximum_runs = 1000

abbrev pub maximum_warmups : ℕ
maximum_warmups = 100

-- `true` where the tests of the two counts let the options through.
abbrev pub counts_fit : ℕ → ℕ → Bool
counts_fit runs warmups =
    not ((runs == 0) || ltb maximum_runs runs) && not (ltb maximum_warmups warmups)

pub data EngineName : Type 0 where
  bengal standard : EngineName

-- A replay of the measuring loop.
pub record Planned : Type 0 where
  pub iteration : ℕ
  pub order : ℕ
  pub engine : EngineName

-- One round of the measuring loop.
abbrev pub plan_pair : ℕ → List Planned
plan_pair iteration =
    let bengal_first = not (iteration % 2 == 0) in
    record { iteration = iteration; order = 1; engine = if bengal_first then bengal else standard }
    ∷ record {
      iteration = iteration;
      order = 2;
      engine = if bengal_first then standard else bengal;
    }
    ∷ []

-- The measuring loop from `iteration` on, by the rounds left.
unfoldable pub plan_from : ℕ → ℕ → List Planned
plan_from iteration zero = []
plan_from iteration (suc more) = plan_pair iteration ++ plan_from (iteration + 1) more

unfoldable pub plan : ℕ → List Planned
unfolding plan_from
plan runs = plan_from 1 runs

unfoldable pub nearest_rank : List ℕ → ℕ → ℕ
nearest_rank [] percentile = 0
nearest_rank (x ∷ xs) percentile =
    let sorted = x ∷ xs in
    let rank = add_u64 (mul_u64 (length sorted) percentile) 99 / 100 in
    get_or sorted (max 1 rank - 1) 0

-- The loop of `comparable` against the first report.
abbrev pub fits_first : ReplayReport → ReplayReport → Bool
fits_first first report = not (
    not (report.input.parse_errors == 0)
    || not (report.dropped == 0)
    || not (report.events == first.events)
    || not (report.checksum == first.checksum)
    || not (report.input.frames == first.input.frames)
    || not (report.input.sequence_gaps == first.input.sequence_gaps)
    || not (report.input.out_of_order == first.input.out_of_order)
    || not (report.stage_latency.samples == first.events))

pub all_fit : ReplayReport → List ReplayReport → Bool
all_fit first [] = true
all_fit first (run ∷ runs) = fits_first first run && all_fit first runs

unfoldable pub comparable : List ReplayReport → Bool
unfolding all_fit
comparable [] = false
comparable (first ∷ runs) = all_fit first (first ∷ runs)

abbrev pub escape_byte : ℕ → Bytes
escape_byte value =
    if value == b'&'
    then codes "&amp;"
    else if value == b'<'
    then codes "&lt;"
    else if value == b'>'
    then codes "&gt;"
    else if value == 34
    then codes "&quot;"
    else value ∷ []

unfoldable pub html_escape : Bytes → Bytes
html_escape [] = []
html_escape (value ∷ input) = escape_byte value ++ html_escape input

-- `std::sort`.
pub insert : ℕ → List ℕ → List ℕ
insert v [] = v ∷ []
insert v (x ∷ xs) = if leb v x then v ∷ x ∷ xs else x ∷ insert v xs

pub sort : List ℕ → List ℕ
sort [] = []
sort (x ∷ xs) = insert x (sort xs)

pub record Distribution : Type 0 where
  pub samples : ℕ
  pub least : ℕ
  pub p25 : ℕ
  pub median : ℕ
  pub p75 : ℕ
  pub p95 : ℕ
  pub greatest : ℕ

-- The values in order are read at both ends and at four ranks.
unfoldable pub distribution : List ℕ → Distribution
distribution values =
    let sorted = sort values in
    record {
      samples = length sorted;
      least = get_or sorted 0 0;
      p25 = nearest_rank sorted 25;
      median = nearest_rank sorted 50;
      p75 = nearest_rank sorted 75;
      p95 = nearest_rank sorted 95;
      greatest = get_or sorted (length sorted - 1) 0;
    }

-- A replay of `measured`: its engine and its report.
pub record MeasuredRun : Type 0 where
  pub engine : Bytes
  pub report : ReplayReport

-- The values of one engine's reports, in the order of the runs.
abbrev pub collect : (ReplayReport → ℕ) → Bytes → List MeasuredRun → List ℕ
collect value engine [] = []
collect value engine (run ∷ runs) =
    if eq_text run.engine engine
    then value run.report ∷ collect value engine runs
    else collect value engine runs

pub record Summary : Type 0 where
  pub elapsed_ns : Distribution
  pub stage_latency_p50_ns : Distribution
  pub stage_latency_p95_ns : Distribution
  pub stage_latency_p99_ns : Distribution
  pub backpressure : Distribution

unfoldable pub summarize : List MeasuredRun → Bytes → Summary
summarize runs engine = record {
  elapsed_ns = distribution (collect (λ r. r.elapsed_ns) engine runs);
  stage_latency_p50_ns = distribution (collect (λ r. r.stage_latency.p50_ns) engine runs);
  stage_latency_p95_ns = distribution (collect (λ r. r.stage_latency.p95_ns) engine runs);
  stage_latency_p99_ns = distribution (collect (λ r. r.stage_latency.p99_ns) engine runs);
  backpressure = distribution (collect (λ r. r.backpressure) engine runs);
}
