-- ===== src/Benchmark/Agree.antt =====
-- src/benchmark.cpp `comparable`.
use bengal_market.Base.{All, List, [], arith, refl, true, ◌↔◌, ◌∷◌, ◌≡◌}
use bengal_market.Benchmark.{all_fit, comparable, fits_first}
use bengal_market.Report.{ReplayReport}

-- What the reports of one benchmark have in common with its first one.
pub record Agrees (first run : ReplayReport) : Type 0 where
  pub clean : (run.input.parse_errors ≡ 0) × (run.dropped ≡ 0)
  pub same_events : run.events ≡ first.events
  pub same_checksum : run.checksum ≡ first.checksum
  pub same_frames : run.input.frames ≡ first.input.frames
  pub same_gaps : run.input.sequence_gaps ≡ first.input.sequence_gaps
  pub same_order : run.input.out_of_order ≡ first.input.out_of_order
  pub all_sampled : run.stage_latency.samples ≡ first.events

fits_first-Agrees : (first run : ReplayReport) → fits_first first run ≡ true → Agrees first run
fits_first-Agrees first run e = record {
  clean = (ground (arith, e), ground (arith, e));
  same_events = ground (arith, e);
  same_checksum = ground (arith, e);
  same_frames = ground (arith, e);
  same_gaps = ground (arith, e);
  same_order = ground (arith, e);
  all_sampled = ground (arith, e);
}

Agrees-fits_first : (first run : ReplayReport) → Agrees first run → fits_first first run ≡ true
Agrees-fits_first first run a = ground (
  arith, a.clean, a.same_events, a.same_checksum, a.same_frames, a.same_gaps, a.same_order,
  a.all_sampled,
)

all_fit-Agrees :
    (first : ReplayReport) (runs : List ReplayReport)
    → (all_fit first runs ≡ true) ↔ All (Agrees first) runs
unfolding all_fit
all_fit-Agrees first [] = ((λ e. tt), (λ a. refl))
all_fit-Agrees first (run ∷ runs) =
    let (there, back) = all_fit-Agrees first runs in
    (
      (λ e. (fits_first-Agrees first run (ground (arith, e)), there (ground (arith, e)))),
      (λ a. rw (Agrees-fits_first first run a.0, back a.1) refl),
    )

-- A benchmark of at least one report is comparable exactly when each of its reports, the first one
-- too, is clean, has a latency for every event, and has the first one's events, checksum, frames,
-- gaps and late numbers.
pub comparable-Agrees :
    (first : ReplayReport) (runs : List ReplayReport)
    → (comparable (first ∷ runs) ≡ true) ↔ All (Agrees first) (first ∷ runs)
unfolding comparable
comparable-Agrees first runs = all_fit-Agrees first (first ∷ runs)
