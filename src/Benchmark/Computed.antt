-- ===== src/Benchmark/Computed.antt =====
-- src/benchmark.cpp `run_benchmark`: what the manifest says of the runs.
use bengal_market.Base.{
  Bytes, List, Option, [], ap, arith, codes, length, map, refl, some, suc, sym, zero, ℕ, ◌*◌, ◌+◌,
  ◌∙◌, ◌∷◌, ◌≡◌,
}
use bengal_market.Benchmark.{plan, plan_from}
use bengal_market.Benchmark.Absent.{Absent}
use bengal_market.Benchmark.Guards.{IsBeside, demand-Guards, query-Guards}
use bengal_market.Benchmark.Host.{Build, Host}
use bengal_market.Benchmark.Kept.{measure-Guards, planned_key, run_key, warm_up-Guards}
use bengal_market.Benchmark.Laws.{IsHost}
use bengal_market.Benchmark.Machine.{environment_value}
use bengal_market.Benchmark.Manifest.{Facts}
use bengal_market.Benchmark.Program.{replay_all}
use bengal_market.Benchmark.Reads.{comparable_runs, summarize_runs}
use bengal_market.Benchmark.Replays.{Place}
use bengal_market.Cli.Program.{BenchmarkOptions}
use bengal_market.Effects.{Guards, Guards-bind, Guards-pure}
use bengal_market.Json.{JsonLib}
use bengal_market.Json.Value.{JsonValue}

-- The order of the runs is that of the plan, and the verdict and the summaries are of these runs.
pub record IsComputed (J : JsonLib) (options : BenchmarkOptions) (facts : Facts J) : Type 0 where
  pub runs : facts.runs ≡ options.runs
  pub warmups : facts.warmups ≡ options.warmups
  pub order : map run_key facts.measured ≡ map planned_key (plan options.runs)
  pub verdict : comparable_runs J facts.measured ≡ some facts.valid
  pub bengal_side : summarize_runs J facts.measured (codes "bengal") ≡ some facts.bengal_summary
  pub standard_side :
      summarize_runs J facts.measured (codes "standard") ≡ some facts.standard_summary

length-plan_from : (iteration more : ℕ) → length (plan_from iteration more) ≡ 2 * more
unfolding plan_from
length-plan_from iteration zero = refl
length-plan_from iteration (suc more) = omega (arith, length-plan_from (iteration + 1) more)

length-map : {A B : Type 0} (f : A → B) (l : List A) → length (map f l) ≡ length l
length-map f [] = refl
length-map f (x ∷ l) = ap suc (length-map f l)

pub IsComputed-length :
    (J : JsonLib) (options : BenchmarkOptions) (facts : Facts J)
    → IsComputed J options facts
    → length facts.measured ≡ 2 * options.runs
unfolding plan
IsComputed-length J options facts is =
    sym (length-map run_key facts.measured)
    ∙ ap length is.order
    ∙ length-map planned_key (plan options.runs)
    ∙ length-plan_from 1 options.runs

module _ {H : Host} {fuel : ℕ} (V : IsHost H fuel) (J : JsonLib) (build : Build) (q : Bytes) where
  environment-Guards : Guards (Absent V q) (environment_value H build) (λ v. Unit {0})
  unfolding environment_value
  environment-Guards =
      Guards-bind (query-Guards H _ _) (λ system e. record { run = λ s p. (p, tt) })

  module _ (dump pretty : JsonValue → Option Bytes) (options : BenchmarkOptions) (place : Place)
      (beside : IsBeside q place.working) where
    pub replay_all-Guards :
        (digest executable_digest : Bytes)
        → Guards
            (Absent V q)
            (replay_all H J build dump pretty fuel options place digest executable_digest)
            (IsComputed J options)
    unfolding replay_all plan
    replay_all-Guards digest executable_digest =
        Guards-bind (warm_up-Guards V J q place beside 1 options.warmups) (λ u e.
          Guards-bind (measure-Guards V J q place beside 1 options.runs) (λ measured order.
            Guards-bind (demand-Guards H (comparable_runs J measured) _) (λ valid verdict.
              Guards-bind {Q = λ created. Unit {0}} (record { run = λ s p. (p, tt) })
                (λ created e. Guards-bind (query-Guards H _ _) (λ size e.
                  Guards-bind environment-Guards (λ environment e.
                    Guards-bind (demand-Guards H (summarize_runs J measured (codes "bengal")) _)
                      (λ bengal_summary b.
                        Guards-bind
                          (demand-Guards H (summarize_runs J measured (codes "standard")) _)
                          (λ standard_summary s. Guards-pure (record {
                            runs = refl;
                            warmups = refl;
                            order = order;
                            verdict = verdict;
                            bengal_side = b;
                            standard_side = s;
                          })))))))))
