-- ===== src/Benchmark/Kept.antt =====
-- src/benchmark.cpp: a replay of `run_benchmark` does not make the output, and the runs that are
-- measured are those of the plan.
use mathlib.Core.Option.{some-injective}
use bengal_market.Base.{
  Bool, Bytes, Option, [], ap, arith, codes, false, if◌then◌else◌, ltb, map, none, not, refl, some,
  suc, true, zero, ℕ, ◌%◌, ◌++◌, ◌+◌, ◌==◌, ◌∙◌, ◌∷◌, ◌≡◌,
}
use bengal_market.Benchmark.{Planned, bengal, plan_from, plan_pair, standard}
use bengal_market.Benchmark.Absent.{Absent, read_text-Guards, remove-Guards, run_process-Guards}
use bengal_market.Benchmark.Guards.{IsBeside, below-IsBeside, demand-Guards, query-Guards}
use bengal_market.Benchmark.Host.{Host, ◌//◌}
use bengal_market.Benchmark.Laws.{IsHost}
use bengal_market.Benchmark.Process.{read_text}
use bengal_market.Benchmark.Reads.{RunRecord, report_fits}
use bengal_market.Benchmark.Replays.{
  Place, check_replay, dereference, engine_text, keep_run, measure, parse_report, remove_outputs,
  replay_of, run_replay, stem_of, warm_up,
}
use bengal_market.Effects.{
  Guards, Guards-bind, Guards-pure, Guards-raise, Guards-unless, failure, pure, raise, ◌>>=◌,
}
use bengal_market.Json.{JsonLib}
use bengal_market.Pipeline.{report}

-- Which replay a run was.
abbrev pub run_key : {J : JsonLib} (run : RunRecord J) → ℕ × (ℕ × Bytes)
run_key run = (run.iteration, (run.order, run.engine))

abbrev pub planned_key : Planned → ℕ × (ℕ × Bytes)
planned_key p = (p.iteration, (p.order, engine_text p.engine))

module _ {H : Host} {fuel : ℕ} (V : IsHost H fuel) (J : JsonLib) (q : Bytes) where
  parse_report-Guards :
      (path engine : Bytes)
      → Guards (Absent V q) (parse_report H J fuel path engine) (λ report. Unit {0})
  unfolding parse_report
  parse_report-Guards path engine = Guards-bind (read_text-Guards V q path) (λ text u.
      Guards-bind (demand-Guards H (J.parse text) _) (λ report e.
        Guards-bind (demand-Guards H (report_fits J report engine) _)
          (λ fits e. Guards-bind (Guards-unless _) (λ u e. Guards-pure tt))))

  module _ (place : Place) (beside : IsBeside q place.working) where
    -- The key of the run that a measured replay gives.
    abbrev IsRunOfPlan : Planned → Option (RunRecord J) → Type 0
    IsRunOfPlan p o = (run : RunRecord J) × ((o ≡ some run) × (run_key run ≡ planned_key p))

    base_of : Bool → Bytes
    base_of measured = if measured then place.working // codes "runs" else place.working

    base-IsBeside : (measured : Bool) (name : Bytes) → IsBeside q (base_of measured // name)
    unfolding base_of
    base-IsBeside true name = below-IsBeside q _ name (below-IsBeside q _ (codes "runs") beside)
    base-IsBeside false name = below-IsBeside q _ name beside

    check_replay-Guards :
        (code : ℕ) (error : Bytes)
        → Guards (Absent V q) (check_replay H J fuel code error) (λ u. Unit {0})
    check_replay-Guards code error = go (ltb 1 code)
      where
        go :
            (b : Bool)
            → Guards
                (Absent V q)
                (if b
                  then (read_text H error >>= λ text.
                      raise (failure (codes "replay process failed with exit code ")))
                  else pure tt)
                (λ u. Unit {0})
        go true = Guards-bind (read_text-Guards V q error) (λ text u. Guards-raise _)
        go false = Guards-pure tt

    keep_run-Guards :
        (p : Planned) (out err : Bytes) (report : J.Json)
        → Guards (Absent V q) (keep_run H J fuel place p out err report) (IsRunOfPlan p)
    keep_run-Guards p out err report =
        Guards-bind (query-Guards H _ _)
          (λ out' e. Guards-bind (query-Guards H _ _) (λ err' e'. Guards-pure (_, (refl, refl))))

    replay-Guards :
        (measured : Bool) (p : Planned)
        → Guards
            (Absent V q)
            (run_replay H J fuel place measured p)
            (λ o. if measured then IsRunOfPlan p o else Unit {0})
    unfolding run_replay base_of
    replay-Guards measured p =
        Guards-bind
          (run_process-Guards V q _ _ _ _ (base-IsBeside measured _) (base-IsBeside measured _))
          (λ code u.
            Guards-bind (check_replay-Guards code _)
              (λ u e. Guards-bind (parse_report-Guards _ _) (λ report u. last measured report)))
      where
        last :
            (b : Bool) (report : J.Json)
            → Guards
                (Absent V q)
                (if b
                  then keep_run H J fuel place p
                      (base_of measured // (stem_of measured p ++ codes ".json"))
                      (base_of measured // (stem_of measured p ++ codes ".stderr.txt"))
                      report
                  else remove_outputs H J fuel
                      (base_of measured // (stem_of measured p ++ codes ".json"))
                      (base_of measured // (stem_of measured p ++ codes ".stderr.txt")))
                (λ o. if b then IsRunOfPlan p o else Unit {0})
        last true report = keep_run-Guards p _ _ report
        last false report =
            Guards-bind (remove-Guards V q _ _)
              (λ u e. Guards-bind (remove-Guards V q _ _) (λ u e. Guards-pure tt))

    pub warm_up-Guards :
        (iteration more : ℕ)
        → Guards (Absent V q) (warm_up H J fuel place iteration more) (λ u. Unit {0})
    unfolding warm_up
    warm_up-Guards iteration zero = Guards-pure tt
    warm_up-Guards iteration (suc more) =
        Guards-bind (replay-Guards false _)
          (λ o u. Guards-bind (replay-Guards false _) (λ o u. warm_up-Guards (iteration + 1) more))

    dereference-Guards :
        (p : Planned) (o : Option (RunRecord J))
        → IsRunOfPlan p o
        → Guards (Absent V q) (dereference H J fuel o) (λ run. run_key run ≡ planned_key p)
    dereference-Guards p none (run, (e, k)) = absurd (ground (arith, e))
    dereference-Guards p (some run') (run, (e, k)) =
        Guards-pure (ap run_key (some-injective _ _ e) ∙ k)

    -- The engines take turns in going first.
    plan_pair-turns :
        (iteration : ℕ)
        → replay_of iteration 1 (not (iteration % 2 == 0))
            ∷ replay_of iteration 2 (not (not (iteration % 2 == 0)))
            ∷ []
          ≡ plan_pair iteration
    plan_pair-turns iteration = go (iteration % 2 == 0)
      where
        go :
            (b : Bool)
            → replay_of iteration 1 (not b) ∷ replay_of iteration 2 (not (not b)) ∷ []
              ≡ record {
                iteration = iteration;
                order = 1;
                engine = if not b then bengal else standard;
              }
                ∷ record {
                  iteration = iteration;
                  order = 2;
                  engine = if not b then standard else bengal;
                }
                ∷ []
        go true = refl
        go false = refl

    pub measure-Guards :
        (iteration more : ℕ)
        → Guards
            (Absent V q)
            (measure H J fuel place iteration more)
            (λ runs. map run_key runs ≡ map planned_key (plan_from iteration more))
    unfolding measure plan_from
    measure-Guards iteration zero = Guards-pure refl
    measure-Guards iteration (suc more) = Guards-bind (replay-Guards true _) (λ o is.
        Guards-bind (dereference-Guards _ o is) (λ first e.
          Guards-bind (replay-Guards true _) (λ o' is'.
            Guards-bind (dereference-Guards _ o' is') (λ second e'.
              Guards-bind (measure-Guards (iteration + 1) more) (λ runs r. Guards-pure (
                (λ i. e i ∷ e' i ∷ r i)
                ∙ ap (λ l. map planned_key (l ++ plan_from (iteration + 1) more))
                    (plan_pair-turns iteration)))))))
