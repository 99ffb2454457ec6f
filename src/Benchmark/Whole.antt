-- ===== src/Benchmark/Whole.antt =====
-- src/benchmark.cpp `run_benchmark`, from its first test to the rename.
use mathlib.Core.Option.{some-injective}
use mathlib.Core.Path.{subst}
use bengal_market.Base.{
  Bool, Bytes, Option, ap, codes, false, if◌then◌else◌, inl, inr, not, refl, some, sym, true, ℕ,
  ◌&&◌, ◌*◌, ◌||◌, ◌∙◌, ◌≡◌, ◌⊎◌,
}
use bengal_market.Benchmark.{counts_fit}
use bengal_market.Benchmark.Absent.{Absent, sha256-Guards, write_text-Guards}
use bengal_market.Benchmark.Computed.{IsComputed, IsComputed-length, replay_all-Guards}
use bengal_market.Benchmark.Guards.{
  IsBeside, IsBeside-lies_under, below-IsBeside, carry_out-Guards, query-Guards, working-IsBeside,
}
use bengal_market.Benchmark.Host.{Build, Host, ◌//◌}
use bengal_market.Benchmark.Laws.{IsHost, ends_in_slash}
use bengal_market.Benchmark.Manifest.{Facts}
use bengal_market.Benchmark.Program.{benchmark_at, check_no_output, run_at, run_benchmark}
use bengal_market.Benchmark.Published.{IsReport, publish_report-Hoare}
use bengal_market.Benchmark.Replays.{Place, place_at}
use bengal_market.Cli.Program.{BenchmarkOptions, BenchmarkResult}
use bengal_market.Effects.{
  Guards, Guards-then, Guards-unless, Hoare, Hoare-bind, Hoare-weaken, Outcome, failure, raised,
  returned,
}
use bengal_market.Json.{JsonLib}
use bengal_market.Json.Value.{JsonValue}

module _ {H : Host} {fuel : ℕ} (V : IsHost H fuel) (J : JsonLib) (build : Build)
    (dump pretty : JsonValue → Option Bytes) (options : BenchmarkOptions) where
  -- What a call has done that found the world `w` and returns `r`.
  pub record IsBenchmark (w : H.World) (r : BenchmarkResult) (s : H.World) : Type 0 where
    pub facts : Facts J
    pub counts : counts_fit options.runs options.warmups ≡ true
    pub named : H.absolute options.output w ≡ some r.output
    pub new : H.exists r.output w ≡ false
    pub computed : IsComputed J options facts
    pub report : IsReport V J build dump pretty r.output facts s
    pub verdict : r.comparable ≡ facts.valid
    pub processes : r.measured_processes ≡ 2 * options.runs

  -- A call that throws has changed nothing, or has left no output.
  pub IsWithout : H.World → H.World → Type 0
  IsWithout w s =
      (s ≡ w)
      ⊎ ((output : Bytes) → H.absolute options.output w ≡ some output → H.exists output s ≡ false)

  benchmark_at-Hoare :
      (place : Place)
      → IsBeside place.output place.working
      → Hoare
          (Absent V place.output)
          (benchmark_at H J build dump pretty fuel options place)
          (λ facts s.
            IsReport V J build dump pretty place.output facts s × IsComputed J options facts)
          (Absent V place.output)
  unfolding benchmark_at
  benchmark_at-Hoare place beside =
      let named : (name : Bytes) → IsBeside place.output (place.working // name) =
        λ name. below-IsBeside place.output place.working name beside in
      let runs = named (codes "runs") in
      Guards-then
        (carry_out-Guards H (H.create_directories (place.working // codes "runs")) _ (λ s.
          V.create_directories_absent _ place.output s (IsBeside-lies_under place.output _ runs)))
        (λ s p. p)
        (λ u e.
          Guards-then (sha256-Guards V place.output place.input place.working beside) (λ s p. p)
            (λ digest e.
              Guards-then (sha256-Guards V place.output place.executable place.working beside)
                (λ s p. p)
                (λ executable_digest e.
                  Guards-then
                    (write_text-Guards V place.output _ _ (named (codes "fixture.sha256")))
                    (λ s p. p)
                    (λ u e.
                      Guards-then
                        (replay_all-Guards V J build place.output dump pretty options place beside
                          digest executable_digest)
                        (λ s p. p)
                        (λ facts computed.
                          Hoare-bind _ _ _ _ _ _
                            (publish_report-Hoare V J build dump pretty place beside facts)
                            (λ u. record { run = λ s p. (p, computed) }))))))

  check_no_output-Guards :
      (w : H.World) (place : Place)
      → Guards
          (λ s. s ≡ w)
          (check_no_output H J build dump pretty fuel place)
          (λ u. H.exists place.output w ≡ false)
  check_no_output-Guards w place = record {
    run = λ s p. go s p (H.exists place.output s) (H.exists place.working s) refl;
  }
    where
      go :
          (s : H.World)
          → s ≡ w
          → (b c : Bool) → H.exists place.output s ≡ b
          → Outcome
              (λ u s. (s ≡ w) × (H.exists place.output w ≡ false))
              (λ s. s ≡ w)
              (
                if not (b || c)
                    then returned tt
                    else raised
                        (failure (codes "benchmark output or partial output already exists")),
                s,
              )
      go s p true c e = p
      go s p false true e = p
      go s p false false e = (p, ap (H.exists place.output) (sym p) ∙ e)

  -- From the test of the output on.
  placed-Hoare :
      (w : H.World) (input executable output : Bytes)
      → counts_fit options.runs options.warmups ≡ true
      → H.absolute options.output w ≡ some output
      → ends_in_slash output ≡ false
      → Hoare
          (λ s. s ≡ w)
          (run_at H J build dump pretty fuel options (place_at input executable output))
          (IsBenchmark w)
          (IsWithout w)
  unfolding run_at IsWithout
  placed-Hoare w input executable output counts named plain =
      let place = place_at input executable output in
      Guards-then (check_no_output-Guards w place) (λ s p. inl p)
        (λ u absent.
          Hoare-bind _ _ _ _ _ _
            (Hoare-weaken _ _ _ _ _ _ _ (benchmark_at-Hoare place (working-IsBeside output plain))
              (λ s p. ap (H.exists output) p ∙ absent) (λ facts s p. p)
              (λ s p. inr (λ output' e.
                subst (λ o. H.exists o s ≡ false) (some-injective _ _ (sym named ∙ e)) p)))
            (λ facts. record {
              run = λ s p. record {
                facts = facts;
                counts = counts;
                named = named;
                new = absent;
                computed = p.1;
                report = p.0;
                verdict = refl;
                processes = IsComputed-length J options facts p.1;
              };
            }))

  -- Over a system that does what it documents, with fuel for every interrupted wait, any JSON library,
  -- and an output whose absolute path does not end in a slash: run_benchmark ends. Where it returns,
  -- the counts were within their limits and the output did not exist; now it holds the manifest and
  -- the page, each whole or, where the flush at the close of its stream failed, a front of it, of runs that are, in order, the planned ones, twice as many as the rounds, and the result
  -- has the verdict of `comparable` on them. Where it throws, nothing has changed, or the output does
  -- not exist.
  pub run_benchmark-IsSafe :
      (w : H.World)
      → ((output : Bytes)
          → H.absolute options.output w ≡ some output
          → ends_in_slash output ≡ false)
      → Outcome (IsBenchmark w) (IsWithout w) (run_benchmark H J build dump pretty fuel options w)
  unfolding run_benchmark IsWithout
  run_benchmark-IsSafe w plain =
      let same : (s : H.World) → s ≡ w → IsWithout w s = λ s p. inl p in
      let r =
        Guards-then {P = λ s. s ≡ w} {post = IsBenchmark w} {fault = IsWithout w} (Guards-unless _)
          same
          (λ u e. Guards-then (Guards-unless _) same (λ u rounds.
            Guards-then (Guards-unless _) same (λ u warmups.
              Guards-then (query-Guards H (H.canonical options.input) _) same (λ input e.
                Guards-then (query-Guards H (H.canonical options.executable) _) same
                  (λ executable e.
                    Guards-then (query-Guards H (H.absolute options.output) _) same (λ output e.
                      let named : H.absolute options.output w ≡ some output =
                        ap (H.absolute options.output) (sym e.1.0) ∙ e.1.1 in
                      placed-Hoare w input executable output (λ i. rounds i && warmups i) named
                        (plain output named))))))) in
      r.run w refl
