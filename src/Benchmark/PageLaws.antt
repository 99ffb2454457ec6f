-- ===== src/Benchmark/PageLaws.antt =====
-- src/benchmark.cpp `html_report` on the manifests of `run_benchmark`.
use mathlib.Core.Option.{some-injective}
use bengal_market.Base.{
  Bytes, List, Option, arith, bind_some, codes, none, refl, some, sym, ℕ, ◌>>=◌, ◌∙◌, ◌≡◌,
}
use bengal_market.Benchmark.{Distribution, Summary}
use bengal_market.Benchmark.Computed.{IsComputed}
use bengal_market.Benchmark.Host.{Build}
use bengal_market.Benchmark.Manifest.{Facts, manifest_of}
use bengal_market.Benchmark.Page.{html_report, html_row}
use bengal_market.Benchmark.Reads.{
  Columns, RunRecord, distribution_value, gather, no_columns, summarize_runs, summary_of,
  summary_value,
}
use bengal_market.Cli.Program.{BenchmarkOptions}
use bengal_market.Json.{JsonLib}
use bengal_market.Json.Value.{JsonValue, json_number}

module _ (dump : JsonValue → Option Bytes)
    (prints : (n : ℕ) → (text : Bytes) × (dump (json_number n) ≡ some text)) where
  html_row-some :
      (label : Bytes) (d e : Distribution)
      → (row : Bytes) × (html_row dump label (distribution_value d) (distribution_value e)
          ≡ some row)
  unfolding html_row
  html_row-some label d e = (
    _,
    bind_some _ _ _ _ (prints d.median).1 (
        bind_some _ _ _ _ (prints d.p25).1 (
          bind_some _ _ _ _ (prints d.p75).1 (
            bind_some _ _ _ _ (prints e.median).1
              (bind_some _ _ _ _ (prints e.p25).1 (bind_some _ _ _ _ (prints e.p75).1 refl))))),
  )

  summarize_runs-summary_value :
      (J : JsonLib) (runs : List (RunRecord J)) (engine : Bytes) (v : JsonValue)
      → summarize_runs J runs engine ≡ some v
      → (s : Summary) × (v ≡ summary_value s)
  unfolding summarize_runs
  summarize_runs-summary_value J runs engine v e = go (gather J engine no_columns runs) e
    where
      go :
          (o : Option Columns)
          → (o >>= λ c. some (summary_value (summary_of c))) ≡ some v
          → (s : Summary) × (v ≡ summary_value s)
      go none e = absurd (ground (arith, e))
      go (some c) e = (summary_of c, sym (some-injective _ _ e))

  module _ (J : JsonLib) (build : Build) where
    page-some :
        (facts : Facts J) (s t : Summary)
        → (page : Bytes) × (html_report dump (
              manifest_of J build (record facts {
                bengal_summary = summary_value s;
                standard_summary = summary_value t;
              }))
            ≡ some page)
    unfolding html_report manifest_of
    page-some facts s t = (
      _,
      bind_some _ _ _ _ (prints facts.runs).1 (
          bind_some _ _ _ _ (prints facts.warmups).1 (
            bind_some _ _ _ _ (html_row-some (codes "Elapsed ns") s.elapsed_ns t.elapsed_ns).1 (
              bind_some _ _ _ _
                (html_row-some (codes "Stage p50 ns") s.stage_latency_p50_ns
                  t.stage_latency_p50_ns).1
                (bind_some _ _ _ _
                  (html_row-some (codes "Stage p95 ns") s.stage_latency_p95_ns
                    t.stage_latency_p95_ns).1
                  (bind_some _ _ _ _
                    (html_row-some (codes "Stage p99 ns") s.stage_latency_p99_ns
                      t.stage_latency_p99_ns).1
                    refl))))),
    )

    -- Where `dump` throws on no number, html_report makes a page of each manifest that run_benchmark
    -- computes: every member that it looks for is there and of its type.
    pub html_report-manifest_of :
        (options : BenchmarkOptions) (facts : Facts J)
        → IsComputed J options facts
        → (page : Bytes) × (html_report dump (manifest_of J build facts) ≡ some page)
    html_report-manifest_of options facts is =
        let (s, e) = summarize_runs-summary_value J facts.measured _ _ is.bengal_side in
        let (t, h) = summarize_runs-summary_value J facts.measured _ _ is.standard_side in
        let (page, made) = page-some facts s t in
        (
          page,
          (λ i. html_report dump (
                manifest_of J build
                  (record facts { bengal_summary = e i; standard_summary = h i })))
              ∙ made,
        )
