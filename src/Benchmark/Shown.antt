-- ===== src/Benchmark/Shown.antt =====
-- src/benchmark.cpp: what it reads in the reports that src/core.cpp `report_json` has written.
use mathlib.Core.Option.{some-injective}
use mathlib.Core.Path.{subst}
use bengal_market.Base.{
  All, Bool, Bytes, List, Option, [], ap, append-nil, append_assoc, bind_some, codes, eq_text,
  false, map, refl, some, sym, true, ℕ, ◌++◌, ◌<◌, ◌^◌, ◌∙◌, ◌∷◌, ◌≡◌,
}
use bengal_market.Benchmark.{MeasuredRun, collect, summarize}
use bengal_market.Benchmark.Reads.{
  Columns, RunRecord, field_of, gather, latency_of, no_columns, push_columns, summarize_runs,
  summary_value,
}
use bengal_market.Fixture.Shown.{number_at-shown}
use bengal_market.Json.{JsonLib}
use bengal_market.Json.Laws.{IsShown}
use bengal_market.Json.Value.{JsonValue, Members, find_member, json_number, json_object}
use bengal_market.Report.{ReplayReport}
use bengal_market.Report.Text.{report_json, report_value}

-- The numbers of a report are `uint64_t`.
pub record IsWord (r : ReplayReport) : Type 0 where
  pub frames : r.input.frames < 2 ^ 64
  pub parse_errors : r.input.parse_errors < 2 ^ 64
  pub sequence_gaps : r.input.sequence_gaps < 2 ^ 64
  pub out_of_order : r.input.out_of_order < 2 ^ 64
  pub events : r.events < 2 ^ 64
  pub dropped : r.dropped < 2 ^ 64
  pub backpressure : r.backpressure < 2 ^ 64
  pub checksum : r.checksum < 2 ^ 64
  pub elapsed_ns : r.elapsed_ns < 2 ^ 64
  pub samples : r.stage_latency.samples < 2 ^ 64
  pub p50_ns : r.stage_latency.p50_ns < 2 ^ 64
  pub p95_ns : r.stage_latency.p95_ns < 2 ^ 64
  pub p99_ns : r.stage_latency.p99_ns < 2 ^ 64

abbrev plus : Columns → Columns → Columns
plus c d = record {
  elapsed = c.elapsed ++ d.elapsed;
  p50 = c.p50 ++ d.p50;
  p95 = c.p95 ++ d.p95;
  p99 = c.p99 ++ d.p99;
  backpressure = c.backpressure ++ d.backpressure;
}

plus_assoc : (c d e : Columns) → plus (plus c d) e ≡ plus c (plus d e)
plus_assoc c d e = λ i. record {
  elapsed = append_assoc c.elapsed d.elapsed e.elapsed i;
  p50 = append_assoc c.p50 d.p50 e.p50 i;
  p95 = append_assoc c.p95 d.p95 e.p95 i;
  p99 = append_assoc c.p99 d.p99 e.p99 i;
  backpressure = append_assoc c.backpressure d.backpressure e.backpressure i;
}

plus_none : (c : Columns) → plus c no_columns ≡ c
plus_none c = λ i. record {
  elapsed = append-nil c.elapsed i;
  p50 = append-nil c.p50 i;
  p95 = append-nil c.p95 i;
  p99 = append-nil c.p99 i;
  backpressure = append-nil c.backpressure i;
}

abbrev single : ReplayReport → Columns
single r = record {
  elapsed = r.elapsed_ns ∷ [];
  p50 = r.stage_latency.p50_ns ∷ [];
  p95 = r.stage_latency.p95_ns ∷ [];
  p99 = r.stage_latency.p99_ns ∷ [];
  backpressure = r.backpressure ∷ [];
}

abbrev collected : Bytes → List MeasuredRun → Columns
collected engine runs = record {
  elapsed = collect (λ r. r.elapsed_ns) engine runs;
  p50 = collect (λ r. r.stage_latency.p50_ns) engine runs;
  p95 = collect (λ r. r.stage_latency.p95_ns) engine runs;
  p99 = collect (λ r. r.stage_latency.p99_ns) engine runs;
  backpressure = collect (λ r. r.backpressure) engine runs;
}

module _ {J : JsonLib} {dump : JsonValue → Option Bytes} (V : IsShown J dump)
    (version : Bytes) where
  -- A run of the benchmark, and the report that its process has written.
  pub record IsRunOf (x : RunRecord J × ReplayReport) : Type 0 where
    pub text : Bytes
    pub written : report_json version dump x.1 ≡ some text
    pub parsed : J.parse (text ++ 10 ∷ []) ≡ some x.0.report
    pub words : IsWord x.1

  pub shows-run :
      (x : RunRecord J × ReplayReport) → IsRunOf x → V.Shows x.0.report (report_value version x.1)
  unfolding report_json
  shows-run x is =
      let (j, (parsed, shown)) = V.parse_line (report_value version x.1) is.text is.written in
      subst (λ j. V.Shows j (report_value version x.1))
        (some-injective _ _ (sym parsed ∙ is.parsed)) shown

  module _ (j : J.Json) (ms : Members) (shown : V.Shows j (json_object ms)) where
    pub field_of-shown :
        (group name : Bytes) (ns : Members) (n : ℕ)
        → find_member group ms ≡ some (json_object ns)
        → find_member name ns ≡ some (json_number n)
        → n < 2 ^ 64
        → field_of J j group name ≡ some n
    unfolding field_of
    field_of-shown group name ns n e e' h =
        let (g, (found, shown')) = V.at_shown j ms group (json_object ns) shown e in
        bind_some _ _ _ _ found (number_at-shown V g ns shown' name n h e')

    pub latency_of-shown :
        (name : Bytes) (ns ls : Members) (n : ℕ)
        → find_member (codes "pipeline") ms ≡ some (json_object ns)
        → find_member (codes "latency_ns") ns ≡ some (json_object ls)
        → find_member name ls ≡ some (json_number n)
        → n < 2 ^ 64
        → latency_of J j name ≡ some n
    unfolding latency_of
    latency_of-shown name ns ls n e e' e'' h =
        let (g, (found, shown')) = V.at_shown j ms (codes "pipeline") (json_object ns) shown e in
        let (l, (found', shown'')) =
          V.at_shown g ns (codes "latency_ns") (json_object ls) shown' e' in
        bind_some _ _ _ _ found
          (bind_some _ _ _ _ found' (number_at-shown V l ls shown'' name n h e''))

  module _ (x : RunRecord J × ReplayReport) (is : IsRunOf x) where
    push_columns-shown : (c : Columns) → push_columns J c x.0 ≡ some (plus c (single x.1))
    unfolding push_columns report_value
    push_columns-shown c =
        let field = field_of-shown x.0.report _ (shows-run x is) in
        let latency = latency_of-shown x.0.report _ (shows-run x is) in
        bind_some _ _ _ _ (field _ _ _ _ refl refl is.words.elapsed_ns) (
          bind_some _ _ _ _ (latency _ _ _ _ refl refl refl is.words.p50_ns) (
            bind_some _ _ _ _ (latency _ _ _ _ refl refl refl is.words.p95_ns) (
              bind_some _ _ _ _ (latency _ _ _ _ refl refl refl is.words.p99_ns)
                (bind_some _ _ _ _ (field _ _ _ _ refl refl is.words.backpressure) refl))))

module _ {J : JsonLib} {dump : JsonValue → Option Bytes} (V : IsShown J dump)
    (version : Bytes) where
  abbrev pub typed : RunRecord J × ReplayReport → MeasuredRun
  typed x = record { engine = x.0.engine; report = x.1 }

  gather-shown :
      (xs : List (RunRecord J × ReplayReport)) (engine : Bytes) (c : Columns)
      → All (IsRunOf V version) xs
      → gather J engine c (map (λ x. x.0) xs) ≡ some (plus c (collected engine (map typed xs)))
  unfolding gather
  gather-shown [] engine c a = ap some (sym (plus_none c))
  gather-shown (x ∷ xs) engine c a =
      go (eq_text x.0.engine engine) refl (λ c. gather-shown xs engine c a.1)
    where
      go :
          (b : Bool)
          → eq_text x.0.engine engine ≡ b
          → ((c : Columns)
              → gather J engine c (map (λ x. x.0) xs)
                ≡ some (plus c (collected engine (map typed xs))))
          → gather J engine c (map (λ x. x.0) (x ∷ xs))
            ≡ some (plus c (collected engine (map typed (x ∷ xs))))
      go true e k = rw e (
          bind_some _ _ _ _ (push_columns-shown V version x a.0 c)
            (k _ ∙ ap some (plus_assoc c (single x.1) (collected engine (map typed xs)))))
      go false e k = rw e (k c)

  pub summarize_runs-shown :
      (xs : List (RunRecord J × ReplayReport)) (engine : Bytes)
      → All (IsRunOf V version) xs
      → summarize_runs J (map (λ x. x.0) xs) engine
        ≡ some (summary_value (summarize (map typed xs) engine))
  unfolding summarize_runs summarize
  summarize_runs-shown xs engine a = bind_some _ _ _ _ (gather-shown xs engine no_columns a) refl
