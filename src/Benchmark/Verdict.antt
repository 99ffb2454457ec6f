-- ===== src/Benchmark/Verdict.antt =====
-- src/benchmark.cpp `comparable`, `summarize` and `parse_report` on the reports that src/core.cpp
-- `report_json` has written.
use bengal_market.Base.{
  All, Bool, Bytes, List, Option, [], ap, bind_some, codes, eq_text, false, if◌then◌else◌, map, not,
  refl, some, sym, true, ℕ, ◌&&◌, ◌++◌, ◌==◌, ◌>>=◌, ◌||◌, ◌∙◌, ◌∷◌, ◌≡◌,
}
use bengal_market.Benchmark.{all_fit, comparable, summarize}
use bengal_market.Benchmark.Reads.{
  RunRecord, and_equal, comparable_runs, report_fits, runs_agree, summarize_runs, summary_value,
}
use bengal_market.Benchmark.Shown.{
  IsRunOf, field_of-shown, latency_of-shown, shows-run, summarize_runs-shown, typed,
}
use bengal_market.Json.{JsonLib}
use bengal_market.Json.Laws.{IsShown}
use bengal_market.Json.Value.{JsonValue, json_number, json_string}
use bengal_market.Report.{ReplayReport}
use bengal_market.Report.Text.{report_json, report_value}

fits_chain :
    (a b c d e f g h t : Bool)
    → (not (not a || not b || not c || not d || not e || not f || not g || not h) && t)
      ≡ (a && (b && (c && (d && (e && (f && (g && (h && t))))))))
fits_chain false b c d e f g h t = refl
fits_chain true false c d e f g h t = refl
fits_chain true true false d e f g h t = refl
fits_chain true true true false e f g h t = refl
fits_chain true true true true false f g h t = refl
fits_chain true true true true true false g h t = refl
fits_chain true true true true true true false h t = refl
fits_chain true true true true true true true false t = refl
fits_chain true true true true true true true true t = refl

and_equal_lem :
    (J : JsonLib) (o : Option ℕ) (n m : ℕ) (rest : Option Bool) (r : Bool)
    → o ≡ some n
    → rest ≡ some r
    → and_equal J o m rest ≡ some ((n == m) && r)
and_equal_lem J o n m rest r e h = (λ i. and_equal J (e i) m (h i)) ∙ go (n == m)
  where
    go : (b : Bool) → (if b then some r else some false) ≡ some (b && r)
    go true = refl
    go false = refl

module _ {J : JsonLib} {dump : JsonValue → Option Bytes} (V : IsShown J dump)
    (version : Bytes) where
  runs_agree-shown :
      (first : ReplayReport) (xs : List (RunRecord J × ReplayReport))
      → All (IsRunOf V version) xs
      → runs_agree J first.events first.checksum first.input.frames first.input.sequence_gaps
          first.input.out_of_order
          (map (λ x. x.0) xs)
        ≡ some (all_fit first (map (λ x. x.1) xs))
  unfolding runs_agree all_fit report_value
  runs_agree-shown first [] a = refl
  runs_agree-shown first (x ∷ xs) a =
      let field = field_of-shown V version x.0.report _ (shows-run V version x a.0) in
      let latency = latency_of-shown V version x.0.report _ (shows-run V version x a.0) in
      let words = a.0.words in
      let rest = runs_agree-shown first xs a.1 in
      and_equal_lem J _ _ _ _ _ (field _ _ _ _ refl refl words.parse_errors) (
        and_equal_lem J _ _ _ _ _ (field _ _ _ _ refl refl words.dropped) (
          and_equal_lem J _ _ _ _ _ (field _ _ _ _ refl refl words.events) (
            and_equal_lem J _ _ _ _ _ (field _ _ _ _ refl refl words.checksum) (
              and_equal_lem J _ _ _ _ _ (field _ _ _ _ refl refl words.frames) (
                and_equal_lem J _ _ _ _ _ (field _ _ _ _ refl refl words.sequence_gaps) (
                  and_equal_lem J _ _ _ _ _ (field _ _ _ _ refl refl words.out_of_order) (
                    and_equal_lem J _ _ _ _ _ (latency _ _ _ _ refl refl refl words.samples)
                      rest)))))))
      ∙ ap some (
          sym (
            fits_chain (x.1.input.parse_errors == 0) (x.1.dropped == 0) (x.1.events == first.events)
              (x.1.checksum == first.checksum) (x.1.input.frames == first.input.frames)
              (x.1.input.sequence_gaps == first.input.sequence_gaps)
              (x.1.input.out_of_order == first.input.out_of_order)
              (x.1.stage_latency.samples == first.events) (all_fit first (map (λ x. x.1) xs))))

  comparable_runs-shown :
      (xs : List (RunRecord J × ReplayReport))
      → All (IsRunOf V version) xs
      → comparable_runs J (map (λ x. x.0) xs) ≡ some (comparable (map (λ x. x.1) xs))
  unfolding comparable_runs comparable report_value
  comparable_runs-shown [] a = refl
  comparable_runs-shown (x ∷ xs) a =
      let field = field_of-shown V version x.0.report _ (shows-run V version x a.0) in
      let words = a.0.words in
      bind_some _ _ _ _ (field _ _ _ _ refl refl words.events) (
        bind_some _ _ _ _ (field _ _ _ _ refl refl words.checksum) (
          bind_some _ _ _ _ (field _ _ _ _ refl refl words.frames) (
            bind_some _ _ _ _ (field _ _ _ _ refl refl words.sequence_gaps) (
              bind_some _ _ _ _ (field _ _ _ _ refl refl words.out_of_order)
                (runs_agree-shown x.1 (x ∷ xs) a)))))

  -- With a JSON library that reads back what it writes: where the runs of the benchmark have parsed
  -- what report_json wrote for reports of uint64_t numbers, with the line break behind it, nothing
  -- throws. `comparable` answers as on the reports themselves, and `summarize` has the statistics of
  -- their fields.
  pub reports-read_back :
      (xs : List (RunRecord J × ReplayReport)) (engine : Bytes)
      → All (IsRunOf V version) xs
      → (comparable_runs J (map (λ x. x.0) xs) ≡ some (comparable (map (λ x. x.1) xs)))
        × (summarize_runs J (map (λ x. x.0) xs) engine
            ≡ some (summary_value (summarize (map (typed V version) xs) engine)))
  reports-read_back xs engine a =
      (comparable_runs-shown xs a, summarize_runs-shown V version xs engine a)

  -- `parse_report` takes what report_json wrote exactly for the engine that it names.
  pub report_fits-report_json :
      (r : ReplayReport) (text engine : Bytes)
      → report_json version dump r ≡ some text
      → (j : J.Json) × ((J.parse (text ++ 10 ∷ []) ≡ some j)
          × ((report_fits J j engine ≡ some (eq_text r.engine engine))
              × V.Shows j (report_value version r)))
  unfolding report_json report_fits report_value
  report_fits-report_json r text engine e =
      let (j, (parsed, shown)) = V.parse_line (report_value version r) text e in
      let (s, (found, shown')) =
        V.at_shown j _ (codes "schema_version") (json_number 1) shown refl in
      let (n, (found', shown'')) =
        V.at_shown j _ (codes "engine") (json_string r.engine) shown refl in
      (
        j,
        (
          parsed,
          (
            bind_some _ _ _ _ found (
                ap
                  (λ b.
                    if b
                    then (J.at j (codes "engine") >>= λ name. some (J.equals_text name engine))
                    else some false)
                  (V.number_equals s 1 1 shown')
                ∙ bind_some _ _ _ _ found' (ap some (V.text_equals n r.engine engine shown''))),
            shown,
          ),
        ),
      )
