-- ===== src/Cli/Program/Tests.antt =====
-- Tests of `main` of src/main.cpp, with parts that count their calls.
use mathlib.Core.Option.{some-injective}
use mathlib.Core.Path.{subst}
use bengal_market.Base.{Bytes, List, [], codes, inl, refl, some, suc, sym, true, ℕ, ◌∙◌, ◌∷◌, ◌≡◌}
use bengal_market.Cli.{Arguments, parse_arguments, parse_from, reject_unknown}
use bengal_market.Cli.Program.{Parts}
use bengal_market.Cli.Program.Refused.{IsRefused, IsWrong, compare, main-IsRefused}
use bengal_market.Effects.{capture_stopped, failure, raised, returned}
use bengal_market.Report.{ReplayReport}

abbrev zero_report : ReplayReport
zero_report = record {
  engine = [];
  input = record { frames = 0; parse_errors = 0; sequence_gaps = 0; out_of_order = 0 };
  stage_latency = record {
    samples = 0;
    minimum_ns = 0;
    p50_ns = 0;
    p95_ns = 0;
    p99_ns = 0;
    maximum_ns = 0;
  };
  events = 0;
  dropped = 0;
  backpressure = 0;
  checksum = 0;
  elapsed_ns = 0;
}

abbrev counting_parts : Parts
counting_parts = record {
  World = ℕ;
  has_live = true;
  usage = λ n. (tt, suc n);
  print = λ text n. (tt, suc n);
  complain = λ e n. (tt, suc n);
  generate_fixture = λ o e p n. (returned tt, suc n);
  replay = λ i e n. (returned zero_report, suc n);
  canonical = λ p n. (returned p, suc n);
  run_benchmark = λ o n. (raised (failure []), suc n);
  capture_live = λ o n. (raised capture_stopped, suc n);
  open_signals = λ n. (returned tt, suc n);
  close_signals = λ n. (tt, suc n);
  capture_signal = λ n. 2;
  version_text = [];
  report_json = λ r. [];
  comparison_json = λ a b. [];
  benchmark_json = λ r. some [];
  capture_json = λ r s. some [];
}

abbrev wrong_words : List Bytes
wrong_words = codes "--engine" ∷ codes "standard" ∷ []

wrong_words-parsed : parse_arguments wrong_words ≡ some ((codes "engine", codes "standard") ∷ [])
unfolding parse_arguments parse_from
wrong_words-parsed = refl

wrong_words-IsWrong :
    (options : Arguments) → parse_arguments wrong_words ≡ some options → IsWrong compare options
unfolding reject_unknown
wrong_words-IsWrong options e =
    subst (λ o. IsWrong compare o) (some-injective _ options (sym wrong_words-parsed ∙ e))
      (inl refl)

main-IsRefused_example : IsRefused counting_parts 0 (codes "compare" ∷ wrong_words)
main-IsRefused_example =
    main-IsRefused counting_parts 0 compare (codes "--engine") (codes "standard" ∷ [])
      wrong_words-IsWrong
