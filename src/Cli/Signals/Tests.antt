-- ===== src/Cli/Signals/Tests.antt =====
-- Tests of the signal scope of src/main.cpp, with a handler for each signal as a number.
use bengal_market.Base.{Option, [], arith, false, none, refl, some, true, ℕ, ◌∷◌, ◌≡◌}
use bengal_market.Cli.Signals.{
  Signal, SignalCalls, SignalScope, arriving, close_scope, open_scope, sigint, sigterm,
}
use bengal_market.Cli.Signals.Restore.{
  IsHandling, IsSigaction, IsUnopened, close_scope-restores, open_scope-IsHandling,
}
use bengal_market.Effects.{Outcome}

pub record Table : Type 0 where
  pub of_int : ℕ
  pub of_term : ℕ

abbrev set_handler : Signal → ℕ → Table → Option ℕ × Table
set_handler sigint h w = (some w.of_int, record w { of_int = h })
set_handler sigterm h w = (some w.of_term, record w { of_term = h })

abbrev table_calls : SignalCalls
table_calls = record { World = Table; Handler = ℕ; stop_handler = 7; sigaction = set_handler }

abbrev handler_in : Signal → Table → ℕ
handler_in sigint w = w.of_int
handler_in sigterm w = w.of_term

set_handler-answers :
    (g : Signal) (h : ℕ) (w : Table) → (set_handler g h w).0 ≡ some (handler_in g w)
set_handler-answers sigint h w = refl
set_handler-answers sigterm h w = refl

set_handler-installed : (g : Signal) (h : ℕ) (w : Table) → handler_in g (set_handler g h w).1 ≡ h
set_handler-installed sigint h w = refl
set_handler-installed sigterm h w = refl

abbrev table-IsSigaction : IsSigaction table_calls
table-IsSigaction = record {
  handler = handler_in;
  works = λ g. true;
  answers = set_handler-answers;
  installed = set_handler-installed;
  int_kept = λ h w. refl;
  term_kept = λ h w. refl;
}

abbrev unopened : SignalScope table_calls
unopened = record {
  capture_signal = 0;
  previous_int = none;
  previous_term = none;
  int_installed = false;
  term_installed = false;
  world = record { of_int = 1; of_term = 2 };
}

open_scope-IsHandling_example :
    Outcome
      (λ u s'. IsHandling table-IsSigaction 1 2 s')
      (IsUnopened table-IsSigaction 1 2)
      (open_scope table_calls unopened)
open_scope-IsHandling_example =
    open_scope-IsHandling table-IsSigaction 1 2 unopened
      (record { int_before = refl; term_before = refl })

abbrev opened : SignalScope table_calls
opened = record {
  capture_signal = 0;
  previous_int = some 1;
  previous_term = some 2;
  int_installed = true;
  term_installed = true;
  world = record { of_int = 7; of_term = 7 };
}

opened-IsHandling : IsHandling table-IsSigaction 1 2 opened
opened-IsHandling = record {
  no_signal = refl;
  stops_int = refl;
  stops_term = refl;
  old_int = refl;
  old_term = refl;
  has_int = refl;
  has_term = refl;
  int_works = refl;
  term_works = refl;
}

close_scope-restores_example :
    let s' = record opened {
      capture_signal = arriving (2 ∷ 15 ∷ []) opened.capture_signal;
      world = opened.world;
    } in
    IsUnopened table-IsSigaction 1 2 (close_scope table_calls s')
    × ((close_scope table_calls s').capture_signal ≡ 2)
close_scope-restores_example =
    close_scope-restores table-IsSigaction 1 2 opened 2 (15 ∷ []) opened.world opened-IsHandling
      (omega arith) refl refl
