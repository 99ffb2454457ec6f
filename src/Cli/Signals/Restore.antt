-- ===== src/Cli/Signals/Restore.antt =====
-- src/main.cpp `capture_signal_scope`: the handlers are those of before when it is gone.
use bengal_market.Base.{
  Bool, List, [], ap, arith, false, if◌then◌else◌, none, refl, some, true, ℕ, ◌<◌, ◌==◌, ◌∙◌, ◌∷◌,
  ◌≡◌,
}
use bengal_market.Cli.Signals.{
  Signal, SignalCalls, SignalScope, arriving, close_scope, open_scope, request_capture_stop, sigint,
  sigterm,
}
use bengal_market.Effects.{Outcome, ◌>>=◌}

-- The documented effect of `sigaction`: it fails for some signals, whatever the handler is.
pub record IsSigaction (C : SignalCalls) : Type 0 where
  pub handler : Signal → C.World → C.Handler
  pub works : Signal → Bool
  pub answers :
      (g : Signal) (h : C.Handler) (w : C.World)
      → (C.sigaction g h w).0 ≡ (if works g then some (handler g w) else none)
  pub installed :
      (g : Signal) (h : C.Handler) (w : C.World)
      → handler g (C.sigaction g h w).1 ≡ (if works g then h else handler g w)
  pub int_kept :
      (h : C.Handler) (w : C.World) → handler sigint (C.sigaction sigterm h w).1 ≡ handler sigint w
  pub term_kept :
      (h : C.Handler) (w : C.World) → handler sigterm (C.sigaction sigint h w).1 ≡ handler sigterm w

arriving-kept : (signals : List ℕ) (g : ℕ) → 0 < g → arriving signals g ≡ g
unfolding arriving request_capture_stop
arriving-kept [] g h = refl
arriving-kept (x ∷ signals) g h =
    let e : (if g == 0 then x else g) ≡ g = ground (arith, h) in
    ap (arriving signals) e ∙ arriving-kept signals g h

module _ {C : SignalCalls} (V : IsSigaction C) where
  -- A scope that has not been opened, over the handlers `int` and `term`.
  pub record IsUnopened (int term : C.Handler) (s : SignalScope C) : Type 0 where
    pub int_before : V.handler sigint s.world ≡ int
    pub term_before : V.handler sigterm s.world ≡ term

  -- Both signals have the handler that stops the capture, and the scope knows the old ones.
  pub record IsHandling (int term : C.Handler) (s : SignalScope C) : Type 0 where
    pub no_signal : s.capture_signal ≡ 0
    pub stops_int : V.handler sigint s.world ≡ C.stop_handler
    pub stops_term : V.handler sigterm s.world ≡ C.stop_handler
    pub old_int : s.previous_int ≡ some int
    pub old_term : s.previous_term ≡ some term
    pub has_int : s.int_installed ≡ true
    pub has_term : s.term_installed ≡ true
    pub int_works : V.works sigint ≡ true
    pub term_works : V.works sigterm ≡ true

  -- With `sigaction` as documented, opened over the handlers that are there, the scope has both signals
  -- handled by the stop request, no signal noted and the old handlers in its members; where it throws
  -- instead, both signals have their old handlers.
  pub open_scope-IsHandling :
      (int term : C.Handler) (s : SignalScope C)
      → IsUnopened int term s
      → Outcome (λ u s'. IsHandling int term s') (IsUnopened int term) (open_scope C s)
  unfolding open_scope ◌>>=◌
  open_scope-IsHandling int term s v = first (V.works sigint) refl
    where
      w1 : C.World
      w1 = (C.sigaction sigint C.stop_handler s.world).1

      w2 : C.World
      w2 = (C.sigaction sigterm C.stop_handler w1).1

      second :
          V.works sigint ≡ true
          → (C.sigaction sigint C.stop_handler s.world).0 ≡ some (V.handler sigint s.world)
          → (b : Bool) → V.works sigterm ≡ b
          → Outcome (λ u s'. IsHandling int term s') (IsUnopened int term) (open_scope C s)
      second f e true g =
          let e' : (C.sigaction sigterm C.stop_handler w1).0 ≡ some (V.handler sigterm w1) =
            V.answers sigterm C.stop_handler w1 ∙ rw g refl in
          rw (open_scope, ◌>>=◌, e, e')
            (record {
              no_signal = refl;
              stops_int =
                  V.int_kept C.stop_handler w1
                  ∙ V.installed sigint C.stop_handler s.world
                  ∙ rw f refl;
              stops_term = V.installed sigterm C.stop_handler w1 ∙ rw g refl;
              old_int = ap some v.int_before;
              old_term = ap some (V.term_kept C.stop_handler s.world ∙ v.term_before);
              has_int = refl;
              has_term = refl;
              int_works = f;
              term_works = g;
            })
      second f e false g =
          let e' : (C.sigaction sigterm C.stop_handler w1).0 ≡ none =
            V.answers sigterm C.stop_handler w1 ∙ rw g refl in
          rw (open_scope, ◌>>=◌, e, e')
            (record {
              int_before = V.installed sigint (V.handler sigint s.world) w2 ∙ rw f v.int_before;
              term_before =
                  V.term_kept (V.handler sigint s.world) w2
                  ∙ V.installed sigterm C.stop_handler w1
                  ∙ rw g (V.term_kept C.stop_handler s.world ∙ v.term_before);
            })

      first :
          (b : Bool)
          → V.works sigint ≡ b
          → Outcome (λ u s'. IsHandling int term s') (IsUnopened int term) (open_scope C s)
      first true f =
          second f (V.answers sigint C.stop_handler s.world ∙ rw f refl) (V.works sigterm) refl
      first false f =
          let e : (C.sigaction sigint C.stop_handler s.world).0 ≡ none =
            V.answers sigint C.stop_handler s.world ∙ rw f refl in
          rw (open_scope, ◌>>=◌, e)
            (record {
              int_before = V.installed sigint C.stop_handler s.world ∙ rw f v.int_before;
              term_before = V.term_kept C.stop_handler s.world ∙ v.term_before;
            })

  -- In a scope that handles both signals, a signal arrives, others after it, and the rest of the world
  -- changes in any way but for the two handlers. The destructor gives both signals their old handlers,
  -- and the first signal is the one that was noted.
  pub close_scope-restores :
      (int term : C.Handler) (s : SignalScope C) (g : ℕ) (signals : List ℕ) (w : C.World)
      → IsHandling int term s
      → 0 < g
      → V.handler sigint w ≡ V.handler sigint s.world
      → V.handler sigterm w ≡ V.handler sigterm s.world
      → let s' = record s { capture_signal = arriving (g ∷ signals) s.capture_signal; world = w } in
        IsUnopened int term (close_scope C s') × ((close_scope C s').capture_signal ≡ g)
  unfolding close_scope arriving request_capture_stop
  close_scope-restores int term s g signals w v p h h' =
      let w' = (C.sigaction sigterm term w).1 in
      rw (v.has_term, v.has_int, v.old_term, v.old_int)
        (
          record {
            int_before = V.installed sigint int w' ∙ rw v.int_works refl;
            term_before = V.term_kept int w' ∙ V.installed sigterm term w ∙ rw v.term_works refl;
          },
          rw v.no_signal (arriving-kept signals g p),
        )
