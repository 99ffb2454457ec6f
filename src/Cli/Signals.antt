-- ===== src/Cli/Signals.antt =====
-- src/main.cpp: the signal that stops a capture, and the scope that its handlers are installed for.
pub mod Restore
mod Tests
use bengal_market.Base.{
  Bool, List, Option, [], codes, false, if◌then◌else◌, none, some, true, ℕ, ◌==◌, ◌∷◌,
}
use bengal_market.Effects.{Action, Done, failure, raised, returned, ◌>>=◌, ◌>>◌}

pub data Signal : Type 0 where
  sigint sigterm : Signal

-- `sigaction`, which answers the handler that was there, or `none` for an error. `stop_handler` is
-- `request_capture_stop`.
pub record SignalCalls : Type 1 where
  pub World : Type 0
  pub Handler : Type 0
  pub stop_handler : Handler
  pub sigaction : Signal → Handler → World → Option Handler × World

-- `capture_signal` when another signal arrives.
unfoldable pub request_capture_stop : ℕ → ℕ → ℕ
request_capture_stop before arrived = if before == 0 then arrived else before

-- A run of signals.
pub arriving : List ℕ → ℕ → ℕ
unfolding request_capture_stop
arriving [] before = before
arriving (g ∷ signals) before = arriving signals (request_capture_stop before g)

-- `capture_signal` and the members of `capture_signal_scope`. A previous handler is `none` as long as
-- it is not installed over.
pub record SignalScope (C : SignalCalls) : Type 0 where
  pub capture_signal : ℕ
  pub previous_int : Option C.Handler
  pub previous_term : Option C.Handler
  pub int_installed : Bool
  pub term_installed : Bool
  pub world : C.World

module _ (C : SignalCalls) where
  open C use {World, Handler}

  abbrev pub install : Signal → Handler → Action (SignalScope C) (Option Handler)
  install signal handler s = (
    returned (C.sigaction signal handler s.world).0,
    record s { world = (C.sigaction signal handler s.world).1 },
  )

  abbrev pub keep_int : Option Handler → Action (SignalScope C) Done
  keep_int none s = (raised (failure (codes "cannot install capture signal handlers")), s)
  keep_int (some old) s = (returned tt, record s { previous_int = some old; int_installed = true })

  -- `(void)sigaction(…, &previous, nullptr)`.
  abbrev pub put_back : Signal → Option Handler → SignalScope C → SignalScope C
  put_back signal none s = s
  put_back signal (some old) s = record s { world = (C.sigaction signal old s.world).1 }

  abbrev pub keep_term : Option Handler → Action (SignalScope C) Done
  keep_term none s = (
    raised (failure (codes "cannot install capture signal handlers")),
    record (put_back sigint s.previous_int s) { int_installed = false },
  )
  keep_term (some old) s =
      (returned tt, record s { previous_term = some old; term_installed = true })

  abbrev pub clear_signal : Action (SignalScope C) Done
  clear_signal s = (returned tt, record s { capture_signal = 0 })

  unfoldable pub open_scope : Action (SignalScope C) Done
  open_scope = do
    clear_signal
    int ← install sigint C.stop_handler
    keep_int int
    term ← install sigterm C.stop_handler
    keep_term term

  -- The destructor.
  unfoldable pub close_scope : SignalScope C → SignalScope C
  close_scope s =
      let s' = if s.term_installed then put_back sigterm s.previous_term s else s in
      if s'.int_installed then put_back sigint s'.previous_int s' else s'
