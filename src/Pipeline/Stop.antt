-- ===== src/Pipeline/Stop.antt =====
-- src/core.cpp `pipeline::consume`: the loop ends once the producer is done.
use mathlib.Core.Path.{subst}
use bengal_market.Base.{
  List, [], ap, arith, if◌then◌else◌, length, refl, suc, sym, true, zero, ℕ, ◌+◌, ◌∙◌, ◌∷◌, ◌≡◌,
  ◌≤◌,
}
use bengal_market.Model.{Trade, queue_capacity}
use bengal_market.Pipeline.{
  Engine, Run, State, Worker, consume, consume_round, found_empty, here, load_done, next, poll,
  polling, round_from, start, stopped,
}
use bengal_market.Pipeline.Drain.{IsDrained, late_poll-IsDrained}
use bengal_market.Pipeline.Inv.{Run-IsSound}
use bengal_market.Pipeline.Poll.{poll_none, poll_some}

module _ (F : Engine) where
  open F use {Queue, Holds}

  round_from-Run :
      (w : Worker) (now : ℕ) (s s' : State Queue)
      → s.worker ≡ w
      → Run F s' s
      → Run F s' (round_from F w now s)
  round_from-Run polling now s s' e r = next r (poll now e)
  round_from-Run found_empty now s s' e r = next r (load_done e)
  round_from-Run stopped now s s' e r = r

  pub consume-Run :
      (fuel : ℕ) (clock : ℕ → ℕ) (s s' : State Queue)
      → Run F s' s
      → Run F s' (consume F fuel clock s)
  unfolding consume
  consume-Run zero clock s s' r = r
  consume-Run (suc fuel) clock s s' r =
      consume-Run fuel clock (round_from F s.worker (clock fuel) s) s'
        (round_from-Run s.worker (clock fuel) s s' refl r)

  consume-stopped :
      (fuel : ℕ) (clock : ℕ → ℕ) (s : State Queue)
      → s.worker ≡ stopped
      → (consume F fuel clock s).worker ≡ stopped
  unfolding consume
  consume-stopped zero clock s e = e
  consume-stopped (suc fuel) clock s e =
      consume-stopped fuel clock (round_from F s.worker (clock fuel) s)
        (ap (λ w. (round_from F w (clock fuel) s).worker) e ∙ e)

  load_stops :
      (fuel : ℕ) (clock : ℕ → ℕ) (s : State Queue)
      → s.producer_done ≡ true
      → s.worker ≡ found_empty
      → 1 ≤ fuel
      → (consume F fuel clock s).worker ≡ stopped
  unfolding consume
  load_stops zero clock s d e l = absurd (omega arith)
  load_stops (suc fuel) clock s d e l =
      consume-stopped fuel clock (round_from F s.worker (clock fuel) s) (
        ap (λ w. (round_from F w (clock fuel) s).worker) e
        ∙ ap (λ b. if b then stopped else polling) d)

  polls_stop :
      (fuel : ℕ) (clock : ℕ → ℕ) (s : State Queue) (xs : List Trade)
      → Holds s.queue xs
      → s.producer_done ≡ true
      → s.worker ≡ polling
      → length xs + 2 ≤ fuel
      → (consume F fuel clock s).worker ≡ stopped
  unfolding consume
  polls_stop zero clock s xs h d e l = absurd (omega arith)
  polls_stop (suc fuel) clock s [] h d e l =
      let (d', (e', h')) = poll_none F (clock fuel) s h in
      subst (λ w. (consume F fuel clock (round_from F w (clock fuel) s)).worker ≡ stopped) (sym e)
        (load_stops fuel clock (consume_round F (clock fuel) s) (d' ∙ d) e' (omega arith))
  polls_stop (suc fuel) clock s (x ∷ xs) h d e l =
      let (d', (e', h')) = poll_some F (clock fuel) s x xs h in
      subst (λ w. (consume F fuel clock (round_from F w (clock fuel) s)).worker ≡ stopped) (sym e)
        (polls_stop fuel clock (consume_round F (clock fuel) s) xs h' (d' ∙ d) (e' ∙ e)
          (omega arith))

  -- From any state that a run reaches with the producer done and the worker before a poll, the loop
  -- of `consume` ends within `queue_capacity + 2` steps, with every trade processed.
  pub consume-drains :
      (trades : List Trade) (s : State Queue) (clock : ℕ → ℕ)
      → Run F (start F trades) s
      → s.producer_done ≡ true
      → s.worker ≡ polling
      → ((consume F (queue_capacity + 2) clock s).worker ≡ stopped)
        × IsDrained trades (consume F (queue_capacity + 2) clock s)
  consume-drains trades s clock r d e =
      let v = Run-IsSound F trades s r in
      let s' = consume F (queue_capacity + 2) clock s in
      let ends : s'.worker ≡ stopped =
        polls_stop (queue_capacity + 2) clock s v.waiting v.holds d e
          (omega (arith, F.bounded s.queue v.waiting v.holds)) in
      (
        ends,
        late_poll-IsDrained F trades s s' r d e (consume-Run (queue_capacity + 2) clock s s here)
            ends,
      )
