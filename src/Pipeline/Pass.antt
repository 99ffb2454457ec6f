-- ===== src/Pipeline/Pass.antt =====
-- src/core.cpp `pipeline`: a run that ends with everything processed, for any trades.
use mathlib.Core.Path.{subst}
use bengal_market.Base.{
  List, Option, [], ap, arith, if◌then◌else◌, none, refl, some, true, ℕ, ◌+◌, ◌∙◌, ◌∷◌, ◌≡◌,
}
use bengal_market.Base.Words.{add_u64}
use bengal_market.Histogram.{empty}
use bengal_market.Model.{Trade, queue_capacity}
use bengal_market.Pipeline.{
  Engine, Run, State, consume, consume_round, here, next, poll, polling, process, push, signal_done,
  stamp, start, stopped, submit_round, take_next,
}
use bengal_market.Pipeline.Drain.{IsDrained}
use bengal_market.Pipeline.Inv.{Run-IsSound}
use bengal_market.Pipeline.Poll.{poll_some}
use bengal_market.Pipeline.Stop.{consume-Run, consume-drains}

module _ (F : Engine) where
  open F use {Queue, Holds}

  -- Every trade so far has been submitted and popped; the producer is at `ts`.
  record IsAbreast (trades ts : List Trade) (s : State Queue) : Type 0 where
    run : Run F (start F trades) s
    nothing_waits : Holds s.queue []
    idle : s.pending ≡ none
    left : s.todo ≡ ts
    polls : s.worker ≡ polling

  consume_round-todo :
      (now : ℕ) (s : State Queue)
      → ((consume_round F now s).todo ≡ s.todo) × ((consume_round F now s).pending ≡ s.pending)
  unfolding consume_round process
  consume_round-todo now s = go (F.try_pop s.queue).0 refl
    where
      go :
          (o : Option Trade)
          → (F.try_pop s.queue).0 ≡ o
          → ((consume_round F now s).todo ≡ s.todo) × ((consume_round F now s).pending ≡ s.pending)
      go none e = rw (consume_round, e) (refl, refl)
      go (some t) e = rw (consume_round, e) (refl, refl)

  -- One more trade goes through.
  pass_one :
      (trades ts : List Trade) (t : Trade) (s : State Queue)
      → IsAbreast trades (t ∷ ts) s
      → (s' : State Queue) × IsAbreast trades ts s'
  unfolding submit_round
  pass_one trades ts t s b =
      let taken = record s { pending = some (stamp F 0 t); todo = ts } in
      let (e, h) = F.push_room s.queue [] (stamp F 0 t) b.nothing_waits (omega arith) in
      let pushed = submit_round F taken (stamp F 0 t) in
      let same : pushed
          ≡ record taken { queue = (F.try_push s.queue (stamp F 0 t)).1; pending = none } =
        ap
          (λ b.
            if b
            then record taken { queue = (F.try_push s.queue (stamp F 0 t)).1; pending = none }
            else record taken {
              queue = (F.try_push s.queue (stamp F 0 t)).1;
              backpressure = add_u64 s.backpressure 1;
            })
          e in
      let full = record taken { queue = (F.try_push s.queue (stamp F 0 t)).1; pending = none } in
      let steps : Run F (start F trades) full =
        subst (λ s'. Run F (start F trades) s') same
          (next (next b.run (take_next t ts 0 b.idle b.left)) (push (stamp F 0 t) refl)) in
      let (d, (w, empty)) = poll_some F 0 full (stamp F 0 t) [] h in
      let (to, p) = consume_round-todo 0 full in
      (
        consume_round F 0 full,
        record {
          run = next steps (poll 0 b.polls);
          nothing_waits = empty;
          idle = p;
          left = to;
          polls = w ∙ b.polls;
        },
      )

  pass_all :
      (trades ts : List Trade) (s : State Queue)
      → IsAbreast trades ts s
      → (s' : State Queue) × IsAbreast trades [] s'
  pass_all trades [] s b = (s, b)
  pass_all trades (t ∷ ts) s b = let (s', b') = pass_one trades ts t s b in pass_all trades ts s' b'

  -- A run in which the producer finishes and the worker stops with everything processed.
  pub IsDrained-Run :
      (trades : List Trade)
      → (s : State Queue) × (Run F (start F trades) s
          × ((s.producer_done ≡ true) × ((s.worker ≡ stopped) × IsDrained trades s)))
  unfolding start
  IsDrained-Run trades =
      let first : IsAbreast trades trades (start F trades) = record {
        run = here;
        nothing_waits = F.fresh_holds;
        idle = refl;
        left = refl;
        polls = refl;
      } in
      let (s, b) = pass_all trades trades (start F trades) first in
      let s' = record s { producer_done = true } in
      let r : Run F (start F trades) s' = next b.run (signal_done b.idle b.left) in
      let (e, d) = consume-drains F trades s' (λ n. n) r refl b.polls in
      let u = consume F (queue_capacity + 2) (λ n. n) s' in
      let r' = consume-Run F (queue_capacity + 2) (λ n. n) s' (start F trades) r in
      (u, (r', ((Run-IsSound F trades u r').ended e, (e, d))))
