-- ===== src/Pipeline/Race.antt =====
-- src/core.cpp `pipeline::consume`: between an empty `try_pop` and the load of `producer_done_` the
-- producer may submit values and finish. The worker then stops without looking at the queue again.
use mathlib.Core.Path.{subst}
use bengal_market.Base.{
  List, [], ap, append-nil, arith, if◌then◌else◌, length, length-append, map, none, refl, some,
  true, ◌++◌, ◌+◌, ◌∷◌, ◌≡◌, ◌≤◌,
}
use bengal_market.Base.Words.{add_u64}
use bengal_market.Model.{Trade, queue_capacity}
use bengal_market.Pipeline.{
  Engine, Run, State, consume_round, found_empty, here, load_done, next, poll, push, signal_done,
  stamp, start, stopped, submit_round, take_next,
}
use bengal_market.Pipeline.Inv.{Run-IsSound, normal}

module _ (F : Engine) where
  open F use {Queue, Holds}

  -- The worker has found the queue empty at its first poll; the producer is at `ts`.
  record IsBehind (trades ts : List Trade) (s : State Queue) : Type 0 where
    pub run : Run F (start F trades) s
    pub waiting : List Trade
    pub holds : Holds s.queue waiting
    pub room : length waiting + length ts ≤ queue_capacity
    pub idle : s.pending ≡ none
    pub left : s.todo ≡ ts
    pub found : s.worker ≡ found_empty
    pub uncounted : s.events ≡ 0
    pub unprocessed : s.processed ≡ []

  submit_round-room :
      (s : State Queue) (t : Trade)
      → (F.try_push s.queue t).0 ≡ true
      → submit_round F s t ≡ record s { queue = (F.try_push s.queue t).1; pending = none }
  unfolding submit_round
  submit_round-room s t e =
      ap
        (λ b.
          if b then record s { queue = (F.try_push s.queue t).1; pending = none } else record s {
            queue = (F.try_push s.queue t).1;
            backpressure = add_u64 s.backpressure 1;
          })
        e

  -- The producer submits one more value.
  submit_one :
      (trades ts : List Trade) (t : Trade) (s : State Queue)
      → IsBehind trades (t ∷ ts) s
      → (s' : State Queue) × IsBehind trades ts s'
  submit_one trades ts t s b =
      let taken = record s { pending = some (stamp F 0 t); todo = ts } in
      let (e, h) = F.push_room s.queue b.waiting (stamp F 0 t) b.holds (omega (arith, b.room)) in
      let pushed : Run F (start F trades) (submit_round F taken (stamp F 0 t)) =
        next (next b.run (take_next t ts 0 b.idle b.left)) (push (stamp F 0 t) refl) in
      (
        record taken { queue = (F.try_push s.queue (stamp F 0 t)).1; pending = none },
        record {
          run =
              subst (λ s'. Run F (start F trades) s') (submit_round-room taken (stamp F 0 t) e)
                pushed;
          waiting = b.waiting ++ stamp F 0 t ∷ [];
          holds = h;
          room = omega (arith, b.room, length-append b.waiting (stamp F 0 t ∷ []));
          idle = refl;
          left = refl;
          found = b.found;
          uncounted = b.uncounted;
          unprocessed = b.unprocessed;
        },
      )

  submit_all :
      (trades ts : List Trade) (s : State Queue)
      → IsBehind trades ts s
      → (s' : State Queue) × IsBehind trades [] s'
  submit_all trades [] s b = (s, b)
  submit_all trades (t ∷ ts) s b =
      let (s', b') = submit_one trades ts t s b in submit_all trades ts s' b'

  -- The worker has stopped with nothing processed and all that was submitted still in the queue.
  pub record IsLost (trades : List Trade) (s : State Queue) : Type 0 where
    pub run : Run F (start F trades) s
    pub finished : (s.worker ≡ stopped) × (s.todo ≡ [])
    pub uncounted : s.events ≡ 0
    pub waiting : List Trade
    pub holds : Holds s.queue waiting
    pub unread : map normal waiting ≡ map normal trades

  first_poll :
      (trades : List Trade)
      → length trades ≤ queue_capacity
      → (s : State Queue) × IsBehind trades trades s
  unfolding start consume_round
  first_poll trades l =
      let (e, h) = F.pop_none F.fresh F.fresh_holds in
      let popped : Run F (start F trades) (consume_round F 0 (start F trades)) =
        next here (poll 0 refl) in
      (
        record (start F trades) { queue = (F.try_pop F.fresh).1; worker = found_empty },
        record {
          run = rw (consume_round, e) at popped;
          waiting = [];
          holds = h;
          room = omega (arith, l);
          idle = refl;
          left = refl;
          found = refl;
          uncounted = refl;
          unprocessed = refl;
        },
      )

  -- For any trades that fit in the queue there is an interleaving in which the worker stops with
  -- every one of them unread.
  pub unread_trades :
      (trades : List Trade) → length trades ≤ queue_capacity → (s : State Queue) × IsLost trades s
  unread_trades trades l =
      let (s0, b0) = first_poll trades l in
      let (s, b) = submit_all trades trades s0 b0 in
      let done = record s { producer_done = true } in
      let v = Run-IsSound F trades s b.run in
      (
        record done { worker = stopped },
        record {
          run = next (next b.run (signal_done b.idle b.left)) (load_done b.found);
          finished = (refl, b.left);
          uncounted = b.uncounted;
          waiting = v.waiting;
          holds = v.holds;
          unread = cc (rw (b.unprocessed, b.idle, b.left, append-nil) at v.order);
        },
      )
