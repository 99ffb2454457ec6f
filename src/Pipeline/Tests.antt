-- ===== src/Pipeline/Tests.antt =====
-- Tests: one trade through `pipeline` of src/core.cpp, with the standard queue.
use bengal_market.Base.{List, [], arith, codes, none, refl, some, true, ◌+◌, ◌∷◌, ◌≡◌}
use bengal_market.Base.Int.{pos}
use bengal_market.Model.{Trade, buy, queue_capacity}
use bengal_market.Pipeline.{
  Engine, Run, State, consume, consume_round, found_empty, here, load_done, load_round, next, poll,
  polling, process, push, report, signal_done, stamp, start, stopped, submit_round, take_next,
}
use bengal_market.Pipeline.Comparable.{reports_comparable-report}
use bengal_market.Pipeline.Drain.{IsDrained, late_poll-IsDrained}
use bengal_market.Pipeline.Inv.{IsSound, Run-IsSound}
use bengal_market.Pipeline.Race.{IsLost, unread_trades}
use bengal_market.Pipeline.Stop.{consume-drains}
use bengal_market.Report.{ParseMetrics, reports_comparable}
use bengal_market.Spsc.{fresh_ring, try_pop, try_push}
use bengal_market.Spsc.Standard.{standard_spsc_queue}

abbrev engine : Engine
engine = standard_spsc_queue Trade queue_capacity (omega arith) (omega arith)

abbrev one : Trade
one = record {
  trade_id = 49 ∷ [];
  product_id = 66 ∷ 84 ∷ 67 ∷ [];
  price = pos 150000000;
  size = pos 25000000;
  side = buy;
  source_time_ns = 1700000000000000000;
  enqueued_ns = 0;
}

abbrev trades : List Trade
trades = one ∷ []

abbrev taken : State engine.Queue
taken = record (start engine trades) { pending = some (stamp engine 5 one); todo = [] }

abbrev submitted : State engine.Queue
submitted = submit_round engine taken (stamp engine 5 one)

abbrev finished : State engine.Queue
finished = record submitted { producer_done = true }

abbrev popped : State engine.Queue
popped = consume_round engine 9 finished

abbrev emptied : State engine.Queue
emptied = consume_round engine 12 popped

abbrev ended : State engine.Queue
ended = load_round engine emptied

Run-to_finished : Run engine (start engine trades) finished
unfolding start submit_round try_push fresh_ring
Run-to_finished =
    next (next (next here (take_next one [] 5 refl refl)) (push (stamp engine 5 one) refl))
      (signal_done refl refl)

finished-polling : finished.worker ≡ polling
unfolding start submit_round try_push fresh_ring
finished-polling = refl

popped-polling : popped.worker ≡ polling
unfolding start submit_round try_push fresh_ring consume_round process try_pop
popped-polling = refl

emptied-found : emptied.worker ≡ found_empty
unfolding start submit_round try_push fresh_ring consume_round process try_pop
emptied-found = refl

Run-from_finished : Run engine finished ended
Run-from_finished =
    next (next (next here (poll 9 finished-polling)) (poll 12 popped-polling))
      (load_done emptied-found)

ended-stopped : ended.worker ≡ stopped
unfolding start submit_round try_push fresh_ring consume_round process try_pop
ended-stopped = refl

ended-empty : (engine.try_pop ended.queue).0 ≡ none
unfolding start submit_round try_push fresh_ring consume_round process try_pop
ended-empty = refl

ended-events : ended.events ≡ 1
unfolding start submit_round try_push fresh_ring consume_round process try_pop
ended-events = refl

Run-to_ended : Run engine (start engine trades) ended
Run-to_ended =
    next (next (next Run-to_finished (poll 9 finished-polling)) (poll 12 popped-polling))
      (load_done emptied-found)

Run-IsSound_example : IsSound engine trades ended
Run-IsSound_example = Run-IsSound engine trades ended Run-to_ended

late_poll-IsDrained_example : IsDrained trades ended
late_poll-IsDrained_example =
    late_poll-IsDrained engine trades finished ended Run-to_finished refl finished-polling
      Run-from_finished ended-stopped

consume-drains_example :
    ((consume engine (queue_capacity + 2) (λ n. n) finished).worker ≡ stopped)
    × IsDrained trades (consume engine (queue_capacity + 2) (λ n. n) finished)
consume-drains_example =
    consume-drains engine trades finished (λ n. n) Run-to_finished refl finished-polling

abbrev metrics : ParseMetrics
metrics = record { frames = 1; parse_errors = 0; sequence_gaps = 0; out_of_order = 0 }

reports_comparable-report_example :
    reports_comparable
      (report engine (codes "bengal") metrics 100 ended)
      (report engine (codes "standard") metrics 120 ended)
    ≡ true
reports_comparable-report_example =
    reports_comparable-report engine engine trades ended ended metrics (codes "bengal")
      (codes "standard") 100 120 refl Run-to_ended ended-stopped ended-empty Run-to_ended
      ended-stopped ended-empty

unread_trades_example : (s : State engine.Queue) × IsLost engine trades s
unread_trades_example = unread_trades engine trades (omega arith)
