-- ===== src/Pipeline.antt =====
-- src/core.cpp: `pipeline`, one producer and one worker thread round a bounded queue. The state holds
-- the members and where each thread stands; `Step` is one step of either thread, and every
-- interleaving is a sequence of steps.
pub mod Inv
pub mod Poll
pub mod Drain
pub mod Stop
pub mod Pass
pub mod Comparable
pub mod Race
mod Tests
use bengal_market.Base.{
  Bool, Bytes, List, Option, [], false, if◌then◌else◌, none, some, suc, true, zero, ℕ, ◌++◌, ◌∷◌,
  ◌≡◌,
}
use bengal_market.Base.Words.{add_u64, sub_u64}
use bengal_market.Checksum.{fnv_offset, update_checksum}
use bengal_market.Fifo.{Fifo}
use bengal_market.Histogram.{Histogram, empty, observe, summary}
use bengal_market.Model.{Trade, queue_capacity}
use bengal_market.Report.{ParseMetrics, ReplayReport}

-- Where `consume` stands: before `try_pop`, between an empty `try_pop` and the load of
-- `producer_done_`, and behind the loop.
pub data Worker : Type 0 where
  polling found_empty stopped : Worker

pub record State (Queue : Type 0) : Type 0 where
  pub queue : Queue
  pub producer_done : Bool
  pub histogram : Histogram
  pub events : ℕ
  pub backpressure : ℕ
  pub checksum : ℕ
  -- The trades that the producer has not submitted yet, and the one that it is submitting.
  pub todo : List Trade
  pub pending : Option Trade
  pub worker : Worker
  -- What the worker has popped so far, the oldest first. Nothing reads it.
  pub processed : List Trade

abbrev pub Engine : Type 1
Engine = Fifo Trade queue_capacity

module _ (F : Engine) where
  open F use {Queue, fresh, try_push, try_pop}

  unfoldable pub start : List Trade → State Queue
  start trades = record {
    queue = fresh;
    producer_done = false;
    histogram = empty;
    events = 0;
    backpressure = 0;
    checksum = fnv_offset;
    todo = trades;
    pending = none;
    worker = polling;
    processed = [];
  }

  abbrev pub stamp : ℕ → Trade → Trade
  stamp now t = record t { enqueued_ns = now }

  -- One round of the loop in `submit`.
  pub submit_round : State Queue → Trade → State Queue
  submit_round s t =
      let r = try_push s.queue t in
      if r.0
      then record s { queue = r.1; pending = none }
      else record s { queue = r.1; backpressure = add_u64 s.backpressure 1 }

  -- What `consume` does with a value that it popped; `now` is the clock at that moment.
  pub process : ℕ → State Queue → Trade → State Queue
  process now s t = record s {
    histogram = observe s.histogram (sub_u64 now t.enqueued_ns);
    checksum = update_checksum s.checksum t;
    events = add_u64 s.events 1;
    processed = s.processed ++ t ∷ [];
  }

  pub consume_round : ℕ → State Queue → State Queue
  unfolding process
  consume_round now s =
      let r = try_pop s.queue in
      let s' = record s { queue = r.1 } in
      elim r.0 [ none ↦ record s' { worker = found_empty } | some t ↦ process now s' t ]

  -- The load of `producer_done_` after an empty poll.
  abbrev pub load_round : State Queue → State Queue
  load_round s = record s { worker = if s.producer_done then stopped else polling }

  -- One step of `consume`, from where the worker stands.
  abbrev pub round_from : Worker → ℕ → State Queue → State Queue
  round_from polling now s = consume_round now s
  round_from found_empty now s = load_round s
  round_from stopped now s = s

  -- `consume` with the processor to itself, for `fuel` steps; `clock` gives the time at each.
  pub consume : ℕ → (ℕ → ℕ) → State Queue → State Queue
  consume zero clock s = s
  consume (suc fuel) clock s = consume fuel clock (round_from s.worker (clock fuel) s)

  -- The clock values are whatever the environment gives.
  pub data Step (s : State Queue) : State Queue → Type 0 where
    -- `submit` begins: the value gets its time.
    take_next :
        (t : Trade) (ts : List Trade) (now : ℕ)
        → s.pending ≡ none
        → s.todo ≡ t ∷ ts
        → Step s (record s { pending = some (stamp now t); todo = ts })
    push : (t : Trade) → s.pending ≡ some t → Step s (submit_round s t)
    -- `finish`, after the reader has returned.
    signal_done : s.pending ≡ none → s.todo ≡ [] → Step s (record s { producer_done = true })
    poll : (now : ℕ) → s.worker ≡ polling → Step s (consume_round now s)
    load_done : s.worker ≡ found_empty → Step s (load_round s)

  pub data Run (s : State Queue) : State Queue → Type 0 where
    here : Run s s
    next : {t u : State Queue} → Run s t → Step t u → Run s u

  unfoldable pub report : Bytes → ParseMetrics → ℕ → State Queue → ReplayReport
  report engine_name input elapsed_ns s = record {
    engine = engine_name;
    input = input;
    stage_latency = summary s.histogram;
    events = s.events;
    dropped = 0;
    backpressure = s.backpressure;
    checksum = s.checksum;
    elapsed_ns = elapsed_ns;
  }
