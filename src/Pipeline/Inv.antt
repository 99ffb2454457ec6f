-- ===== src/Pipeline/Inv.antt =====
-- src/core.cpp `pipeline`: what every interleaving of the two threads keeps.
use mathlib.Core.List.{map-append}
use mathlib.Core.Path.{subst}
use native.Mathlib.Decide.{ℕ_discrete}
use bengal_market.Base.{
  List, Option, [], ap, append_assoc, arith, if◌then◌else◌, length, length-append, map, none, refl,
  some, sym, true, ℕ, ◌%◌, ◌++◌, ◌^◌, ◌∙◌, ◌∷◌, ◌≡◌,
}
use bengal_market.Base.Words.{add_u64, sub_u64}
use bengal_market.Checksum.{checksum_from, fnv_offset, update_checksum}
use bengal_market.Histogram.{Histogram, observe}
use bengal_market.Model.{Trade, queue_capacity}
use bengal_market.Pipeline.{
  Engine, Run, State, Step, consume_round, found_empty, here, load_done, next, poll, polling,
  process, push, signal_done, stamp, start, stopped, submit_round, take_next,
}

-- A trade but for the time at which it was submitted.
abbrev pub normal : Trade → Trade
normal t = record t { enqueued_ns = 0 }

abbrev pub pending_list : Option Trade → List Trade
pending_list none = []
pending_list (some t) = t ∷ []

pub checksum_from-append :
    (h : ℕ) (ts : List Trade) (t : Trade)
    → checksum_from h (ts ++ t ∷ []) ≡ update_checksum (checksum_from h ts) t
checksum_from-append h [] t = refl
checksum_from-append h (x ∷ ts) t = checksum_from-append (update_checksum h x) ts t

samples-observe : (h : Histogram) (v : ℕ) → (observe h v).samples ≡ add_u64 h.samples 1
unfolding observe
samples-observe h v = refl

module _ (F : Engine) where
  open F use {Queue, Holds}

  -- Nothing is lost, made up or put out of order, and the counts are those of what was popped.
  pub record IsSound (trades : List Trade) (s : State Queue) : Type 0 where
    pub waiting : List Trade
    pub holds : Holds s.queue waiting
    pub order :
        map normal trades
        ≡ map normal s.processed
          ++ (map normal waiting ++ (map normal (pending_list s.pending) ++ map normal s.todo))
    pub counted : s.events ≡ length s.processed % 2 ^ 64
    pub sampled : s.histogram.samples ≡ s.events
    pub hashed : s.checksum ≡ checksum_from fnv_offset s.processed
    pub closed : s.producer_done ≡ true → (s.pending ≡ none) × (s.todo ≡ [])
    pub ended : s.worker ≡ stopped → s.producer_done ≡ true

  start-IsSound : (trades : List Trade) → IsSound trades (start F trades)
  unfolding start
  start-IsSound trades = record {
    waiting = [];
    holds = F.fresh_holds;
    order = refl;
    counted = refl;
    sampled = refl;
    hashed = refl;
    closed = λ e. cc;
    ended = λ e. cc;
  }

  module _ (trades : List Trade) (s : State Queue) (v : IsSound trades s) where
    take_next-IsSound :
        (t : Trade) (ts : List Trade) (now : ℕ)
        → s.pending ≡ none
        → s.todo ≡ t ∷ ts
        → IsSound trades (record s { pending = some (stamp F now t); todo = ts })
    take_next-IsSound t ts now e e' = record {
      waiting = v.waiting;
      holds = v.holds;
      order = rw (e, e') at v.order;
      counted = v.counted;
      sampled = v.sampled;
      hashed = v.hashed;
      closed = λ d. cc (sym e' ∙ (v.closed d).1);
      ended = v.ended;
    }

    order_pushed :
        (t : Trade)
        → map normal trades
          ≡ map normal s.processed ++ (map normal v.waiting ++ (normal t ∷ map normal s.todo))
        → map normal trades
          ≡ map normal s.processed ++ (map normal (v.waiting ++ t ∷ []) ++ map normal s.todo)
    order_pushed t e =
        e
        ∙ ap (λ r. map normal s.processed ++ r)
            (sym (append_assoc (map normal v.waiting) (normal t ∷ []) (map normal s.todo))
              ∙ ap (λ r. r ++ map normal s.todo) (sym (map-append normal v.waiting (t ∷ []))))

    push-IsSound : (t : Trade) → s.pending ≡ some t → IsSound trades (submit_round F s t)
    unfolding submit_round
    push-IsSound t e = elim (ℕ_discrete (length v.waiting) queue_capacity) [
      | yes full ↦
          let (b, h) = F.push_full s.queue v.waiting t v.holds full in
          rw b (record {
            waiting = v.waiting;
            holds = h;
            order = v.order;
            counted = v.counted;
            sampled = v.sampled;
            hashed = v.hashed;
            closed = v.closed;
            ended = v.ended;
          })
      | no room ↦
          let (b, h) =
            F.push_room s.queue v.waiting t v.holds
              (omega (arith, F.bounded s.queue v.waiting v.holds)) in
          rw b (record {
            waiting = v.waiting ++ t ∷ [];
            holds = h;
            order = order_pushed t (rw e at v.order);
            counted = v.counted;
            sampled = v.sampled;
            hashed = v.hashed;
            closed = λ d. (refl, (v.closed d).1);
            ended = v.ended;
          })
    ]

    order_popped :
        (t : Trade) (ts : List Trade)
        → map normal trades
          ≡ map normal s.processed
            ++ (normal t ∷ map normal ts
                ++ (map normal (pending_list s.pending) ++ map normal s.todo))
        → map normal trades
          ≡ map normal (s.processed ++ t ∷ [])
            ++ (map normal ts ++ (map normal (pending_list s.pending) ++ map normal s.todo))
    order_popped t ts e =
        let rest = map normal ts ++ (map normal (pending_list s.pending) ++ map normal s.todo) in
        e
        ∙ sym (append_assoc (map normal s.processed) (normal t ∷ []) rest)
        ∙ ap (λ r. r ++ rest) (sym (map-append normal s.processed (t ∷ [])))

    process-IsSound :
        (now : ℕ) (q : Queue) (t : Trade) (ts : List Trade)
        → s.worker ≡ polling
        → v.waiting ≡ t ∷ ts
        → Holds q ts
        → IsSound trades (process F now (record s { queue = q }) t)
    unfolding process
    process-IsSound now q t ts e w h = record {
      waiting = ts;
      holds = h;
      order = order_popped t ts (rw w at v.order);
      counted = omega (arith, v.counted, length-append s.processed (t ∷ []));
      sampled =
          samples-observe s.histogram (sub_u64 now t.enqueued_ns) ∙ ap (λ n. add_u64 n 1) v.sampled;
      hashed =
          ap (λ n. update_checksum n t) v.hashed
          ∙ sym (checksum_from-append fnv_offset s.processed t);
      closed = v.closed;
      ended = λ d. cc (sym e ∙ d);
    }

    poll-IsSound : (now : ℕ) → s.worker ≡ polling → IsSound trades (consume_round F now s)
    unfolding consume_round
    poll-IsSound now e = go v.waiting refl
      where
        go : (w : List Trade) → v.waiting ≡ w → IsSound trades (consume_round F now s)
        go [] w =
            let (b, h) = F.pop_none s.queue (subst (λ xs. Holds s.queue xs) w v.holds) in
            rw (consume_round, b)
              (record {
                waiting = [];
                holds = h;
                order = rw w at v.order;
                counted = v.counted;
                sampled = v.sampled;
                hashed = v.hashed;
                closed = v.closed;
                ended = λ d. cc d;
              })
        go (t ∷ ts) w =
            let (b, h) = F.pop_some s.queue t ts (subst (λ xs. Holds s.queue xs) w v.holds) in
            rw (consume_round, b) (process-IsSound now (F.try_pop s.queue).1 t ts e w h)

    load_done-IsSound :
        s.worker ≡ found_empty
        → IsSound trades (record s { worker = if s.producer_done then stopped else polling })
    load_done-IsSound e = record {
      waiting = v.waiting;
      holds = v.holds;
      order = v.order;
      counted = v.counted;
      sampled = v.sampled;
      hashed = v.hashed;
      closed = v.closed;
      ended = λ d. ground (arith, d);
    }

    signal_done-IsSound :
        s.pending ≡ none → s.todo ≡ [] → IsSound trades (record s { producer_done = true })
    signal_done-IsSound e e' = record {
      waiting = v.waiting;
      holds = v.holds;
      order = v.order;
      counted = v.counted;
      sampled = v.sampled;
      hashed = v.hashed;
      closed = λ d. (e, e');
      ended = λ d. refl;
    }

  pub Step-IsSound :
      (trades : List Trade) (s : State Queue) (s' : State Queue)
      → IsSound trades s
      → Step F s s'
      → IsSound trades s'
  Step-IsSound trades s _ v (take_next t ts now e e') = take_next-IsSound trades s v t ts now e e'
  Step-IsSound trades s _ v (push t e) = push-IsSound trades s v t e
  Step-IsSound trades s _ v (signal_done e e') = signal_done-IsSound trades s v e e'
  Step-IsSound trades s _ v (poll now e) = poll-IsSound trades s v now e
  Step-IsSound trades s _ v (load_done e) = load_done-IsSound trades s v e

  -- In every state that an interleaving of the two threads reaches, over any queue that meets
  -- `Fifo`, the trades are, in order and but for their time of submission, those that were
  -- processed, those in the queue, the pending one and those to come; `events` is the number of the
  -- processed ones modulo 2^64, the histogram has as many samples, the checksum is theirs, a
  -- producer that is done has nothing left to submit, and the worker has stopped only behind a
  -- producer that is done.
  pub Run-IsSound :
      (trades : List Trade) (s : State Queue) → Run F (start F trades) s → IsSound trades s
  Run-IsSound trades _ here = start-IsSound trades
  Run-IsSound trades s (next {t} r st) = Step-IsSound trades t s (Run-IsSound trades t r) st
