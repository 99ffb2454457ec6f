-- ===== src/Pipeline/Drain.antt =====
-- src/core.cpp `pipeline`: the runs in which the worker takes all that was submitted.
use bengal_market.Base.{
  List, [], ap, append-nil, inl, inr, length, map, none, refl, suc, sym, true, ℕ, ◌%◌, ◌^◌, ◌∙◌,
  ◌∷◌, ◌≡◌, ◌⊎◌,
}
use bengal_market.Checksum.{checksum_from, fnv_offset, update_checksum}
use bengal_market.Histogram.{empty}
use bengal_market.Model.{Trade}
use bengal_market.Pipeline.{
  Engine, Run, State, Step, consume_round, here, load_done, next, poll, polling, push, signal_done,
  start, stopped, take_next,
}
use bengal_market.Pipeline.Inv.{IsSound, Run-IsSound, Step-IsSound, normal}
use bengal_market.Pipeline.Poll.{poll_none, poll_some}

-- All of `trades` was processed, in order, and the fields of the report say so.
pub record IsDrained (trades : List Trade) {Queue : Type 0} (s : State Queue) : Type 0 where
  pub complete : map normal s.processed ≡ map normal trades
  pub counted : s.events ≡ length trades % 2 ^ 64
  pub sampled : s.histogram.samples ≡ s.events
  pub hashed : s.checksum ≡ checksum_from fnv_offset trades

checksum_from-normal :
    (h : ℕ) (ts : List Trade) → checksum_from h ts ≡ checksum_from h (map normal ts)
unfolding update_checksum
checksum_from-normal h [] = refl
checksum_from-normal h (t ∷ ts) = checksum_from-normal (update_checksum h t) ts

length-normal : (ts : List Trade) → length (map normal ts) ≡ length ts
length-normal [] = refl
length-normal (t ∷ ts) = ap suc (length-normal ts)

module _ (F : Engine) where
  open F use {Queue, Holds}

  module _ (trades : List Trade) where
    all-IsDrained :
        (s : State Queue) (v : IsSound F trades s)
        → v.waiting ≡ []
        → s.producer_done ≡ true
        → IsDrained trades s
    all-IsDrained s v w d =
        let all : map normal s.processed ≡ map normal trades =
          cc (rw (w, (v.closed d).0, (v.closed d).1, append-nil) at v.order) in
        let same : length s.processed ≡ length trades =
          sym (length-normal s.processed) ∙ ap length all ∙ length-normal trades in
        record {
          complete = all;
          counted = v.counted ∙ ap (λ n. n % 2 ^ 64) same;
          sampled = v.sampled;
          hashed =
              v.hashed
              ∙ checksum_from-normal fnv_offset s.processed
              ∙ ap (checksum_from fnv_offset) all
              ∙ sym (checksum_from-normal fnv_offset trades);
        }

    waiting_nil :
        (s : State Queue) (v : IsSound F trades s) → (F.try_pop s.queue).0 ≡ none → v.waiting ≡ []
    waiting_nil s v e = go v.waiting v.holds
      where
        go : (w : List Trade) → Holds s.queue w → w ≡ []
        go [] h = refl
        go (t ∷ ts) h = cc (sym e ∙ (F.pop_some s.queue t ts h).0)

    -- A worker that has stopped, in any interleaving, when a pop would find nothing in the queue, has
    -- processed every trade in order, but for their time of submission; `events` is their number
    -- modulo 2^64, the histogram has as many samples, and the checksum is that of the trades.
    pub stopped-IsDrained :
        (s : State Queue)
        → Run F (start F trades) s
        → s.worker ≡ stopped
        → (F.try_pop s.queue).0 ≡ none
        → IsDrained trades s
    stopped-IsDrained s r e empty =
        let v = Run-IsSound F trades s r in all-IsDrained s v (waiting_nil s v empty) (v.ended e)

    -- The producer is done, and the worker has still to poll or has found the queue empty since.
    record IsClosing (s : State Queue) : Type 0 where
      pub sound : IsSound F trades s
      pub done : s.producer_done ≡ true
      pub since : (s.worker ≡ polling) ⊎ Holds s.queue []

    -- A poll leaves the worker where it was, or the queue empty.
    poll_since :
        (now : ℕ) (s : State Queue) (w : List Trade)
        → Holds s.queue w
        → s.worker ≡ polling
        → ((consume_round F now s).producer_done ≡ s.producer_done)
          × (((consume_round F now s).worker ≡ polling) ⊎ Holds (consume_round F now s).queue [])
    poll_since now s [] h e = let (d, (f, h')) = poll_none F now s h in (d, inr h')
    poll_since now s (t ∷ ts) h e = let (d, (f, h')) = poll_some F now s t ts h in (d, inl (f ∙ e))

    Step-since :
        (s s' : State Queue)
        → IsClosing s
        → Step F s s'
        → (s'.producer_done ≡ true) × ((s'.worker ≡ polling) ⊎ Holds s'.queue [])
    Step-since s _ c (take_next t ts now e e') = cc (sym e' ∙ (c.sound.closed c.done).1)
    Step-since s _ c (push t e) = cc (sym e ∙ (c.sound.closed c.done).0)
    Step-since s _ c (signal_done e e') = (refl, c.since)
    Step-since s _ c (poll now e) =
        let (d, since) = poll_since now s c.sound.waiting c.sound.holds e in (d ∙ c.done, since)
    Step-since s _ c (load_done e) = elim c.since [
      | inl q ↦ cc (sym q ∙ e)
      | inr h ↦ (c.done, inr h)
    ]

    Run-IsClosing : (s s' : State Queue) → IsClosing s → Run F s s' → IsClosing s'
    Run-IsClosing s _ c here = c
    Run-IsClosing s s' c (next {t} r st) =
        let before = Run-IsClosing s t c r in
        let (done, since) = Step-since t s' before st in
        record { sound = Step-IsSound F trades t s' before.sound st; done = done; since = since }

    -- When a run has the producer done and the worker before a poll, then wherever the two threads
    -- go from there, the worker stops only after it has processed every trade, in order, with the
    -- count, the samples and the checksum of all of them.
    pub late_poll-IsDrained :
        (s s' : State Queue)
        → Run F (start F trades) s
        → s.producer_done ≡ true
        → s.worker ≡ polling
        → Run F s s'
        → s'.worker ≡ stopped
        → IsDrained trades s'
    late_poll-IsDrained s s' r d p r' e =
        let c =
          Run-IsClosing s s' (record { sound = Run-IsSound F trades s r; done = d; since = inl p })
            r' in
        elim c.since [
          | inl q ↦ cc (sym q ∙ e)
          | inr h ↦
              all-IsDrained s' c.sound (waiting_nil s' c.sound (F.pop_none s'.queue h).0) c.done
        ]
