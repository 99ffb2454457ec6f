-- ===== src/Replay/Returns.antt =====
-- src/core.cpp `replay`: every capture that can be read has a replay that returns a faithful report.
use bengal_market.Base.{Bytes, length, refl, ◌%◌, ◌^◌, ◌∙◌, ◌≡◌}
use bengal_market.Base.Words.{sub_u64}
use bengal_market.Capture.{Reader, captured, read_capture}
use bengal_market.Checksum.{checksum_from, fnv_offset}
use bengal_market.Json.{JsonLib}
use bengal_market.Pipeline.{Engine, report}
use bengal_market.Pipeline.Comparable.{summary-samples}
use bengal_market.Pipeline.Pass.{IsDrained-Run}
use bengal_market.Replay.{Replayed, engine_name, queue_of, replayed}
use bengal_market.Report.{PipelineEngine, ReplayReport}

-- The report has the reader's counts, and the count and checksum of all the reader's trades.
pub record IsFaithful (r : Reader) (engine : PipelineEngine) (a : ReplayReport) : Type 0 where
  pub named : a.engine ≡ engine_name engine
  pub same_input : a.input ≡ r.metrics
  pub all_events : a.events ≡ length r.consumed % 2 ^ 64
  pub all_samples : a.stage_latency.samples ≡ a.events
  pub all_hashed : a.checksum ≡ checksum_from fnv_offset r.consumed
  pub none_dropped : a.dropped ≡ 0

module _ (J : JsonLib) (third_party : Engine) where
  -- With any JSON library and any third-party queue that is a bounded FIFO: for each engine and
  -- every capture that `read_capture` returns on, there is a replay that returns, and its report
  -- has the name of the engine, the counts of the reader, the number of the trades that the reader
  -- accepted, modulo 2^64, as its events and its samples, their checksum, and none dropped.
  pub replay-IsFaithful :
      (stream : Bytes) (engine : PipelineEngine) (r : Reader)
      → read_capture J stream ≡ captured r
      → (a : ReplayReport) × (Replayed J third_party stream engine a × IsFaithful r engine a)
  unfolding report
  replay-IsFaithful stream engine r e =
      let F = queue_of J third_party engine in
      let (s, (run, (done, (ends, d)))) = IsDrained-Run F r.consumed in
      (
        report F (engine_name engine) r.metrics (sub_u64 1 0) s,
        (
          replayed r s 0 1 e run done ends,
          record {
            named = refl;
            same_input = refl;
            all_events = d.counted;
            all_samples = summary-samples s.histogram ∙ d.sampled;
            all_hashed = d.hashed;
            none_dropped = refl;
          },
        ),
      )
