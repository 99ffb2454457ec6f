-- ===== src/Replay.antt =====
-- src/core.cpp: `replay_with` and `replay`, the reader of a capture with a pipeline behind it. The
-- reader does not look at the pipeline, so the trades that it gives are those of `read_capture`.
pub mod Returns
mod Tests
use bengal_market.Base.{Bytes, arith, codes, true, ℕ, ◌≡◌}
use bengal_market.Base.Words.{sub_u64}
use bengal_market.Capture.{Reader, captured, read_capture}
use bengal_market.Json.{JsonLib}
use bengal_market.Model.{Trade, queue_capacity}
use bengal_market.Pipeline.{Engine, Run, State, report, start, stopped}
use bengal_market.Report.{PipelineEngine, ReplayReport, bengal, standard}
use bengal_market.Spsc.Standard.{standard_spsc_queue}

abbrev pub engine_name : PipelineEngine → Bytes
engine_name bengal = codes "bengal"
engine_name standard = codes "standard"

module _ (J : JsonLib) (third_party : Engine) where
  abbrev pub queue_of : PipelineEngine → Engine
  queue_of bengal = third_party
  queue_of standard = standard_spsc_queue Trade queue_capacity (omega arith) (omega arith)

  -- What `replay` may return for a capture: `finish` has joined the worker, at the end of some run of
  -- the two threads; `begun` and `ended` are the two readings of the clock.
  pub data Replayed (stream : Bytes) (engine : PipelineEngine) : ReplayReport → Type 0 where
    replayed :
        (r : Reader) (s : State (queue_of engine).Queue) (begun ended : ℕ)
        → read_capture J stream ≡ captured r
        → Run (queue_of engine) (start (queue_of engine) r.consumed) s
        → s.producer_done ≡ true
        → s.worker ≡ stopped
        → Replayed stream engine
            (report (queue_of engine) (engine_name engine) r.metrics (sub_u64 ended begun) s)
