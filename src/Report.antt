-- ===== src/Report.antt =====
-- include/bengal_market/model.hpp and src/core.cpp: `parse_metrics`, `replay_report` and
-- `reports_comparable`.
pub mod Text
use bengal_market.Base.{Bool, Bytes, ℕ, ◌&&◌, ◌==◌}
use bengal_market.Histogram.{LatencySummary}

pub record ParseMetrics : Type 0 where
  pub frames : ℕ
  pub parse_errors : ℕ
  pub sequence_gaps : ℕ
  pub out_of_order : ℕ

pub record ReplayReport : Type 0 where
  pub engine : Bytes
  pub input : ParseMetrics
  pub stage_latency : LatencySummary
  pub events : ℕ
  pub dropped : ℕ
  pub backpressure : ℕ
  pub checksum : ℕ
  pub elapsed_ns : ℕ

unfoldable pub reports_comparable : ReplayReport → ReplayReport → Bool
reports_comparable bengal standard =
    (bengal.input.frames == standard.input.frames)
    && ((bengal.input.parse_errors == 0)
        && ((standard.input.parse_errors == 0)
            && ((bengal.events == standard.events)
                && ((bengal.checksum == standard.checksum)
                    && ((bengal.dropped == 0)
                        && ((standard.dropped == 0)
                            && ((bengal.stage_latency.samples == bengal.events)
                                && (standard.stage_latency.samples == standard.events))))))))

pub data PipelineEngine : Type 0 where
  bengal standard : PipelineEngine
