-- ===== src/Report/Text.antt =====
-- src/core.cpp: `report_value`, `report_json` and `comparison_json`, over the `dump(2)` of the JSON
-- library and the version of the third-party queue.
use bengal_market.Base.{Bytes, Option, [], codes, ◌∷◌}
use bengal_market.Json.Value.{JsonValue, json_bool, json_number, json_string, object_of}
use bengal_market.Pipeline.{report}
use bengal_market.Report.{ReplayReport, reports_comparable}

unfoldable pub report_value : Bytes → ReplayReport → JsonValue
report_value version report = object_of (
    (codes "schema_version", json_number 1)
    ∷ (codes "bengal_version", json_string version)
    ∷ (codes "engine", json_string report.engine)
    ∷ (
      codes "input",
      object_of (
          (codes "frames", json_number report.input.frames)
          ∷ (codes "parse_errors", json_number report.input.parse_errors)
          ∷ (codes "sequence_gaps", json_number report.input.sequence_gaps)
          ∷ (codes "out_of_order", json_number report.input.out_of_order)
          ∷ []),
    )
    ∷ (
      codes "pipeline",
      object_of (
          (codes "events", json_number report.events)
          ∷ (codes "dropped", json_number report.dropped)
          ∷ (codes "backpressure", json_number report.backpressure)
          ∷ (codes "checksum", json_number report.checksum)
          ∷ (codes "elapsed_ns", json_number report.elapsed_ns)
          ∷ (
            codes "latency_ns",
            object_of (
                (codes "samples", json_number report.stage_latency.samples)
                ∷ (codes "min", json_number report.stage_latency.minimum_ns)
                ∷ (codes "p50", json_number report.stage_latency.p50_ns)
                ∷ (codes "p95", json_number report.stage_latency.p95_ns)
                ∷ (codes "p99", json_number report.stage_latency.p99_ns)
                ∷ (codes "max", json_number report.stage_latency.maximum_ns)
                ∷ []),
          )
          ∷ []),
    )
    ∷ [])

unfoldable pub comparison_value : Bytes → ReplayReport → ReplayReport → JsonValue
unfolding report_value
comparison_value version first second = object_of (
    (codes "schema_version", json_number 1)
    ∷ (codes "comparable", json_bool (reports_comparable first second))
    ∷ (codes "bengal", report_value version first)
    ∷ (codes "standard", report_value version second)
    ∷ [])

module _ (version : Bytes) (dump : JsonValue → Option Bytes) where
  unfoldable pub report_json : ReplayReport → Option Bytes
  report_json report = dump (report_value version report)

  unfoldable pub comparison_json : ReplayReport → ReplayReport → Option Bytes
  comparison_json first second = dump (comparison_value version first second)
