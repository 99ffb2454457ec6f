-- ===== src/Benchmark/Page.antt =====
-- src/benchmark.cpp `html_report`: the page that is made of the manifest. A call that throws is
-- `none`; `dump` is what `<<` writes for a JSON value.
use bengal_market.Base.{Bytes, Option, [], codes, if◌then◌else◌, some, ◌++◌, ◌>>=◌, ◌∷◌}
use bengal_market.Benchmark.{html_escape}
use bengal_market.Histogram.{summary}
use bengal_market.Json.Value.{JsonValue, at_value, bool_of, text_of}

module _ (dump : JsonValue → Option Bytes) where
  abbrev pub shown_at : JsonValue → Bytes → Option Bytes
  shown_at v key = at_value v key >>= dump

  unfoldable pub html_row : Bytes → JsonValue → JsonValue → Option Bytes
  html_row label left right = do
    left_median ← shown_at left (codes "median")
    left_p25 ← shown_at left (codes "p25")
    left_p75 ← shown_at left (codes "p75")
    right_median ← shown_at right (codes "median")
    right_p25 ← shown_at right (codes "p25")
    right_p75 ← shown_at right (codes "p75")
    some (
        codes "<tr><th>"
        ++ label
        ++ codes "</th><td>"
        ++ left_median
        ++ codes "</td><td>"
        ++ left_p25
        ++ codes " - "
        ++ left_p75
        ++ codes "</td><td>"
        ++ right_median
        ++ codes "</td><td>"
        ++ right_p25
        ++ codes " - "
        ++ right_p75
        ++ codes "</td></tr>")

  abbrev pub row_at : JsonValue → JsonValue → Bytes → Bytes → Option Bytes
  row_at bengal_side standard_side label key = do
    left ← at_value bengal_side key
    right ← at_value standard_side key
    html_row label left right

  unfoldable pub html_report : JsonValue → Option Bytes
  html_report manifest = do
    summary ← at_value manifest (codes "summary")
    bengal_side ← at_value summary (codes "bengal")
    standard_side ← at_value summary (codes "standard")
    fixture ← at_value manifest (codes "fixture")
    digest ← at_value fixture (codes "sha256") >>= text_of
    counts ← at_value manifest (codes "benchmark")
    runs ← shown_at counts (codes "runs")
    warmups ← shown_at counts (codes "warmups")
    valid ← at_value manifest (codes "comparable") >>= bool_of
    elapsed ← row_at bengal_side standard_side (codes "Elapsed ns") (codes "elapsed_ns")
    p50 ← row_at bengal_side standard_side (codes "Stage p50 ns") (codes "stage_latency_p50_ns")
    p95 ← row_at bengal_side standard_side (codes "Stage p95 ns") (codes "stage_latency_p95_ns")
    p99 ← row_at bengal_side standard_side (codes "Stage p99 ns") (codes "stage_latency_p99_ns")
    some (
        codes "<!doctype html><html lang=\"en\"><head><meta charset=\"utf-8\">"
        ++ codes "<meta name=\"viewport\" content=\"width=device-width,initial-scale=1\">"
        ++ codes "<title>Bengal Market benchmark report</title><style>"
        ++ codes "body{font:15px system-ui,sans-serif;max-width:960px;margin:40px "
        ++ codes "auto;padding:0 20px;color:#171717}table{border-collapse:collapse;"
        ++ codes "width:100%}th,td{border:1px solid #bbb;padding:8px;text-align:right}"
        ++ codes "th:first-child{text-align:left}code{background:#eee;padding:2px 4px}"
        ++ codes ".ok{color:#126b2f}.bad{color:#9b1c1c}</style></head><body>"
        ++ codes "<h1>Bengal Market benchmark report</h1><p>Fixture: <code>"
        ++ html_escape digest
        ++ codes "</code></p><p>Measured pairs: "
        ++ runs
        ++ codes "; warm-up pairs: "
        ++ warmups
        ++ codes "</p><p class=\""
        ++ (if valid then codes "ok" else codes "bad")
        ++ codes "\">Comparable: "
        ++ (if valid then codes "yes" else codes "no")
        ++ codes "</p><table><thead><tr><th>Metric</th>"
        ++ codes "<th>Bengal median</th><th>Bengal p25 - p75</th>"
        ++ codes "<th>Standard median</th><th>Standard p25 - p75</th>"
        ++ codes "</tr></thead><tbody>"
        ++ elapsed
        ++ p50
        ++ p95
        ++ p99
        ++ codes "</tbody></table><p>These are local bounded-pipeline measurements, "
        ++ codes "not exchange-to-client latency or financial performance.</p>"
        ++ codes "</body></html>"
        ++ 10 ∷ [])
