-- ===== src/Pipeline/Comparable.antt =====
-- src/core.cpp `reports_comparable` of the reports of two engines on one capture.
use bengal_market.Base.{Bytes, List, arith, length, none, refl, true, ℕ, ◌%◌, ◌==◌, ◌^◌, ◌≡◌}
use bengal_market.Checksum.{checksum_from, fnv_offset}
use bengal_market.Histogram.{Histogram, summary}
use bengal_market.Model.{Trade}
use bengal_market.Pipeline.{Engine, Run, State, report, start, stopped}
use bengal_market.Pipeline.Drain.{stopped-IsDrained}
use bengal_market.Report.{ParseMetrics, reports_comparable}

pub summary-samples : (h : Histogram) → (summary h).samples ≡ h.samples
unfolding summary
summary-samples h = ground arith

eq_same : (n : ℕ) → (n == n) ≡ true
eq_same n = ground arith

-- When each engine's worker has stopped with nothing left in its queue, on the same trades and with
-- the same metrics of a capture without parse errors, the two reports are comparable, whatever the
-- interleavings, the clocks, the names and the elapsed times were.
pub reports_comparable-report :
    (F G : Engine) (trades : List Trade) (s : State F.Queue) (u : State G.Queue)
    → (input : ParseMetrics) (name_s name_u : Bytes) (elapsed_s elapsed_u : ℕ)
    → input.parse_errors ≡ 0
    → Run F (start F trades) s
    → s.worker ≡ stopped
    → (F.try_pop s.queue).0 ≡ none
    → Run G (start G trades) u
    → u.worker ≡ stopped
    → (G.try_pop u.queue).0 ≡ none
    → reports_comparable (report F name_s input elapsed_s s) (report G name_u input elapsed_u u)
      ≡ true
unfolding reports_comparable report
reports_comparable-report F G trades s u input name_s name_u elapsed_s elapsed_u e rs es ns ru eu
      nu =
    let d = stopped-IsDrained F trades s rs es ns in
    let c = stopped-IsDrained G trades u ru eu nu in
    rw
      (
        e,
        summary-samples s.histogram,
        summary-samples u.histogram,
        d.sampled,
        c.sampled,
        d.counted,
        c.counted,
        d.hashed,
        c.hashed,
        eq_same input.frames,
        eq_same (length trades % 2 ^ 64),
        eq_same (checksum_from fnv_offset trades),
      )
      refl
