-- ===== src/Replay/Tests.antt =====
-- Tests of `replay` of src/core.cpp, on the capture of one trade.
use bengal_market.Base.{arith}
use bengal_market.Capture.Tests.{path_library, read_result, read_result-captured, test_stream}
use bengal_market.Model.{Trade, queue_capacity}
use bengal_market.Pipeline.{Engine}
use bengal_market.Replay.{Replayed}
use bengal_market.Replay.Returns.{IsFaithful, replay-IsFaithful}
use bengal_market.Report.{ReplayReport, standard}
use bengal_market.Spsc.Standard.{standard_spsc_queue}

abbrev third_party_queue : Engine
third_party_queue = standard_spsc_queue Trade queue_capacity (omega arith) (omega arith)

replay-IsFaithful_example :
    (a : ReplayReport) × (Replayed path_library third_party_queue test_stream standard a
      × IsFaithful read_result standard a)
replay-IsFaithful_example =
    replay-IsFaithful path_library third_party_queue test_stream standard read_result
      read_result-captured
