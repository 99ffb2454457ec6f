-- ===== src/Lib.antt =====
-- Verification of bengal-market.
--
-- bengal-market replays captured market data. A capture is read line by line, each trade is parsed
-- and submitted to a pipeline, one producer and one worker thread round a bounded queue, and the
-- worker counts, times and hashes what it takes. Two engines, a third-party queue and a standard one,
-- run on the same capture, and their reports are compared. A capture comes from the network: messages
-- are written line by line into a part file, which gets its name only when it is whole. The command
-- line leads to these parts and turns what they answer into an exit code.
--
-- The files, and the code they model (paths from the repository's root):
--   Base          helpers: native lists, byte strings, signed integers, uint64_t and uint32_t words.
--   Charconv      std::from_chars into a uint64_t and the decimal print, of the C++ library.
--   Model         include/bengal_market/model.hpp: bounded_text, trade_side, trade.
--   Decimal       src/core.cpp: parse_decimal, format_decimal.
--   Timestamp     src/core.cpp: parse_component, is_leap_year, days_in_month, days_from_civil,
--                 parse_timestamp_ns. Timestamp.Gregorian is the calendar of the statements.
--   Histogram     src/core.cpp: latency_histogram (observe, summary, quantile), latency_summary.
--   Checksum      src/core.cpp: hash_bytes, hash_integer, update_checksum.
--   Fifo          what the pipeline relies on in a queue, as a record of operations and laws.
--   Spsc          src/core.cpp: standard_spsc_queue, an instance of Fifo.
--   Pipeline      src/core.cpp: pipeline (submit, finish, consume, report) as a step relation of its
--                 two threads; every interleaving is a sequence of steps.
--   Report        include/bengal_market/model.hpp and src/core.cpp: parse_metrics, replay_report,
--                 reports_comparable; Text has report_value, report_json and comparison_json.
--   Json          what the program uses of the third-party JSON library: the reading of values as a
--                 record of operations, the values that it writes as data, and Laws on what is read of
--                 a value that was written. Table is such a library for the tests.
--   Capture       src/core.cpp: read_bounded_line, read_capture.
--   Replay        src/core.cpp: replay_with, replay: the reader with a pipeline behind it.
--   Fixture       src/core.cpp: generate_fixture, over the output stream as a record.
--   Effects       helpers: calls that change a state and may throw, and Hoare triples on them.
--   AtomicOutput  src/atomic_output.hpp: atomic_output (constructor, write, write_line, commit,
--                 sync_parent, destructor), over the calls of the system as a record; Posix has what
--                 is relied on in them, and Memory a file system in memory for the tests.
--   Live          src/live.cpp, include/bengal_market/live.hpp: stopped, check, wait_socket, send_all,
--                 connect, capture_live with its two loops, over the clock, the network library and
--                 dump of a JSON value as a record; Laws has what is relied on in them.
--   Cli           src/main.cpp: parse_arguments, required, value_or, unsigned_value, reject_unknown;
--                 Program has main, over the commands as a record, and Signals the signal handlers,
--                 request_capture_stop and capture_signal_scope.
--   Benchmark     src/benchmark.cpp: nearest_rank, distribution, summarize, comparable, html_escape,
--                 and run_benchmark, over the calls of the system as a record (Host; Laws has what is
--                 relied on in them, and Memory is such a system for the tests). Reads has metric,
--                 latency_metric, summarize and comparable on JSON values, Process read_text,
--                 write_text, run_process and sha256, Machine trim, first_matching_line, memory_bytes,
--                 read_optional, utc_now and environment_value, Page html_report, Replays parse_report,
--                 run_replay and the two loops over it, Manifest the manifest, and Program the rest.
--
-- Integers are native numbers with the wrap-around of the machine word written out (Base/Words,
-- Base/Int). Loops are structural on what they consume, or run on fuel: the decimal print of a number
-- has as many rounds as the number, bit_width has 64 rounds, consume has two steps more than the queue
-- has slots, and the loop over a capture has one round more than the stream has characters. A text that
-- is written or sent has a round for each byte and for each time that the call is interrupted or put
-- off, which the laws bound, and so has the wait for a child process; the two loops of capture_live have more rounds than the duration has
-- nanoseconds, and every reading of the clock takes one. With that fuel no loop is cut off: the
-- theorems on calls hold of no call that runs out. Reads of the clock are arguments or calls.
--
-- The pipeline takes its queue as a value of Fifo: Spsc/Standard gives the standard one, and
-- bengal::spsc_queue, which is not part of the repository, stands behind the same record. The reader
-- of captures takes the JSON library as a value of JsonLib, of which nothing is assumed where the
-- capture is any stream; where the program reads its own texts, the laws of Json/Laws are. The reports
-- of the benchmark are typed in Benchmark and JSON values in Benchmark/Reads, and the two agree.
--
-- The calls of the system, of the network library and of the JSON library are parameters, with laws on
-- what they do to the files, the clock and the waits. The laws take it that no other process changes
-- the file names in use, that the programs which a benchmark starts write only to the two files that
-- they are given, that two names in a directory are two files, that a write or a wait is
-- interrupted and a send put off only so often in a row, and that the deadline of a capture does not
-- overflow. An exception is the first words of its text. A child process runs to its end at its fork,
-- since the parent does nothing but wait for it.
--
-- Not modelled: the flush of a stream of generate_fixture when it is closed, the digits of put_time
-- and of a number that std::istringstream reads, the release of the network library's handles and
-- its progress callback, and the texts of the usage and of the lines that main prints. The first two
-- are of the C++ library, the third is a call from inside a parameter, and the texts decide nothing.
pub mod Base
pub mod Charconv
pub mod Decimal
pub mod Timestamp
pub mod Histogram
pub mod Fifo
pub mod Spsc
pub mod Model
pub mod Json
pub mod Capture
pub mod Checksum
pub mod Report
pub mod Pipeline
pub mod Replay
pub mod Fixture
pub mod Effects
pub mod AtomicOutput
pub mod Live
pub mod Cli
pub mod Benchmark
