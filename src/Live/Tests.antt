-- ===== src/Live/Tests.antt =====
-- Tests of src/live.cpp on a network in memory: it answers by the time, and puts off the first send.
use mathlib.Core.Option.{some-injective}
use bengal_market.AtomicOutput.{
  check_absent, commit, construct, destroy, drop_name, drop_slashes, filename, has_slash,
  parent_path, publish, sync_parent, write, write_line, write_some,
}
use bengal_market.AtomicOutput.Memory.{
  Disk, create_in-delays, empty_disk, memory, memory-IsPosix, write_in-delays, write_in-time,
}
use bengal_market.Base.{
  Bytes, Option, [], arith, codes, false, length, min, none, refl, some, suc, sym, take, true, zero,
  ℕ, ◌%◌, ◌++◌, ◌+◌, ◌<◌, ◌∷◌, ◌≡◌,
}
use bengal_market.Effects.{Outcome, Result, ◌>>=◌}
use bengal_market.Json.Value.{JsonValue, at_value, text_of}
use bengal_market.Live.{
  CaptureOptions, CaptureResult, CaptureState, Network, Received, Sent, add_text, after_failure,
  attempt, capture_into, capture_live, connect, connection, curl_again, curl_ok, curl_other,
  finish_capture, goes_on, is_again, maximum_message_size, pause, receive_loop, reconnect_loop,
  record_frame, send_all, set_options, stopped, take_frame, take_received, throw_if_aborted,
  throw_if_stopped, wait_socket,
}
use bengal_market.Live.Laws.{IsNetwork, Quiet}
use bengal_market.Live.Saved.{IsLeft, IsSaved, IsStarting}
use bengal_market.Live.Sends.{send_all-sends}
use bengal_market.Live.Whole.{capture_live-IsSafe}
use bengal_market.Live.Wire.{IsWire}

abbrev by_time : ℕ → Received
by_time zero = record { code = curl_again; bytes = []; frame = none }
by_time (suc zero) = record {
  code = curl_ok;
  bytes = codes "tick";
  frame = some (record {
    close = false;
    ping_or_pong = false;
    binary = false;
    text = true;
    more = false;
    bytesleft = 0;
  });
}
by_time (suc (suc n)) = record { code = curl_other; bytes = []; frame = none }

abbrev send_in : ℕ → Bytes → Disk → Sent × Disk
send_in zero text w = (
  record { code = curl_ok; taken = min 16 (length text) },
  record w { sent = w.sent ++ take (min 16 (length text)) text },
)
send_in (suc n) text w =
    (record { code = curl_again; taken = 3 }, record w { delays = n; sent = w.sent ++ take 3 text })

-- A frame is printed as its message, and another value as its type.
abbrev test_dump : JsonValue → Option Bytes
test_dump v = elim (at_value v (codes "payload")) [
  | none ↦ elim (at_value v (codes "type")) [ none ↦ none | some type ↦ text_of type ]
  | some payload ↦ text_of payload
]

abbrev small_network : Network memory
small_network = record {
  Handle = Unit {0};
  now = λ w. (w.time, record w { time = suc w.time });
  wall_time = λ w. (w.time + 1000, w);
  stop_requested = λ w. (some false, w);
  sleep = λ w. (tt, w);
  global_init = λ w. (true, w);
  easy_init = λ w. (some tt, w);
  setopt = λ h name w. (curl_ok, w);
  perform = λ h w. (curl_ok, w);
  active_socket = λ h w. ((curl_ok, true), w);
  poll = λ h w. (true, w);
  ws_send = λ h text w. send_in w.delays text w;
  ws_recv = λ h w. (by_time (w.time % 3), w);
  dump = test_dump;
}

abbrev IsStill : Disk → Disk → Type 0
IsStill = Quiet memory-IsPosix (λ w. w.time) (λ w. w.delays)

still : (w : Disk) → IsStill w w
still w = record {
  same_content = λ q. refl;
  same_opened = λ fd. refl;
  patience_le = omega arith;
  clock_le = omega arith;
  budget_le = omega arith;
}

ticking : (w : Disk) → IsStill w (record w { time = suc w.time })
ticking w = record {
  same_content = λ q. refl;
  same_opened = λ fd. refl;
  patience_le = omega arith;
  clock_le = omega arith;
  budget_le = omega arith;
}

send_in-IsStill : (n : ℕ) (text : Bytes) (w : Disk) → w.delays ≡ n → IsStill w (send_in n text w).1
send_in-IsStill zero text w e = record {
  same_content = λ q. refl;
  same_opened = λ fd. refl;
  patience_le = omega arith;
  clock_le = omega arith;
  budget_le = omega arith;
}
send_in-IsStill (suc n) text w e = record {
  same_content = λ q. refl;
  same_opened = λ fd. refl;
  patience_le = omega arith;
  clock_le = omega arith;
  budget_le = omega (arith, e);
}

send_in-again :
    (n : ℕ) (text : Bytes) (w : Disk)
    → is_again (send_in n text w).0.code ≡ true
    → (send_in n text w).1.delays < n
send_in-again zero text w e = cc e
send_in-again (suc n) text w e = omega arith

small-IsNetwork : IsNetwork memory-IsPosix small_network
small-IsNetwork = record {
  clock = λ w. w.time;
  budget = λ w. w.delays;
  longest_text = λ options. maximum_message_size;
  now_lem = λ w. refl;
  now_ticks = λ w. omega arith;
  now_quiet = ticking;
  wall_quiet = still;
  stop_quiet = still;
  sleep_quiet = still;
  global_quiet = still;
  easy_quiet = still;
  setopt_quiet = λ h name w. still w;
  perform_quiet = λ h w. still w;
  socket_quiet = λ h w. still w;
  poll_quiet = λ h w. still w;
  send_quiet = λ h text w. send_in-IsStill w.delays text w refl;
  recv_quiet = λ h w. still w;
  send_again = λ h text w e. send_in-again w.delays text w e;
  write_clock = λ fd text w. omega (arith, write_in-time w.interrupts fd text w);
  write_budget = λ fd text w. omega (arith, write_in-delays w.interrupts fd text w);
  create_budget = λ p w. omega (arith, create_in-delays (w.files p) p w);
  frame_length = λ options t id message line h e. rw (sym (some-injective message line e)) h;
  metadata_length = λ options line e. rw (sym (some-injective _ line e)) (omega arith);
  subscribe_length = λ options channel text e. rw (sym (some-injective _ text e)) (omega arith);
}

abbrev small_options : CaptureOptions
small_options = record {
  output = codes "out";
  product_ids = codes "BTC-USD" ∷ [];
  duration_ns = 9;
  endpoint = codes "wss";
  stop_given = true;
}

abbrev new_capture : CaptureState memory
new_capture = record {
  output = record { fd = none; committed = false; world = empty_disk };
  frames = 0;
  reconnects = 0;
  connection_id = 0;
  consecutive_failures = 0;
  last_error = [];
}

captured : Result CaptureResult × CaptureState memory
unfolding capture_live capture_into destroy reconnect_loop attempt connection connect set_options
    throw_if_aborted throw_if_stopped stopped send_all wait_socket receive_loop goes_on
    take_received take_frame add_text record_frame after_failure pause finish_capture write_line
    write write_some construct commit publish sync_parent check_absent ◌>>=◌ filename has_slash
    parent_path drop_name drop_slashes
captured = capture_live small_network small_options 10 5000000 new_capture

captured-file :
    captured.1.output.world.files (codes "out")
    ≡ some (codes "metadata" ++ 10 ∷ codes "tick" ++ 10 ∷ [])
unfolding captured
captured-file = refl

new_capture-IsStarting : IsStarting small-IsNetwork small_options 2 1 none new_capture
unfolding small-IsNetwork
new_capture-IsStarting = record {
  new = record { closed = refl; unused = refl; content_before = refl; waits = omega arith };
  no_frames = refl;
  budget_left = omega arith;
}

capture_live-IsSafe_example :
    Outcome
      (λ r s'. IsSaved small-IsNetwork small_options 2 r s' × (◌≡◌ {A = Option Bytes} none none))
      (IsLeft small-IsNetwork small_options 2 none)
      (capture_live small_network small_options 10 5000000 new_capture)
unfolding small-IsNetwork
capture_live-IsSafe_example =
    capture_live-IsSafe small-IsNetwork small_options 2 5000000 (omega arith) (omega arith) 1
      (omega arith) none 10 new_capture (omega arith) new_capture-IsStarting

send_in-sent :
    (n : ℕ) (text : Bytes) (w : Disk)
    → (send_in n text w).1.sent ≡ w.sent ++ take (send_in n text w).0.taken text
send_in-sent zero text w = refl
send_in-sent (suc n) text w = refl

small-IsWire : IsWire small_network
small-IsWire = record {
  wire = λ w. w.sent;
  stop_wire = λ w. refl;
  socket_wire = λ h w. refl;
  poll_wire = λ h w. refl;
  send_wire = λ h text w e. send_in-sent w.delays text w;
  failed_wire = λ h text w. ((send_in w.delays text w).0.taken, send_in-sent w.delays text w);
}

-- One send is put off after three bytes, and the next one takes sixteen.
send_all-sends_example :
    Outcome
      (λ u s'.
        s'.output.world.sent ≡ new_capture.output.world.sent ++ codes "subscribe to the trades")
      (λ s'.
        (k : ℕ) × (s'.output.world.sent
          ≡ new_capture.output.world.sent ++ take k (codes "subscribe to the trades")))
      (send_all small_network small_options
        (length (codes "subscribe to the trades") + new_capture.output.world.delays)
        tt
        (codes "subscribe to the trades")
        new_capture)
unfolding small-IsNetwork small-IsWire
send_all-sends_example =
    send_all-sends small-IsNetwork small-IsWire small_options tt (codes "subscribe to the trades")
      new_capture
