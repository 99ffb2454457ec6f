-- ===== src/Live.antt =====
-- src/live.cpp: the capture of a market's messages from the network into a file, with its reconnects
-- and its stop request.
pub mod Laws
pub mod Keeps
pub mod Send
pub mod Wire
pub mod Sends
pub mod Connect
pub mod Chunks
pub mod Receive
pub mod Clock
pub mod Loop
pub mod Saved
pub mod Begin
pub mod Whole
mod Tests
use bengal_market.AtomicOutput.{FileSystem, Output, commit, construct, destroy, write_line}
use bengal_market.Base.{
  Bool, Bytes, List, Option, [], codes, drop, false, if◌then◌else◌, is_empty, leb, length, ltb, map,
  none, not, some, suc, true, zero, ℕ, ◌&&◌, ◌*◌, ◌++◌, ◌+◌, ◌==◌, ◌||◌, ◌∷◌,
}
use bengal_market.Base.Words.{add_u64, sub_u64}
use bengal_market.Effects.{
  Action, Done, Result, capture_stopped, cut_off, failure, out_of_fuel, pure, raise, raised,
  returned, unless, ◌>>=◌, ◌>>◌,
}
use bengal_market.Json.Value.{JsonValue, array_of, json_number, json_string, object_of}
use bengal_market.Pipeline.{start}

abbrev pub maximum_message_size : ℕ
maximum_message_size = 4 * 1024 * 1024

abbrev pub maximum_consecutive_failures : ℕ
maximum_consecutive_failures = 5

-- The codes of the network library that the program tells apart.
pub data CurlCode : Type 0 where
  curl_ok curl_again curl_aborted curl_other : CurlCode

abbrev pub is_fine : CurlCode → Bool
is_fine curl_ok = true
is_fine _ = false

abbrev pub is_again : CurlCode → Bool
is_again curl_again = true
is_again _ = false

abbrev pub is_aborted : CurlCode → Bool
is_aborted curl_aborted = true
is_aborted _ = false

-- `curl_ws_frame`: the flags and `bytesleft`.
pub record FrameMeta : Type 0 where
  pub close : Bool
  pub ping_or_pong : Bool
  pub binary : Bool
  pub text : Bool
  pub more : Bool
  pub bytesleft : ℕ

-- What `curl_ws_recv` answers.
pub record Received : Type 0 where
  pub code : CurlCode
  pub bytes : Bytes
  pub frame : Option FrameMeta

-- What `curl_ws_send` answers: the code, and how many bytes it took.
pub record Sent : Type 0 where
  pub code : CurlCode
  pub taken : ℕ

-- The clocks, the stop request, the network library and the text of a JSON value. `none` is a throw, and for
-- `active_socket` a bad socket.
pub record Network (F : FileSystem) : Type 1 where
  pub Handle : Type 0
  pub now : F.World → ℕ × F.World
  pub wall_time : F.World → ℕ × F.World
  pub stop_requested : F.World → Option Bool × F.World
  pub sleep : F.World → Unit {0} × F.World
  pub global_init : F.World → Bool × F.World
  pub easy_init : F.World → Option Handle × F.World
  pub setopt : Handle → Bytes → F.World → CurlCode × F.World
  pub perform : Handle → F.World → CurlCode × F.World
  pub active_socket : Handle → F.World → (CurlCode × Bool) × F.World
  -- `false` where `poll` fails otherwise than by `EINTR`.
  pub poll : Handle → F.World → Bool × F.World
  pub ws_send : Handle → Bytes → F.World → Sent × F.World
  pub ws_recv : Handle → F.World → Received × F.World
  pub dump : JsonValue → Option Bytes

-- A duration that is not positive is 0. `stop_given` says whether there is a function behind `stop_requested`.
pub record CaptureOptions : Type 0 where
  pub output : Bytes
  pub product_ids : List Bytes
  pub duration_ns : ℕ
  pub endpoint : Bytes
  pub stop_given : Bool

abbrev pub products_value : CaptureOptions → JsonValue
products_value options = array_of (map json_string options.product_ids)

-- The first record of a capture.
abbrev pub metadata_value : CaptureOptions → JsonValue
metadata_value options = object_of (
    (codes "type", json_string (codes "metadata"))
    ∷ (codes "format", json_string (codes "bengal-market-capture"))
    ∷ (codes "version", json_number 1)
    ∷ (codes "source", json_string (codes "coinbase-advanced-trade"))
    ∷ (codes "endpoint", json_string options.endpoint)
    ∷ (codes "product_ids", products_value options)
    ∷ [])

-- The message that asks for a channel.
abbrev pub subscribe_value : CaptureOptions → Bytes → JsonValue
subscribe_value options channel = object_of (
    (codes "type", json_string (codes "subscribe"))
    ∷ (codes "product_ids", products_value options)
    ∷ (codes "channel", json_string channel)
    ∷ [])

-- The record of a message.
abbrev pub frame_value : ℕ → ℕ → Bytes → JsonValue
frame_value received_ns connection_id message = object_of (
    (codes "type", json_string (codes "frame"))
    ∷ (codes "received_ns", json_number received_ns)
    ∷ (codes "connection_id", json_number connection_id)
    ∷ (codes "payload", json_string message)
    ∷ [])

pub record CaptureResult : Type 0 where
  pub frames : ℕ
  pub reconnects : ℕ
  pub interrupted : Bool

-- The local variables of `capture_live` that change, and its file.
pub record CaptureState (F : FileSystem) : Type 0 where
  pub output : Output F
  pub frames : ℕ
  pub reconnects : ℕ
  pub connection_id : ℕ
  pub consecutive_failures : ℕ
  pub last_error : Bytes

module _ {F : FileSystem} (N : Network F) (options : CaptureOptions) where
  open N use {Handle}

  abbrev pub ask : {A : Type 0} → (F.World → A × F.World) → Action (CaptureState F) A
  ask call s = (
    returned (call s.output.world).0,
    record s { output = record s.output { world = (call s.output.world).1 } },
  )

  abbrev pub on_output : {A : Type 0} → Action (Output F) A → Action (CaptureState F) A
  on_output m s = ((m s.output).0, record s { output = (m s.output).1 })

  abbrev pub set : (CaptureState F → CaptureState F) → Action (CaptureState F) Done
  set f s = (returned tt, f s)

  abbrev pub look : {A : Type 0} → (CaptureState F → A) → Action (CaptureState F) A
  look f s = (returned (f s), s)

  -- A stop request that throws counts as one.
  abbrev pub or_true : Option Bool → Bool
  or_true none = true
  or_true (some b) = b

  pub stopped : Action (CaptureState F) Bool
  stopped =
      if options.stop_given then (ask N.stop_requested >>= λ b. pure (or_true b)) else pure false

  pub throw_if_stopped : Action (CaptureState F) Done
  unfolding stopped
  throw_if_stopped = do stop ← stopped; unless (not stop) capture_stopped

  abbrev pub check : CurlCode → Bytes → Action (CaptureState F) Done
  check code operation = unless (is_fine code) (failure operation)

  pub wait_socket : Handle → Action (CaptureState F) Done
  unfolding throw_if_stopped
  wait_socket handle = do
    throw_if_stopped
    socket ← ask (N.active_socket handle)
    check socket.0 (codes "get WebSocket socket")
    unless socket.1 (failure (codes "WebSocket has no active socket"))
    polled ← ask (N.poll handle)
    unless polled (failure (codes "poll failed"))
    throw_if_stopped

  -- `if (offset < payload.size()) wait_socket(…)`.
  abbrev pub wait_for_rest : Handle → Bytes → Action (CaptureState F) Done
  wait_for_rest handle [] = pure tt
  wait_for_rest handle (c ∷ payload) = wait_socket handle

  -- What the loop of `send_all` does with an answer; `again` is the next round.
  abbrev pub after_send :
      (Bytes → Action (CaptureState F) Done) → Handle → Bytes → Sent → Action (CaptureState F) Done
  after_send again handle payload sent =
      if is_again sent.code
      then (wait_for_rest handle (drop sent.taken payload) >> again (drop sent.taken payload))
      else (do
        check sent.code (codes "send WebSocket frame")
        unless (not (sent.taken == 0)) (failure (codes "WebSocket send made no progress"))
        again (drop sent.taken payload))

  -- `payload` is what has not been sent.
  pub send_all : ℕ → Handle → Bytes → Action (CaptureState F) Done
  unfolding wait_socket
  send_all fuel handle [] = pure tt
  send_all zero handle (c ∷ payload) = cut_off
  send_all (suc fuel) handle (c ∷ payload) = do
    throw_if_stopped
    sent ← ask (N.ws_send handle (c ∷ payload))
    after_send (send_all fuel handle) handle (c ∷ payload) sent

  -- The options of the handle, one call after the other.
  abbrev pub option_names : List Bytes
  option_names =
      codes "set endpoint"
      ∷ codes "enable WebSocket mode"
      ∷ codes "set connect timeout"
      ∷ codes "enable stop callback"
      ∷ codes "set stop callback"
      ∷ codes "set stop callback state"
      ∷ codes "set user agent"
      ∷ []

  pub set_options : Handle → List Bytes → Action (CaptureState F) Done
  set_options handle [] = pure tt
  set_options handle (name ∷ names) = do
    code ← ask (N.setopt handle name)
    check code name
    set_options handle names

  -- A value, or the exception of the JSON library.
  abbrev pub or_fail : {A : Type 0} → Option A → Action (CaptureState F) A
  or_fail none = raise (failure (codes "JSON"))
  or_fail (some a) = pure a

  -- `if (connected == CURLE_ABORTED_BY_CALLBACK && stopped(…)) throw capture_stopped{};`
  pub throw_if_aborted : CurlCode → Action (CaptureState F) Done
  unfolding throw_if_stopped
  throw_if_aborted code = if is_aborted code then throw_if_stopped else pure tt

  pub connect : ℕ → Action (CaptureState F) Handle
  unfolding set_options throw_if_aborted send_all
  connect fuel = do
    made ← ask N.easy_init
    handle ← elim made as (λ m. Action (CaptureState F) Handle) [
      | none ↦ raise (failure (codes "curl handle allocation failed"))
      | some handle ↦ pure handle
    ]
    set_options handle option_names
    connected ← ask (N.perform handle)
    throw_if_aborted connected
    check connected (codes "connect WebSocket")
    subscribe ← or_fail (N.dump (subscribe_value options (codes "market_trades")))
    send_all fuel handle subscribe
    heartbeat ← or_fail (N.dump (subscribe_value options (codes "heartbeats")))
    send_all fuel handle heartbeat
    pure handle

  -- `output.write_line(…)` and the two counts behind it.
  pub record_frame : ℕ → Bytes → Action (CaptureState F) Done
  record_frame fuel message = do
    received_ns ← ask N.wall_time
    id ← look (λ s. s.connection_id)
    line ← or_fail (N.dump (frame_value received_ns id message))
    on_output (write_line F fuel line)
    set (λ s. record s { frames = add_u64 s.frames 1; consecutive_failures = 0 })

  -- A text frame: the message so far, with what was received behind it, is kept or recorded.
  pub add_text : ℕ → Bytes → Bytes → FrameMeta → Action (CaptureState F) Bytes
  unfolding record_frame
  add_text fuel message received frame = do
    unless (not (ltb (sub_u64 maximum_message_size (length message)) (length received)))
        (failure (codes "WebSocket message exceeds 4 MiB limit"))
    if not (frame.bytesleft == 0) || frame.more
        then pure (message ++ received)
        else (record_frame fuel (message ++ received) >> pure [])

  -- The rest of the inner loop's body once there is metadata. The result is `message`.
  pub take_frame : ℕ → Bytes → Bytes → FrameMeta → Action (CaptureState F) Bytes
  unfolding add_text
  take_frame fuel message received frame =
      if frame.close
      then raise (failure (codes "server closed WebSocket"))
      else if frame.ping_or_pong
      then pure message
      else if frame.binary
      then pure []
      else if frame.text
      then add_text fuel message received frame
      else pure message

  pub take_received : ℕ → Handle → Bytes → Received → Action (CaptureState F) Bytes
  unfolding take_frame wait_socket
  take_received fuel handle message r =
      if is_again r.code
      then (wait_socket handle >> pure message)
      else (check r.code (codes "receive WebSocket frame")
          >> elim r.frame as (λ m. Action (CaptureState F) Bytes) [
            | none ↦ raise (failure (codes "WebSocket frame metadata missing"))
            | some frame ↦ take_frame fuel message r.bytes frame
          ])

  -- `clock_type::now() < deadline && !stopped(stop_requested)`, the test of both loops.
  pub goes_on : ℕ → Action (CaptureState F) Bool
  unfolding stopped
  goes_on deadline = do
    time ← ask N.now
    if ltb time deadline then (stopped >>= λ stop. pure (not stop)) else pure false

  -- The inner loop.
  pub receive_loop : ℕ → ℕ → ℕ → Handle → Bytes → Action (CaptureState F) Done
  unfolding goes_on take_received
  receive_loop zero limit deadline handle message = cut_off
  receive_loop (suc fuel) limit deadline handle message = do
    more ← goes_on deadline
    if more
        then (do
          r ← ask (N.ws_recv handle)
          message' ← take_received limit handle message r
          receive_loop fuel limit deadline handle message')
        else pure tt

  -- The `try` block.
  pub connection : ℕ → ℕ → ℕ → Action (CaptureState F) Done
  unfolding connect receive_loop
  connection fuel limit deadline = do
    handle ← connect limit
    receive_loop fuel limit deadline handle []

  -- The pause between two attempts, by the attempts left.
  pub pause : ℕ → Action (CaptureState F) Done
  unfolding stopped
  pause zero = pure tt
  pause (suc attempts) = do
    stop ← stopped
    if stop then pure tt else (ask N.sleep >> pause attempts)

  abbrev pub count_failure : CaptureState F → CaptureState F
  count_failure s = record s {
    reconnects = add_u64 s.reconnects 1;
    consecutive_failures = add_u64 s.consecutive_failures 1;
  }

  -- The `catch` of a `std::exception`; the result says whether the outer loop goes on.
  pub after_failure : ℕ → Bytes → Action (CaptureState F) Bool
  unfolding goes_on pause
  after_failure deadline what = do
    set (λ s. record s { last_error = what })
    more ← goes_on deadline
    if more
        then (do
          set count_failure
          failures ← look (λ s. s.consecutive_failures)
          unless (not (leb maximum_consecutive_failures failures))
              (failure (codes "capture stopped after repeated failures"))
          pause 25
          pure true)
        else pure false

  -- The `try` and its handlers.
  abbrev pub handle_end : ℕ → Result Done × CaptureState F → Result Bool × CaptureState F
  handle_end deadline (returned u, s) = (returned true, s)
  handle_end deadline (raised capture_stopped, s) = (returned false, s)
  handle_end deadline (raised (failure what), s) = after_failure deadline what s
  handle_end deadline (out_of_fuel, s) = (out_of_fuel, s)

  pub attempt : ℕ → ℕ → ℕ → Action (CaptureState F) Bool
  unfolding connection after_failure
  attempt fuel limit deadline s = handle_end deadline (connection fuel limit deadline s)

  -- The outer loop.
  pub reconnect_loop : ℕ → ℕ → ℕ → ℕ → Action (CaptureState F) Done
  unfolding goes_on attempt
  reconnect_loop zero inner limit deadline = cut_off
  reconnect_loop (suc fuel) inner limit deadline = do
    more ← goes_on deadline
    if more
        then (do
          set (λ s. record s { connection_id = add_u64 s.connection_id 1 })
          on ← attempt inner limit deadline
          if on then reconnect_loop fuel inner limit deadline else pure tt)
        else pure tt

  abbrev pub products_fit : List Bytes → Bool
  products_fit [] = true
  products_fit (product ∷ products) =
      not (is_empty product || ltb 20 (length product)) && products_fit products

  -- Behind the loop.
  pub finish_capture : Action (CaptureState F) CaptureResult
  unfolding stopped
  finish_capture = do
    interrupted ← stopped
    frames ← look (λ s. s.frames)
    unless (not ((frames == 0) && not interrupted)) (failure (codes "capture received no frames"))
    on_output (commit F options.output)
    look (λ s. record { frames = s.frames; reconnects = s.reconnects; interrupted = interrupted })

  -- A block that the file's object lives in.
  abbrev pub in_file : {A : Type 0} → Action (CaptureState F) A → Action (CaptureState F) A
  in_file m s = ((m s).0, record (m s).1 { output = (destroy F (m s).1.output).1 })

  -- From the file's first line on.
  pub capture_into : ℕ → ℕ → Action (CaptureState F) CaptureResult
  unfolding reconnect_loop finish_capture
  capture_into fuel limit = do
    metadata ← or_fail (N.dump (metadata_value options))
    on_output (write_line F limit metadata)
    start ← ask N.now
    reconnect_loop fuel fuel limit (start + options.duration_ns)
    finish_capture

  -- `fuel` for the rounds of each loop over the clock, and `limit` for those of each text.
  unfoldable pub capture_live : ℕ → ℕ → Action (CaptureState F) CaptureResult
  unfolding capture_into
  capture_live fuel limit = do
    unless
        (not
          (is_empty options.output || is_empty options.product_ids || (options.duration_ns == 0)))
        (failure (codes "capture output, products, and duration are required"))
    unless (products_fit options.product_ids)
        (failure (codes "product IDs must contain 1 to 20 characters"))
    initialized ← ask N.global_init
    unless initialized (failure (codes "curl global initialization failed"))
    on_output (construct F options.output)
    in_file (capture_into fuel limit)
