-- ===== src/Capture/Reading.antt =====
-- src/core.cpp `read_capture`: what the consumer is given, and what is counted.
use mathlib.Core.Path.{subst}
use bengal_market.Base.{
  All, Bool, Bytes, [], ap, arith, codes, eq_text, false, if◌then◌else◌, length, refl, some, suc,
  true, zero, ℕ, ◌&&◌, ◌+◌, ◌<◌, ◌^◌, ◌∷◌, ◌≡◌, ◌≤◌,
}
use bengal_market.Base.Words.{add_u64}
use bengal_market.Capture.{
  LineRead, Reader, capture_loop, captured, caught, end_of_stream, fresh_reader, got,
  maximum_sequence_streams, metadata_fits, no_metadata, read_bounded_line, read_capture, read_line,
  read_record, read_typed, text_at, too_long,
}
use bengal_market.Capture.Opened.{IsOpen, if_meets, or_throw_meets, read_frame-IsOpen}
use bengal_market.Capture.Records.{
  counts, read_bounded_line-records, read_bounded_line_ended, records,
}
use bengal_market.Capture.Trades.{IsTrade}
use bengal_market.Json.{JsonLib}

-- One for the metadata record that has been seen.
abbrev heads : Bool → ℕ
heads true = 1
heads false = 0

-- After `k` lines that are not empty: each was the metadata record, counts as a frame or counts as an
-- error, where a frame that fails counts as both.
record IsReading (J : JsonLib) (k : ℕ) (r : Reader) : Type 0 where
  pub valid : All (IsTrade J) r.consumed
  pub streams : length r.last_sequences ≤ maximum_sequence_streams
  pub covered : k ≤ heads r.metadata_seen + r.metrics.frames + r.metrics.parse_errors
  pub frames_in : heads r.metadata_seen + r.metrics.frames ≤ k
  pub errors_in : heads r.metadata_seen + r.metrics.parse_errors ≤ k

-- What a reader holds at the end of a stream.
pub record IsRead (J : JsonLib) (stream : Bytes) (r : Reader) : Type 0 where
  pub given : All (IsTrade J) r.consumed
  pub tracked : length r.last_sequences ≤ maximum_sequence_streams
  pub metadata : r.metadata_seen ≡ true
  pub all_counted : records stream ≤ 1 + r.metrics.frames + r.metrics.parse_errors
  pub frames_counted : 1 + r.metrics.frames ≤ records stream
  pub errors_counted : 1 + r.metrics.parse_errors ≤ records stream

module _ (J : JsonLib) where
  open J use {Json}

  -- A line that came to nothing counts as an error.
  refused-IsReading :
      (k : ℕ) (r : Reader)
      → k + 1 < 2 ^ 64
      → IsReading J k r
      → IsReading J (suc k) (caught J (r, false))
  refused-IsReading k r small v =
      let added : add_u64 r.metrics.parse_errors 1 ≡ r.metrics.parse_errors + 1 =
        omega (arith, v.errors_in, small) in
      record {
        valid = v.valid;
        streams = v.streams;
        covered = omega (arith, added, v.covered);
        frames_in = omega (arith, v.frames_in);
        errors_in = omega (arith, added, v.errors_in);
      }

  -- A line with a frame counts as one, and as an error too where it failed.
  framed-IsReading :
      (k : ℕ) (r : Reader) (x : Reader × Bool)
      → k + 1 < 2 ^ 64
      → IsReading J k r
      → r.metadata_seen ≡ true
      → IsOpen J (add_u64 r.metrics.frames 1) r.metrics.parse_errors x.0
      → IsReading J (suc k) (caught J x)
  framed-IsReading k r (r', came_through) small v seen o = go came_through
    where
      before : heads r.metadata_seen ≡ 1
      before = ap heads seen

      after : heads r'.metadata_seen ≡ 1
      after = ap heads o.seen

      more : add_u64 r.metrics.frames 1 ≡ r.metrics.frames + 1
      more = omega (arith, v.frames_in, small)

      worse : add_u64 r'.metrics.parse_errors 1 ≡ r.metrics.parse_errors + 1
      worse = omega (arith, v.errors_in, o.failed, small)

      go : (came_through : Bool) → IsReading J (suc k) (caught J (r', came_through))
      go true = record {
        valid = o.accepted;
        streams = o.limited;
        covered = omega (arith, before, after, more, o.framed, o.failed, v.covered);
        frames_in = omega (arith, before, after, more, o.framed, v.frames_in);
        errors_in = omega (arith, before, after, o.failed, v.errors_in);
      }
      go false = record {
        valid = o.accepted;
        streams = o.limited;
        covered = omega (arith, before, after, more, worse, o.framed, v.covered);
        frames_in = omega (arith, before, after, more, o.framed, v.frames_in);
        errors_in = omega (arith, before, after, worse, v.errors_in);
      }

  metadata_fits-new :
      (seen : Bool) (value : Json) (u : Unit {0})
      → metadata_fits J seen value ≡ some u
      → seen ≡ false
  unfolding metadata_fits
  metadata_fits-new true value u e = cc e
  metadata_fits-new false value u e = refl

  opened-IsReading :
      (k : ℕ) (r : Reader)
      → IsReading J k r
      → r.metadata_seen ≡ false
      → IsReading J (suc k) (record r { metadata_seen = true })
  opened-IsReading k r v new =
      let before = ap heads new in
      record {
        valid = v.valid;
        streams = v.streams;
        covered = omega (arith, before, v.covered);
        frames_in = omega (arith, before, v.frames_in);
        errors_in = omega (arith, before, v.errors_in);
      }

  read_typed-IsReading :
      (value : Json) (type : Bytes) (k : ℕ) (r : Reader)
      → k + 1 < 2 ^ 64
      → IsReading J k r
      → IsReading J (suc k) (caught J (read_typed J r value type))
  unfolding read_typed
  read_typed-IsReading value type k r small v =
      let Q : Reader × Bool → Type 0 = λ x. IsReading J (suc k) (caught J x) in
      let refused = refused-IsReading k r small v in
      if_meets Q (eq_text type (codes "metadata")) _ _
        (λ t.
          or_throw_meets Q r (metadata_fits J r.metadata_seen value) _ refused
            (λ u e. opened-IsReading k r v (metadata_fits-new r.metadata_seen value u e)))
        (λ f.
          if_meets Q (eq_text type (codes "frame") && r.metadata_seen) _ _
            (λ t.
              let seen : r.metadata_seen ≡ true = ground (arith, t) in
              framed-IsReading k r _ small v seen (
                read_frame-IsOpen J value r r.metrics.frames (record {
                  accepted = v.valid;
                  seen = seen;
                  limited = v.streams;
                  framed = refl;
                  failed = refl;
                })))
            (λ f'. refused))

  -- A round of the loop, on fewer than 2^64 lines.
  read_line-IsReading :
      (line : Bytes) (k : ℕ) (r : Reader)
      → counts line + k < 2 ^ 64
      → IsReading J k r
      → IsReading J (counts line + k) (read_line J r line)
  unfolding read_line read_record
  read_line-IsReading [] k r small v =
      let same : k ≡ counts [] + k = omega arith in subst (λ n. IsReading J n r) same v
  read_line-IsReading (c ∷ line) k r small v =
      let small' : k + 1 < 2 ^ 64 = omega (arith, small) in
      let Q : Reader × Bool → Type 0 = λ x. IsReading J (suc k) (caught J x) in
      let refused = refused-IsReading k r small' v in
      let same : suc k ≡ counts (c ∷ line) + k = omega arith in
      subst (λ n. IsReading J n (caught J (read_record J r (c ∷ line)))) same
        (or_throw_meets Q r (J.parse (c ∷ line)) _ refused (λ value e.
          or_throw_meets Q r (text_at J value (codes "type")) _ refused
            (λ type e'. read_typed-IsReading value type k r small' v)))

  at_the_end :
      (b : Bool) (r s : Reader)
      → (if b then captured r else no_metadata) ≡ captured s
      → (b ≡ true) × (r ≡ s)
  at_the_end true r s e = (refl, cc e)
  at_the_end false r s e = cc e

  IsReading-IsRead :
      (stream : Bytes) (k : ℕ) (r : Reader)
      → k ≡ records stream
      → r.metadata_seen ≡ true
      → IsReading J k r
      → IsRead J stream r
  IsReading-IsRead stream k r e seen v =
      let one = ap heads seen in
      record {
        given = v.valid;
        tracked = v.streams;
        metadata = seen;
        all_counted = omega (arith, e, one, v.covered);
        frames_counted = omega (arith, e, one, v.frames_in);
        errors_counted = omega (arith, e, one, v.errors_in);
      }

  -- `k` lines of `first_to_last` have been read, and `stream` is left.
  capture_loop-IsRead :
      (fuel k : ℕ) (r s : Reader) (first_to_last stream : Bytes)
      → records first_to_last < 2 ^ 64
      → k + records stream ≡ records first_to_last
      → IsReading J k r
      → capture_loop J fuel r stream ≡ captured s
      → IsRead J first_to_last s
  unfolding capture_loop
  capture_loop-IsRead zero k r s first_to_last stream small sum v e = cc e
  capture_loop-IsRead (suc fuel) k r s first_to_last stream small sum v e =
      go
        (λ line rest sum' v'.
          capture_loop-IsRead fuel (counts line + k) (read_line J r line) s first_to_last rest small
            sum' v')
        (read_bounded_line [] stream) refl
    where
      go :
          ((line rest : Bytes)
            → counts line + k + records rest ≡ records first_to_last
            → IsReading J (counts line + k) (read_line J r line)
            → capture_loop J fuel (read_line J r line) rest ≡ captured s
            → IsRead J first_to_last s)
          → (b : LineRead) → read_bounded_line [] stream ≡ b
          → IsRead J first_to_last s
      go again (got line rest) q =
          let counted = read_bounded_line-records stream line rest q in
          again line rest (omega (arith, counted, sum))
            (read_line-IsReading line k r (omega (arith, counted, sum, small)) v)
            (rw (capture_loop, q) at e)
      go again end_of_stream q =
          let (seen, same) = at_the_end r.metadata_seen r s (rw (capture_loop, q) at e) in
          subst (IsRead J first_to_last) same (
            IsReading-IsRead first_to_last k r
              (omega (arith, read_bounded_line_ended stream q, sum)) seen v)
      go again too_long q = cc (rw (capture_loop, q) at e)

  -- When `read_capture` returns on a stream of fewer than 2^64 lines that are not empty, with any JSON
  -- library: a metadata record was read. Every trade that the consumer was given is what a JSON value
  -- says, with the amounts, the time and the ids of its texts and the side "BUY" or "SELL", within the
  -- ranges of the fields. At most 4096 connections are tracked. Each line that is not empty is the
  -- metadata record or is counted, as a frame, as a parse error, or as both: with the metadata record,
  -- frames and errors together are no fewer than these lines, and neither is more.
  pub read_capture-IsRead :
      (stream : Bytes) (r : Reader)
      → records stream < 2 ^ 64
      → read_capture J stream ≡ captured r
      → IsRead J stream r
  unfolding read_capture
  read_capture-IsRead stream r small e =
      capture_loop-IsRead (suc (length stream)) 0 fresh_reader r stream stream small (omega arith)
        (record {
          valid = tt;
          streams = omega arith;
          covered = omega arith;
          frames_in = omega arith;
          errors_in = omega arith;
        })
        e
