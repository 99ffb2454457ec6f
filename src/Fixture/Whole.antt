-- ===== src/Fixture/Whole.antt =====
-- src/core.cpp: `generate_fixture` from its checks to its last one, and `read_capture` on the file.
use mathlib.Core.Path.{subst}
use bengal_market.Base.{
  Bytes, Option, [], ap, arith, false, is_empty, length, ltb, none, not, refl, some, suc, sym, true,
  zero, ℕ, ◌+◌, ◌<◌, ◌==◌, ◌^◌, ◌||◌, ◌∙◌, ◌≡◌, ◌≤◌,
}
use bengal_market.Capture.{captured, fresh_reader, read_capture}
use bengal_market.Capture.Joined.{read_capture-joined}
use bengal_market.Effects.{Hoare, Hoare-bind, Hoare-unless, Hoare-weaken, Outcome}
use bengal_market.Fixture.{
  FileStream, fixture_frame, fixture_metadata, fixture_payload, generate_fixture, write_all,
  write_trade, write_trades,
}
use bengal_market.Fixture.Frame.{read_line-frame, reader_at}
use bengal_market.Fixture.Metadata.{read_line-metadata}
use bengal_market.Fixture.Short.{frame-IsShort, metadata-IsShort}
use bengal_market.Fixture.Write.{
  IsAt, IsFile, IsRecord, check_good-Hoare, dumped-Hoare, first_record, frame_of, payload_of,
  put_line-IsAt,
}
use bengal_market.Json.{JsonLib}
use bengal_market.Json.Laws.{IsJson}
use bengal_market.Json.Value.{JsonValue}

-- Why a call throws that has found the world `w` and leaves `s`.
pub data IsAborted (S : FileStream) (dump : JsonValue → Option Bytes) (product_id : Bytes)
    (event_count : ℕ) (w s : S.World) : Type 0 where
  no_events : event_count ≡ 0 → s ≡ w → IsAborted S dump product_id event_count w s
  bad_product :
      (is_empty product_id || ltb 20 (length product_id)) ≡ true
      → s ≡ w
      → IsAborted S dump product_id event_count w s
  bad_stream : S.good s ≡ false → IsAborted S dump product_id event_count w s
  bad_record :
      (v : JsonValue)
      → IsRecord product_id event_count v
      → dump v ≡ none
      → IsAborted S dump product_id event_count w s

module _ {S : FileStream} (F : IsFile S) {J : JsonLib} {dump : JsonValue → Option Bytes}
    (V : IsJson J dump) (product_id : Bytes)
    (fits : (is_empty product_id || ltb 20 (length product_id)) ≡ false) (event_count : ℕ)
    (small : event_count < 2 ^ 64) (fault : S.World → Type 0)
    (refused : (v : JsonValue)
      → IsRecord product_id event_count v
      → dump v ≡ none
      → (s : S.World) → fault s) where
  short : length product_id ≤ 20
  short = ground (arith, fits)

  write_trade-Hoare :
      (index : ℕ)
      → index < event_count
      → Hoare
          (IsAt F J (reader_at product_id index))
          (write_trade S dump product_id index)
          (λ u. IsAt F J (reader_at product_id (index + 1)))
          fault
  unfolding write_trade
  write_trade-Hoare index h =
      Hoare-bind _ _ _ _ _ _
        (dumped-Hoare S dump (fixture_payload product_id index)
          (IsAt F J (reader_at product_id index)) fault (λ s e. refused _ (payload_of index h) e s))
        (λ payload.
          Hoare-bind _ _ _ _ _ _
            (dumped-Hoare S dump (fixture_frame index payload)
              (λ s.
                IsAt F J (reader_at product_id index) s
                × (dump (fixture_payload product_id index) ≡ some payload))
              fault (λ s e. refused _ (frame_of index payload h) e s))
            (λ line. record {
              run = λ s p.
                  put_line-IsAt F J _ _ line s p.0.0
                    (frame-IsShort product_id short V index payload line p.0.1 p.1)
                    (read_line-frame V product_id short index (omega (arith, h, small)) payload line
                        p.0.1 p.1
                      ∙ ap (reader_at product_id) (omega arith));
            }))

  write_trades-Hoare :
      (more index : ℕ)
      → index + more ≡ event_count
      → Hoare
          (IsAt F J (reader_at product_id index))
          (write_trades S dump product_id index more)
          (λ u. IsAt F J (reader_at product_id event_count))
          fault
  unfolding write_trades
  write_trades-Hoare zero index e = record {
    run = λ s a. subst (λ n. IsAt F J (reader_at product_id n) s) (omega (arith, e)) a;
  }
  write_trades-Hoare (suc more) index e =
      Hoare-bind _ _ _ _ _ _ (write_trade-Hoare index (omega (arith, e)))
        (λ u. write_trades-Hoare more (index + 1) (omega (arith, e)))

module _ {S : FileStream} (F : IsFile S) {J : JsonLib} {dump : JsonValue → Option Bytes}
    (V : IsJson J dump) (output product_id : Bytes) (event_count : ℕ)
    (small : event_count < 2 ^ 64) where
  opened-IsAt : (w : S.World) → IsAt F J fresh_reader (S.open_truncated output w)
  opened-IsAt w = record { lines = []; all_short = tt; read = refl; written = F.opened output w }

  -- From the test of the opened stream on.
  write-Hoare :
      (w : S.World)
      → (is_empty product_id || ltb 20 (length product_id)) ≡ false
      → Hoare
          (IsAt F J fresh_reader)
          (write_all S dump event_count product_id)
          (λ u s. read_capture J (F.content s) ≡ captured (reader_at product_id event_count))
          (IsAborted S dump product_id event_count w)
  unfolding write_all
  write-Hoare w fits =
      let fault = IsAborted S dump product_id event_count w in
      Hoare-bind _ _ _ (λ u s. IsAt F J fresh_reader s × (S.good s ≡ true)) _ _
        (check_good-Hoare S dump _ _ _ (λ s e. bad_stream e))
        (λ u.
          Hoare-bind _ _ _ _ _ _
            (dumped-Hoare S dump (fixture_metadata product_id)
              (λ s. IsAt F J fresh_reader s × (S.good s ≡ true)) fault
              (λ s e. bad_record _ first_record e))
            (λ line.
              Hoare-bind _ _ _ (λ u. IsAt F J (reader_at product_id 0)) _ _
                (record {
                  run = λ s p.
                      put_line-IsAt F J _ _ line s p.0.0
                        (metadata-IsShort product_id (ground (arith, fits)) V line p.1)
                        (read_line-metadata V product_id line fits p.1);
                })
                (λ u.
                  Hoare-bind _ _ _ _ _ _
                    (write_trades-Hoare F V product_id fits event_count small fault
                      (λ v r e s. bad_record v r e) event_count 0 (omega arith))
                    (λ u.
                      Hoare-weaken _ _ _ _ _ _ _
                        (check_good-Hoare S dump _ (IsAt F J (reader_at product_id event_count))
                          fault (λ s e. bad_stream e))
                        (λ s p. p)
                        (λ u s p.
                          ap (read_capture J) (p.0.written p.1)
                          ∙ read_capture-joined J p.0.lines p.0.all_short
                              (ap (λ r. r.metadata_seen) p.0.read)
                          ∙ ap captured p.0.read)
                        (λ s p. p)))))

  -- With a JSON library that reads back what it writes, in one line, a stream that keeps what it takes
  -- while it is good, and fewer than 2^64 events: where generate_fixture returns, the stream has taken
  -- a text that read_capture reads back, with a frame and its trade for each event, in order, and no
  -- parse error, gap or late frame. Where it throws, the product ID or the number of events is out of
  -- its limits and nothing was opened, or the stream is not good, or `dump` throws on a value of this
  -- call.
  pub generate_fixture-read_capture :
      (w : S.World)
      → Outcome
          (λ u s. read_capture J (F.content s) ≡ captured (reader_at product_id event_count))
          (IsAborted S dump product_id event_count w)
          (generate_fixture S dump output event_count product_id w)
  unfolding generate_fixture
  generate_fixture-read_capture w =
      let fault = IsAborted S dump product_id event_count w in
      let r =
        Hoare-bind _ _ _ _ _ _
          (Hoare-unless _ _ (λ s. s ≡ w) fault (λ s p e. no_events (ground (arith, e)) p))
          (λ u.
            Hoare-bind _ _ _ _ _ _
              (Hoare-unless _ _ (λ s. (s ≡ w) × (not (event_count == 0) ≡ true)) fault
                (λ s p e. bad_product (ground (arith, e)) p.0))
              (λ u.
                Hoare-bind _ _ _
                  (λ u s.
                    IsAt F J fresh_reader s
                    × ((is_empty product_id || ltb 20 (length product_id)) ≡ false))
                  _ _
                  (record {
                    run = λ s p. (
                      subst (λ s. IsAt F J fresh_reader (S.open_truncated output s)) (sym p.0.0)
                          (opened-IsAt w),
                      ground (arith, p.1),
                    );
                  })
                  (λ u. record { run = λ s p. (write-Hoare w p.1).run s p.0 }))) in
      r.run w refl
