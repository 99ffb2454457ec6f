-- ===== src/Fixture/Frame.antt =====
-- src/core.cpp: `read_capture` on the frame that `generate_fixture` writes in a round.
use bengal_market.Base.{
  Bool, Bytes, List, Option, [], ap, arith, bind_some, codes, false, if◌then◌else◌, is_empty, leb,
  length, length-replicate, ltb, refl, some, suc, true, zero, ℕ, ◌%◌, ◌&&◌, ◌++◌, ◌-◌, ◌<◌, ◌==◌,
  ◌^◌, ◌∙◌, ◌∷◌, ◌≡◌, ◌≤◌,
}
use bengal_market.Base.Int.{pos}
use bengal_market.Base.Words.{add_u64, sub_u64}
use bengal_market.Capture.{
  Reader, and_then, caught, count_sequence, find_sequence, frame_fields, note_sequence,
  put_sequence, read_frame, read_line, read_payload, read_record, read_trade, read_typed,
  seen_before, side_of, take_events, take_trades, text_into,
}
use bengal_market.Charconv.Print.{length-print_uint, print_uint}
use bengal_market.Decimal.Format.{parse_decimal-format_decimal}
use bengal_market.Fixture.{
  fixture_amount, fixture_frame, fixture_payload, fixture_price, fixture_time, fixture_trade,
}
use bengal_market.Fixture.Shown.{
  is_empty-ne, number_at-shown, only-shown, text_at-shown, thrown_not,
}
use bengal_market.Json.{JsonLib}
use bengal_market.Json.Laws.{IsJson}
use bengal_market.Json.Value.{JsonValue}
use bengal_market.Model.{Trade, blank, buy, sell}
use bengal_market.Model.Text.{assign_lem}
use bengal_market.Report.{ParseMetrics}
use bengal_market.Timestamp.{parse_timestamp_ns, timestamp_code}

-- The trade that is read for a round of the generator.
abbrev pub trade_of : Bytes → ℕ → Trade
trade_of product_id index = record {
  trade_id = print_uint (add_u64 index 1);
  product_id = product_id;
  price = pos (fixture_price index);
  size = pos (fixture_amount index);
  side = if index % 2 == 0 then buy else sell;
  source_time_ns = 1_767_225_600_000_000_000;
  enqueued_ns = 0;
}

text_into-fits : (capacity : ℕ) (s : Bytes) → length s ≤ capacity → text_into capacity s ≡ some s
text_into-fits capacity s h =
    let (b, v, l) = assign_lem capacity (blank capacity) s (length-replicate capacity 0) in
    let m : leb (length s) capacity ≡ true = ground (arith, h) in
    rw (b ∙ m) (ap some (v ∙ rw m refl))

fixture_time_lem : parse_timestamp_ns fixture_time ≡ some 1_767_225_600_000_000_000
unfolding timestamp_code
fixture_time_lem = refl

side_of-fixture :
    (t : Bool) → side_of (if t then codes "BUY" else codes "SELL") ≡ some (if t then buy else sell)
side_of-fixture true = refl
side_of-fixture false = refl

-- The connections that the reader knows before a round.
abbrev pub sequences : ℕ → List (ℕ × ℕ)
sequences zero = []
sequences (suc n) = (1, suc n) ∷ []

abbrev pub trades_of : Bytes → ℕ → List Trade
trades_of product_id zero = []
trades_of product_id (suc n) = trades_of product_id n ++ trade_of product_id n ∷ []

-- The reader behind the metadata and `index` frames.
abbrev pub reader_at : Bytes → ℕ → Reader
reader_at product_id index = record {
  metrics = record { frames = index; parse_errors = 0; sequence_gaps = 0; out_of_order = 0 };
  last_sequences = sequences index;
  metadata_seen = true;
  consumed = trades_of product_id index;
}

-- The reader with these counts and trades, behind `n` frames.
abbrev behind : ParseMetrics → List Trade → ℕ → Reader
behind m c n = record {
  metrics = m;
  last_sequences = sequences n;
  metadata_seen = true;
  consumed = c;
}

seen_before-next :
    (m : ParseMetrics) (c : List Trade) (n : ℕ)
    → n < 2 ^ 64 - 2
    → seen_before (behind m c (suc n)) 1 (suc (suc n)) (suc n) ≡ behind m c (suc (suc n))
unfolding seen_before count_sequence put_sequence
seen_before-next m c n h =
    let a : (ltb (suc n) (suc (suc n)) && ltb 1 (sub_u64 (suc (suc n)) (suc n))) ≡ false =
      ground (arith, h) in
    let b : leb (suc (suc n)) (suc n) ≡ false = ground arith in
    let l : ltb (suc n) (suc (suc n)) ≡ true = ground arith in rw (a, b, l) refl

note_sequence-next :
    (m : ParseMetrics) (c : List Trade) (n : ℕ)
    → n < 2 ^ 64 - 1
    → note_sequence (behind m c n) 1 (add_u64 n 1) ≡ some (behind m c (suc n))
unfolding note_sequence find_sequence
note_sequence-next m c zero h = refl
note_sequence-next m c (suc n) h =
    let e : add_u64 (suc n) 1 ≡ suc (suc n) = omega (arith, h) in
    rw e (ap some (seen_before-next m c n (omega (arith, h))))

module _ {J : JsonLib} {dump : JsonValue → Option Bytes} (V : IsJson J dump) where
  module _ (product_id : Bytes) (short : length product_id ≤ 20) (index : ℕ)
      (small : index < 2 ^ 64 - 1) where
    read_trade-shown :
        (j : J.Json)
        → V.shown.Shows j (fixture_trade product_id index)
        → read_trade J j ≡ some (trade_of product_id index)
    unfolding read_trade fixture_trade
    read_trade-shown j shown =
        let text = text_at-shown V.shown j _ shown in
        bind_some _ _ _ _ (text (codes "price") _ refl) (
          bind_some _ _ _ _ (text (codes "size") _ refl) (
            bind_some _ _ _ _ (text (codes "side") _ refl) (
              bind_some _ _ _ _ (text (codes "time") _ refl) (
                bind_some _ _ _ _
                  (parse_decimal-format_decimal (pos (fixture_price index)) (omega arith))
                  (bind_some _ _ _ _
                    (parse_decimal-format_decimal (pos (fixture_amount index)) (omega arith))
                    (bind_some _ _ _ _ fixture_time_lem (
                      bind_some _ _ _ _ (text (codes "trade_id") _ refl) (
                        bind_some _ _ _ _
                          (text_into-fits 24 (print_uint (add_u64 index 1)) (
                            omega
                              (arith, (length-print_uint 19 (add_u64 index 1) (omega arith)).1)))
                          (bind_some _ _ _ _ (text (codes "product_id") _ refl) (
                            bind_some _ _ _ _ (text_into-fits 20 product_id short)
                              (bind_some _ _ _ _ (side_of-fixture (index % 2 == 0)) refl)))))))))))

    frame_fields-shown :
        (j : J.Json) (payload : Bytes)
        → dump (fixture_payload product_id index) ≡ some payload
        → V.shown.Shows j (fixture_frame index payload)
        → (p : J.Json) × ((frame_fields J j ≡ some (1, (p, codes "market_trades")))
            × V.shown.Shows p (fixture_payload product_id index))
    unfolding frame_fields fixture_frame fixture_payload
    frame_fields-shown j payload e shown =
        let (p, (parsed, shown')) =
          V.shown.parse_dump (fixture_payload product_id index) payload e in
        (
          p,
          (
            bind_some _ _ _ _
                (number_at-shown V.shown j _ shown (codes "received_ns") _ (omega arith) refl)
                (bind_some _ _ _ _
                  (number_at-shown V.shown j _ shown (codes "connection_id") 1 (omega arith) refl)
                  (bind_some _ _ _ _
                    (text_at-shown V.shown j _ shown (codes "payload") payload refl)
                    (bind_some _ _ _ _ parsed (
                      bind_some _ _ _ _ (text_at-shown V.shown p _ shown' (codes "channel") _ refl)
                        refl)))),
            shown',
          ),
        )

    -- The trades of a payload.
    read_payload-shown :
        (r : Reader) (p : J.Json)
        → V.shown.Shows p (fixture_payload product_id index)
        → read_payload J r p (codes "market_trades")
          ≡ (record r { consumed = r.consumed ++ trade_of product_id index ∷ [] }, true)
    unfolding read_payload take_events take_trades fixture_payload
    read_payload-shown r p shown =
        let (events, (found, (is, (event, (one, shown'))))) =
          only-shown V.shown p _ shown (codes "events") _ refl in
        let (trades, (found', (is', (input, (one', shown''))))) =
          only-shown V.shown event _ shown' (codes "trades") _ refl in
        thrown_not r _ _ events _ found (
          ap (take_events J r) one
          ∙ thrown_not r _ _ trades _ found' (
              ap (λ l. and_then (take_trades J r l) (λ r'. take_events J r' [])) one'
              ∙ ap (λ x. and_then x (λ r'. take_events J r' []))
                  (thrown_not r (read_trade J input) _ _ _ (read_trade-shown input shown'') refl)))

    read_frame-shown :
        (j : J.Json) (payload : Bytes)
        → dump (fixture_payload product_id index) ≡ some payload
        → V.shown.Shows j (fixture_frame index payload)
        → read_frame J (reader_at product_id index) j ≡ (reader_at product_id (suc index), true)
    unfolding read_frame fixture_payload
    read_frame-shown j payload e shown =
        let (p, (fields, shown')) = frame_fields-shown j payload e shown in
        let m : ParseMetrics = record {
          frames = add_u64 index 1;
          parse_errors = 0;
          sequence_gaps = 0;
          out_of_order = 0;
        } in
        let c = trades_of product_id index in
        let has : J.contains p (codes "sequence_num") ≡ true =
          V.shown.contains_shown p _ (codes "sequence_num") shown' in
        let counted : add_u64 index 1 ≡ suc index = omega (arith, small) in
        thrown_not _ _ _ _ _ fields (
          rw has (
            thrown_not _ _ _ _ _
              (number_at-shown V.shown p _ shown' (codes "sequence_num") (add_u64 index 1)
                (omega arith) refl)
              (thrown_not _ _ _ _ _ (note_sequence-next m c index small) (
                read_payload-shown (behind m c (suc index)) p shown'
                ∙ ap
                    (λ n. (
                      behind
                          (record {
                            frames = n;
                            parse_errors = 0;
                            sequence_gaps = 0;
                            out_of_order = 0;
                          })
                          (c ++ trade_of product_id index ∷ []) (suc index),
                      true,
                    ))
                    counted))))

    -- A line that the generator writes for a round is read as that round's trade.
    pub read_line-frame :
        (payload line : Bytes)
        → dump (fixture_payload product_id index) ≡ some payload
        → dump (fixture_frame index payload) ≡ some line
        → read_line J (reader_at product_id index) line ≡ reader_at product_id (suc index)
    unfolding read_line read_record read_typed fixture_frame
    read_line-frame payload line e e' =
        let (j, (parsed, shown)) = V.shown.parse_dump (fixture_frame index payload) line e' in
        let full : is_empty line ≡ false = is_empty-ne line (V.dump_line _ line e').1 in
        rw full (
          ap (caught J) (
            thrown_not _ _ _ _ _ parsed (
              thrown_not _ _ _ _ _
                (text_at-shown V.shown j _ shown (codes "type") (codes "frame") refl)
                (read_frame-shown j payload e shown))))
