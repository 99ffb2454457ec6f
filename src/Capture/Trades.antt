-- ===== src/Capture/Trades.antt =====
-- src/core.cpp `read_capture`: the trades that it makes.
use mathlib.Core.Option.{some-injective}
use mathlib.Core.Path.{subst}
use native.Mathlib.Decide.{dec_le}
use bengal_market.Base.{
  >>=-eq-some, Bool, Bytes, ap, arith, codes, eq_text, false, if◌then◌else◌, inl, inr, leb, length,
  length-replicate, none, refl, some, sym, true, ℕ, ◌∙◌, ◌≡◌, ◌≤◌, ◌⊎◌,
}
use bengal_market.Base.Int.{IsInt64}
use bengal_market.Base.Words.{max_u64}
use bengal_market.Capture.{read_trade, side_of, text_at, text_into}
use bengal_market.Decimal.{parse_decimal}
use bengal_market.Decimal.Exact.{parse_decimal_sound}
use bengal_market.Json.{JsonLib}
use bengal_market.Json.Same.{eq_text_sound}
use bengal_market.Model.{Trade, TradeSide, blank, buy, sell}
use bengal_market.Model.Text.{assign_lem}
use bengal_market.Timestamp.{parse_timestamp_ns}
use bengal_market.Timestamp.Sound.{parse_timestamp_ns_sound}

-- The trade is what a JSON value says at its keys, and its fields are in range.
pub record IsTrade (J : JsonLib) (t : Trade) : Type 0 where
  pub input : J.Json
  pub price_text : Bytes
  pub size_text : Bytes
  pub time_text : Bytes
  pub price_at : text_at J input (codes "price") ≡ some price_text
  pub size_at : text_at J input (codes "size") ≡ some size_text
  pub time_at : text_at J input (codes "time") ≡ some time_text
  pub price_read : parse_decimal price_text ≡ some t.price
  pub size_read : parse_decimal size_text ≡ some t.size
  pub time_read : parse_timestamp_ns time_text ≡ some t.source_time_ns
  pub trade_id_at : text_at J input (codes "trade_id") ≡ some t.trade_id
  pub product_id_at : text_at J input (codes "product_id") ≡ some t.product_id
  pub side_at :
      ((text_at J input (codes "side") ≡ some (codes "BUY")) × (t.side ≡ buy))
      ⊎ ((text_at J input (codes "side") ≡ some (codes "SELL")) × (t.side ≡ sell))
  pub price_fits : IsInt64 t.price
  pub size_fits : IsInt64 t.size
  pub time_fits : t.source_time_ns ≤ max_u64
  pub trade_id_fits : length t.trade_id ≤ 24
  pub product_id_fits : length t.product_id ≤ 20
  pub unstamped : t.enqueued_ns ≡ 0

text_into_sound :
    (capacity : ℕ) (s t : Bytes) → text_into capacity s ≡ some t → (s ≡ t) × (length t ≤ capacity)
text_into_sound capacity s t h = elim (dec_le (length s) capacity) [
  | yes le ↦
      let (b, v, l) = assign_lem capacity (blank capacity) s (length-replicate capacity 0) in
      let m : leb (length s) capacity ≡ true = ground arith in
      let same : s ≡ t = some-injective _ _ (rw (b ∙ m, v, m) at h) in
      (same, omega (arith, ap length same))
  | no gt ↦
      let (b, v, l) = assign_lem capacity (blank capacity) s (length-replicate capacity 0) in
      let m : leb (length s) capacity ≡ false = ground arith in cc (rw (b ∙ m) at h)
]

side_of_sound :
    (s : Bytes) (side : TradeSide)
    → side_of s ≡ some side
    → ((s ≡ codes "BUY") × (side ≡ buy)) ⊎ ((s ≡ codes "SELL") × (side ≡ sell))
side_of_sound s side e = go (eq_text s (codes "BUY")) (eq_text s (codes "SELL")) refl refl e
  where
    go :
        (b c : Bool)
        → eq_text s (codes "BUY") ≡ b
        → eq_text s (codes "SELL") ≡ c
        → (if b then some buy else if c then some sell else none) ≡ some side
        → ((s ≡ codes "BUY") × (side ≡ buy)) ⊎ ((s ≡ codes "SELL") × (side ≡ sell))
    go true c t f e = inl (eq_text_sound s _ t, sym (some-injective _ _ e))
    go false true f t e = inr (eq_text_sound s _ t, sym (some-injective _ _ e))
    go false false f f' e = cc e

module _ (J : JsonLib) where
  open J use {Json}

  -- The trade of what was read.
  assemble :
      (input : Json) (t : Trade)
      → (price_text size_text side_text time_text trade_id_text product_id_text : Bytes)
      → text_at J input (codes "price") ≡ some price_text
      → text_at J input (codes "size") ≡ some size_text
      → text_at J input (codes "side") ≡ some side_text
      → text_at J input (codes "time") ≡ some time_text
      → parse_decimal price_text ≡ some t.price
      → parse_decimal size_text ≡ some t.size
      → parse_timestamp_ns time_text ≡ some t.source_time_ns
      → text_at J input (codes "trade_id") ≡ some trade_id_text
      → text_into 24 trade_id_text ≡ some t.trade_id
      → text_at J input (codes "product_id") ≡ some product_id_text
      → text_into 20 product_id_text ≡ some t.product_id
      → side_of side_text ≡ some t.side
      → t.enqueued_ns ≡ 0
      → IsTrade J t
  assemble input t price_text size_text side_text time_text trade_id_text product_id_text e1 e2 e3
        e4 e5 e6 e7 e8 e9 e10 e11 e12 unstamped =
      let id = text_into_sound 24 trade_id_text t.trade_id e9 in
      let product = text_into_sound 20 product_id_text t.product_id e11 in
      record {
        input = input;
        price_text = price_text;
        size_text = size_text;
        time_text = time_text;
        price_at = e1;
        size_at = e2;
        time_at = e4;
        price_read = e5;
        size_read = e6;
        time_read = e7;
        trade_id_at = e8 ∙ ap some id.0;
        product_id_at = e10 ∙ ap some product.0;
        side_at = elim (side_of_sound side_text t.side e12) [
          | inl (q, n) ↦ inl (e3 ∙ ap some q, n)
          | inr (q, n) ↦ inr (e3 ∙ ap some q, n)
        ];
        price_fits = (parse_decimal_sound price_text t.price e5).1.3;
        size_fits = (parse_decimal_sound size_text t.size e6).1.3;
        time_fits = (parse_timestamp_ns_sound time_text t.source_time_ns e7).4;
        trade_id_fits = id.1;
        product_id_fits = product.1;
        unstamped = unstamped;
      }

  pub read_trade-IsTrade : (input : Json) (t : Trade) → read_trade J input ≡ some t → IsTrade J t
  unfolding read_trade
  read_trade-IsTrade input t h0 =
      let (price_text, e1, h1) = >>=-eq-some (text_at J input (codes "price")) _ h0 in
      let (size_text, e2, h2) = >>=-eq-some (text_at J input (codes "size")) _ h1 in
      let (side_text, e3, h3) = >>=-eq-some (text_at J input (codes "side")) _ h2 in
      let (time, e4, h4) = >>=-eq-some (text_at J input (codes "time")) _ h3 in
      let (price, e5, h5) = >>=-eq-some (parse_decimal price_text) _ h4 in
      let (size, e6, h6) = >>=-eq-some (parse_decimal size_text) _ h5 in
      let (timestamp, e7, h7) = >>=-eq-some (parse_timestamp_ns time) _ h6 in
      let (trade_id_text, e8, h8) = >>=-eq-some (text_at J input (codes "trade_id")) _ h7 in
      let (trade_id, e9, h9) = >>=-eq-some (text_into 24 trade_id_text) _ h8 in
      let (product_id_text, e10, h10) = >>=-eq-some (text_at J input (codes "product_id")) _ h9 in
      let (product_id, e11, h11) = >>=-eq-some (text_into 20 product_id_text) _ h10 in
      let (side, e12, h12) = >>=-eq-some (side_of side_text) _ h11 in
      let made : Trade = record {
        trade_id = trade_id;
        product_id = product_id;
        price = price;
        size = size;
        side = side;
        source_time_ns = timestamp;
        enqueued_ns = 0;
      } in
      subst (IsTrade J) {x = made} {y = t} (some-injective made t h12) (
        assemble input made price_text size_text side_text time trade_id_text product_id_text e1 e2
          e3 e4 e5 e6 e7 e8 e9 e10 e11 e12 refl)
