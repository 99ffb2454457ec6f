-- ===== src/Capture/Opened.antt =====
-- src/core.cpp `read_capture`: what a frame does to the reader behind the metadata.
use mathlib.Core.Option.{some-injective}
use mathlib.Core.Path.{subst}
use native.Mathlib.Decide.{ℕ_discrete}
use bengal_market.Base.{
  All, All-append, Bool, Bytes, List, Option, [], ap, arith, codes, eq_text, false, if◌then◌else◌,
  leb, length, ltb, none, refl, some, true, ℕ, ◌&&◌, ◌++◌, ◌==◌, ◌∙◌, ◌∷◌, ◌≡◌, ◌≤◌,
}
use bengal_market.Base.Words.{add_u64, sub_u64}
use bengal_market.Capture.{
  Reader, and_then, count_sequence, find_sequence, frame_fields, maximum_sequence_streams,
  note_sequence, number_at, or_throw, put_sequence, read_frame, read_payload, read_trade,
  seen_before, take_events, take_trades,
}
use bengal_market.Capture.Trades.{IsTrade, read_trade-IsTrade}
use bengal_market.Json.{JsonLib}
use bengal_market.Report.{ParseMetrics}

-- Whatever the computation gives satisfies `P`.
record Yields {A : Type 0} (o : Option A) (P : A → Type 0) : Type 0 where
  pub result : (a : A) → o ≡ some a → P a

-- Behind the metadata, with `frames` and `errors` counted.
pub record IsOpen (J : JsonLib) (frames errors : ℕ) (r : Reader) : Type 0 where
  pub accepted : All (IsTrade J) r.consumed
  pub seen : r.metadata_seen ≡ true
  pub limited : length r.last_sequences ≤ maximum_sequence_streams
  pub framed : r.metrics.frames ≡ frames
  pub failed : r.metrics.parse_errors ≡ errors

pub or_throw_meets :
    {A : Type 0} (Q : Reader × Bool → Type 0) (r : Reader) (o : Option A) (k : A → Reader × Bool)
    → Q (r, false)
    → ((a : A) → o ≡ some a → Q (k a))
    → Q (or_throw r o k)
or_throw_meets Q r none k p h = p
or_throw_meets Q r (some a) k p h = h a refl

or_throw_keeps :
    {A : Type 0} (P : Reader → Type 0) (r : Reader) (o : Option A) (k : A → Reader × Bool)
    → P r
    → ((a : A) → o ≡ some a → P (k a).0)
    → P (or_throw r o k).0
or_throw_keeps P r none k p h = p
or_throw_keeps P r (some a) k p h = h a refl

and_then_keeps :
    (P : Reader → Type 0) (x : Reader × Bool) (k : Reader → Reader × Bool)
    → P x.0
    → ((r : Reader) → P r → P (k r).0)
    → P (and_then x k).0
and_then_keeps P (r, true) k p h = h r p
and_then_keeps P (r, false) k p h = p

if_keeps :
    (P : Reader → Type 0) (b : Bool) (x y : Reader × Bool)
    → (b ≡ true → P x.0)
    → (b ≡ false → P y.0)
    → P (if b then x else y).0
if_keeps P true x y t f = t refl
if_keeps P false x y t f = f refl

pub if_meets :
    (Q : Reader × Bool → Type 0) (b : Bool) (x y : Reader × Bool)
    → (b ≡ true → Q x)
    → (b ≡ false → Q y)
    → Q (if b then x else y)
if_meets Q true x y t f = t refl
if_meets Q false x y t f = f refl

length-put_sequence :
    (id sequence : ℕ) (l : List (ℕ × ℕ)) → length (put_sequence id sequence l) ≡ length l
unfolding put_sequence
length-put_sequence id sequence [] = refl
length-put_sequence id sequence ((i, n) ∷ l) = ground (arith, length-put_sequence id sequence l)

some-Yields : {A : Type 0} {P : A → Type 0} {a : A} → P a → Yields (some a) P
some-Yields {P} {a} p = record { result = λ b e. subst P (some-injective a b e) p }

length-put_if :
    (b : Bool) (id sequence : ℕ) (l : List (ℕ × ℕ))
    → length (if b then put_sequence id sequence l else l) ≡ length l
length-put_if true id sequence l = length-put_sequence id sequence l
length-put_if false id sequence l = refl

count_sequence-counts :
    (sequence previous : ℕ) (m : ParseMetrics)
    → ((count_sequence sequence previous m).frames ≡ m.frames)
      × ((count_sequence sequence previous m).parse_errors ≡ m.parse_errors)
unfolding count_sequence
count_sequence-counts sequence previous m =
    go (ltb previous sequence && ltb 1 (sub_u64 sequence previous)) (leb sequence previous)
  where
    go :
        (b c : Bool)
        → ((if b
              then record m {
                sequence_gaps = add_u64 m.sequence_gaps (sub_u64 (sub_u64 sequence previous) 1);
              }
              else if c
              then record m { out_of_order = add_u64 m.out_of_order 1 }
              else m).frames
            ≡ m.frames)
          × ((if b
                then record m {
                  sequence_gaps = add_u64 m.sequence_gaps (sub_u64 (sub_u64 sequence previous) 1);
                }
                else if c
                then record m { out_of_order = add_u64 m.out_of_order 1 }
                else m).parse_errors
              ≡ m.parse_errors)
    go true c = (refl, refl)
    go false true = (refl, refl)
    go false false = (refl, refl)

note_sequence-IsOpen :
    {J : JsonLib} {frames errors : ℕ} (id sequence : ℕ) (r : Reader)
    → IsOpen J frames errors r
    → Yields (note_sequence r id sequence) (IsOpen J frames errors)
unfolding note_sequence seen_before
note_sequence-IsOpen {J} {frames} {errors} id sequence r o =
    go (find_sequence id r.last_sequences) refl
  where
    go :
        (f : Option ℕ)
        → find_sequence id r.last_sequences ≡ f
        → Yields (note_sequence r id sequence) (IsOpen J frames errors)
    go none q =
        rw (note_sequence, q)
          (elim (ℕ_discrete (length r.last_sequences) maximum_sequence_streams) [
            | yes full ↦
                let t : (length r.last_sequences == maximum_sequence_streams) ≡ true =
                  ground arith in
                rw t (record { result = λ r' e. cc e })
            | no vacant ↦
                let t : (length r.last_sequences == maximum_sequence_streams) ≡ false =
                  ground arith in
                rw t (
                  some-Yields (record {
                    accepted = o.accepted;
                    seen = o.seen;
                    limited = omega (arith, o.limited);
                    framed = o.framed;
                    failed = o.failed;
                  }))
          ])
    go (some previous) q =
        rw (note_sequence, q)
          (some-Yields (record {
            accepted = o.accepted;
            seen = o.seen;
            limited = omega (
              arith,
              length-put_if (ltb previous sequence) id sequence r.last_sequences,
              o.limited,
            );
            framed = (count_sequence-counts sequence previous r.metrics).0 ∙ o.framed;
            failed = (count_sequence-counts sequence previous r.metrics).1 ∙ o.failed;
          }))

module _ (J : JsonLib) where
  open J use {Json}

  module _ (frames errors : ℕ) where
    abbrev Open : Reader → Type 0
    Open = IsOpen J frames errors

    take_trades-IsOpen :
        (inputs : List Json) (r : Reader) → Open r → Open (take_trades J r inputs).0
    unfolding take_trades
    take_trades-IsOpen [] r o = o
    take_trades-IsOpen (input ∷ rest) r o = or_throw_keeps Open r (read_trade J input) _ o (λ t e.
        take_trades-IsOpen rest (record r { consumed = r.consumed ++ t ∷ [] })
          (record {
            accepted =
                All-append (IsTrade J) r.consumed (t ∷ []) o.accepted
                  (read_trade-IsTrade J input t e, tt);
            seen = o.seen;
            limited = o.limited;
            framed = o.framed;
            failed = o.failed;
          }))

    take_events-IsOpen :
        (events : List Json) (r : Reader) → Open r → Open (take_events J r events).0
    unfolding take_events
    take_events-IsOpen [] r o = o
    take_events-IsOpen (event ∷ rest) r o =
        or_throw_keeps Open r (J.at event (codes "trades")) _ o (λ trades e.
          and_then_keeps Open _ _ (take_trades-IsOpen (J.elements trades) r o)
            (λ r' o'. take_events-IsOpen rest r' o'))

    read_payload-IsOpen :
        (payload : Json) (channel : Bytes) (r : Reader)
        → Open r
        → Open (read_payload J r payload channel).0
    unfolding read_payload
    read_payload-IsOpen payload channel r o =
        if_keeps Open (eq_text channel (codes "market_trades")) _ _
          (λ t.
            or_throw_keeps Open r (J.at payload (codes "events")) _ o
              (λ events e. take_events-IsOpen (J.elements events) r o))
          (λ f. o)

  pub read_frame-IsOpen :
      {errors : ℕ} (value : Json) (r : Reader) (frames : ℕ)
      → IsOpen J frames errors r
      → IsOpen J (add_u64 frames 1) errors (read_frame J r value).0
  unfolding read_frame
  read_frame-IsOpen {errors} value before frames o =
      let r = record before {
        metrics = record before.metrics { frames = add_u64 before.metrics.frames 1 };
      } in
      let counted : IsOpen J (add_u64 frames 1) errors r = record {
        accepted = o.accepted;
        seen = o.seen;
        limited = o.limited;
        framed = ap (λ n. add_u64 n 1) o.framed;
        failed = o.failed;
      } in
      let P = IsOpen J (add_u64 frames 1) errors in
      or_throw_keeps P r (frame_fields J value) _ counted (λ fields e.
        if_keeps P (J.contains fields.1.0 (codes "sequence_num")) _ _
          (λ t.
            or_throw_keeps P r (number_at J fields.1.0 (codes "sequence_num")) _ counted
              (λ sequence e'.
                or_throw_keeps P r (note_sequence r fields.0 sequence) _ counted (λ r' e''.
                  read_payload-IsOpen _ _ fields.1.0 fields.1.1 r'
                    ((note_sequence-IsOpen fields.0 sequence r counted).result r' e''))))
          (λ f. counted))
