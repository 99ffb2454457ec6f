-- ===== src/Timestamp/Sound.antt =====
-- src/core.cpp `parse_timestamp_ns` accepts nothing but timestamps.
use bengal_market.Base.{
  >>=-eq-some, Bool, Bytes, [], arith, drop, false, get_or, if◌then◌else◌, leb, leb→le, length,
  none, refl, some, sym, true, ℕ, ◌%◌, ◌++◌, ◌+◌, ◌/◌, ◌∙◌, ◌∷◌, ◌≡◌, ◌≤◌,
}
use bengal_market.Base.Words.{max_u64}
use bengal_market.Decimal.Numeral.{spell_dot}
use bengal_market.Timestamp.{
  ends_in_z, fields_fit, guard, parse_component, parse_timestamp_ns, read_fraction, well_shaped,
}
use bengal_market.Timestamp.Components.{component_four, component_two, pair_sound, quad_sound}
use bengal_market.Timestamp.Exact.{finish_lem, fraction_lt}
use bengal_market.Timestamp.Fraction.{read_fraction_sound}
use bengal_market.Timestamp.Gregorian.{days_in_month-month_days}
use bengal_market.Timestamp.Stamp.{IsFraction, IsStamp, Stamp, instant, write_stamp}

-- The nineteen characters that the code looks up, and the rest.
unroll :
    (s : Bytes)
    → 19 ≤ length s
    → s
      ≡ get_or s 0 0
        ∷ get_or s 1 0
        ∷ get_or s 2 0
        ∷ get_or s 3 0
        ∷ get_or s 4 0
        ∷ get_or s 5 0
        ∷ get_or s 6 0
        ∷ get_or s 7 0
        ∷ get_or s 8 0
        ∷ get_or s 9 0
        ∷ get_or s 10 0
        ∷ get_or s 11 0
        ∷ get_or s 12 0
        ∷ get_or s 13 0
        ∷ get_or s 14 0
        ∷ get_or s 15 0
        ∷ get_or s 16 0
        ∷ get_or s 17 0
        ∷ get_or s 18 0
        ∷ drop 19 s
unroll (a ∷ b ∷ c ∷ d ∷ e ∷ f ∷ g ∷ h ∷ i ∷ j ∷ k ∷ l ∷ m ∷ n ∷ o ∷ p ∷ q ∷ r ∷ t ∷ s) z = refl
unroll _ z = absurd (omega arith)

-- The marks that the first test asks for.
record IsShaped (s : Bytes) : Type 0 where
  long : 20 ≤ length s
  dash : get_or s 4 0 ≡ b'-'
  dash' : get_or s 7 0 ≡ b'-'
  mark : get_or s 10 0 ≡ b'T'
  colon : get_or s 13 0 ≡ b':'
  colon' : get_or s 16 0 ≡ b':'

well_shaped-IsShaped : (s : Bytes) → well_shaped s ≡ true → IsShaped s
well_shaped-IsShaped s h = ground arith

fields_fit-month :
    (t : Stamp)
    → fields_fit t.year t.month t.day t.hour t.minute t.second ≡ true
    → (1 ≤ t.month) × (t.month ≤ 12)
fields_fit-month t h = ground arith

fields_fit-IsStamp :
    (t : Stamp)
    → t.year ≤ 9999
    → fields_fit t.year t.month t.day t.hour t.minute t.second ≡ true
    → IsFraction t.dot
    → IsStamp t
fields_fit-IsStamp t hy h hf =
    let (lo, hi) = fields_fit-month t h in
    ground (arith, days_in_month-month_days t.year t.month lo hi)

guard-true : (b : Bool) (u : Unit {0}) → guard b ≡ some u → b ≡ true
guard-true true u h = refl
guard-true false u h = cc

accepted : (i n : ℕ) → (if leb i max_u64 then some i else none) ≡ some n → (n ≡ i) × (n ≤ max_u64)
accepted i n h = ground arith

-- Two digits of `s` at `k` are those of `n`.
abbrev TwoAt : Bytes → ℕ → ℕ → Type 0
TwoAt s k n = (get_or s k 0 ≡ b'0' + n / 10) × (get_or s (k + 1) 0 ≡ b'0' + n % 10)

respell :
    (s : Bytes) (t : Stamp)
    → IsShaped s
    → TwoAt s 0 (t.year / 100)
    → TwoAt s 2 (t.year % 100)
    → TwoAt s 5 t.month
    → TwoAt s 8 t.day
    → TwoAt s 11 t.hour
    → TwoAt s 14 t.minute
    → TwoAt s 17 t.second
    → drop 19 s ≡ spell_dot t.dot ++ b'Z' ∷ []
    → write_stamp t ≡ s
respell s t w y0 y2 mo d ho mi se rest = sym (
    unroll s (omega (arith, w.long))
    ∙ rw (
      y0.0, y0.1, y2.0, y2.1, w.dash, mo.0, mo.1, w.dash', d.0, d.1, w.mark, ho.0, ho.1, w.colon,
      mi.0, mi.1, w.colon', se.0, se.1, rest,
    ))

within : (s : Bytes) (k : ℕ) → IsShaped s → leb k 20 ≡ true → k ≤ length s
within s k w h = omega (arith, w.long, leb→le k 20 h)

read_two :
    (s : Bytes) (offset n : ℕ)
    → offset + 2 ≤ length s
    → parse_component s offset 2 ≡ some n
    → (get_or s offset 0 ≡ b'0' + n / 10) × (get_or s (offset + 1) 0 ≡ b'0' + n % 10)
read_two s offset n h e =
    let p =
      pair_sound (get_or s offset 0) (get_or s (offset + 1) 0) n
        (sym (component_two s offset h) ∙ e) in
    (p.0, p.1)

read_four :
    (s : Bytes) (n : ℕ)
    → 0 + 4 ≤ length s
    → parse_component s 0 4 ≡ some n
    → (get_or s 0 0 ≡ b'0' + n / 100 / 10)
      × (get_or s 1 0 ≡ b'0' + n / 100 % 10)
      × (get_or s 2 0 ≡ b'0' + n % 100 / 10)
      × (get_or s 3 0 ≡ b'0' + n % 100 % 10)
      × (n ≤ 9999)
read_four s n h e =
    let e' = sym (component_four s 0 h) ∙ e in
    let (a, b, c, d, lt) =
      quad_sound (get_or s 0 0) (get_or s 1 0) (get_or s 2 0) (get_or s 3 0) n e' in
    (a, b, c, d, omega arith)

-- Whatever `parse_timestamp_ns` accepts is a timestamp of a date and time that exist, from 1970 on,
-- with at most nine digits of a fraction, and the result is its instant, below 2^64.
pub parse_timestamp_ns_sound :
    (s : Bytes) (n : ℕ)
    → parse_timestamp_ns s ≡ some n
    → (t : Stamp) × IsStamp t × (write_stamp t ≡ s) × (n ≡ instant t) × (n ≤ max_u64)
unfolding parse_timestamp_ns
parse_timestamp_ns_sound s n h =
    let (u, shaped, h0) = >>=-eq-some (guard (well_shaped s)) _ h in
    let w = well_shaped-IsShaped s (guard-true _ u shaped) in
    let (year, ey, h1) = >>=-eq-some (parse_component s 0 4) _ h0 in
    let (month, emo, h2) = >>=-eq-some (parse_component s 5 2) _ h1 in
    let (day, ed, h3) = >>=-eq-some (parse_component s 8 2) _ h2 in
    let (hour, eh, h4) = >>=-eq-some (parse_component s 11 2) _ h3 in
    let (minute, emi, h5) = >>=-eq-some (parse_component s 14 2) _ h4 in
    let (second, es, h6) = >>=-eq-some (parse_component s 17 2) _ h5 in
    let (u', fit, h7) = >>=-eq-some (guard (fields_fit year month day hour minute second)) _ h6 in
    let (r, er, h8) = >>=-eq-some (read_fraction (drop 19 s)) _ h7 in
    let (u2, ez, h9) = >>=-eq-some (guard (ends_in_z r.2)) _ h8 in
    let (dot, vf, rest, padded) = read_fraction_sound (drop 19 s) r er (guard-true _ u2 ez) in
    let y = read_four s year (within s 4 w refl) ey in
    let mo = read_two s 5 month (within s 7 w refl) emo in
    let d = read_two s 8 day (within s 10 w refl) ed in
    let ho = read_two s 11 hour (within s 13 w refl) eh in
    let mi = read_two s 14 minute (within s 16 w refl) emi in
    let se = read_two s 17 second (within s 19 w refl) es in
    let t : Stamp = record {
      year = year;
      month = month;
      day = day;
      hour = hour;
      minute = minute;
      second = second;
      dot = dot;
    } in
    let v : IsStamp t = fields_fit-IsStamp t y.4 (guard-true _ u' fit) vf in
    let out =
      accepted (instant t) n
        (sym (finish_lem t _ v padded (rw padded (fraction_lt dot vf))) ∙ h9) in
    let same = respell s t w (y.0, y.1) (y.2, y.3) mo d ho mi se rest in (t, v, same, out.0, out.1)
