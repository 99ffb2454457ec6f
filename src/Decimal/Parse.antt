-- ===== src/Decimal/Parse.antt =====
-- src/core.cpp `parse_decimal`: the conversion of the two parts, and the overflow tests.
use native.Mathlib.Nat.{le_trans, pow-le-pow_right}
use bengal_market.Base.{
  >>=-eq-some, All, Bool, Bool-cases, Bytes, IsDigit, [], arith, false, if-none-eq-some,
  if◌then◌else◌, inl, inr, leb, leb→le, length, le→leb, none, refl, some, tests, true, ℕ, ◌*◌, ◌+◌,
  ◌-◌, ◌<◌, ◌^◌, ◌∙◌, ◌∷◌, ◌≡◌, ◌≢◌, ◌≤◌,
}
use bengal_market.Base.Int.{ℤ}
use bengal_market.Charconv.{decimal_value, parse_uint}
use bengal_market.Charconv.Laws.{parse_uint_complete, parse_uint_sound}
use bengal_market.Decimal.{
  combine, convert, decimal_scale, magnitude_limit, malformed, pad_fraction, parse_fraction,
  parse_parts,
}
use bengal_market.Decimal.Digits.{
  decimal_value-places, pad_fraction-pow, parse_fraction_complete, parse_fraction_sound, places-lt,
}
use bengal_market.Decimal.Numeral.{places, signed}
use bengal_market.Decimal.Split.{find-digits}

-- The overflow tests let through exactly the magnitudes in range.
combine_lem :
    (negative : Bool) (whole fraction : ℕ)
    → fraction < decimal_scale
    → combine negative whole fraction ≡ (
        if leb (whole * decimal_scale + fraction) (magnitude_limit negative)
        then some (signed negative (whole * decimal_scale + fraction))
        else none)
unfolding combine
combine_lem true w f h = ground arith
combine_lem false w f h = ground arith

abbrev pub worth : Bytes → Bytes → ℕ
worth w f = decimal_value 0 w * decimal_scale + places 8 f

-- The digits of a numeral, as the code is handed them.
pub record IsParts (w f : Bytes) : Type 0 where
  pub has_whole : w ≢ []
  pub whole_digits : All IsDigit w
  pub dot_digits : All IsDigit f
  pub precision : length f ≤ 8

pad_places :
    (f : Bytes)
    → All IsDigit f
    → length f ≤ 8
    → pad_fraction (8 - length f) (decimal_value 0 f) ≡ places 8 f
pad_places f h p =
    let e : decimal_value 0 f * 10 ^ (8 - length f) ≡ places 8 f =
      decimal_value-places f 0 (8 - length f) 8 (omega arith) ∙ omega arith in
    pad_fraction-pow (8 - length f) (decimal_value 0 f) (rw e (omega (arith, places-lt 8 f h))) ∙ e

fraction_small : (f : Bytes) → All IsDigit f → length f ≤ 8 → decimal_value 0 f < 2 ^ 64
fraction_small f h p = omega (
  arith,
  decimal_value-places f 0 0 (length f) (omega arith),
  places-lt (length f) f h,
  pow-le-pow_right {n = 10} (omega arith) p,
)

ranged :
    (negative : Bool) (m : ℕ) (v : ℤ)
    → (if leb m (magnitude_limit negative) then some (signed negative m) else none) ≡ some v
    → (m ≤ magnitude_limit negative) × (v ≡ signed negative m)
ranged negative m v h = elim (Bool-cases (leb m (magnitude_limit negative))) [
  | inl e ↦ (leb→le _ _ e, cc (rw e at h))
  | inr e ↦ cc (rw e at h)
]

tests_pass : (dotted : Bool) (w f : Bytes) → IsParts w f → malformed w f dotted ≡ false
tests_pass dotted [] f p = absurd (p.has_whole refl)
tests_pass dotted (c ∷ w) f p = rw (find-digits f p.dot_digits) (ground (arith, p.precision))

pub parse_parts_sound :
    (negative dotted : Bool) (w f : Bytes) (v : ℤ)
    → parse_parts negative w f dotted ≡ some v
    → IsParts w f × (worth w f ≤ magnitude_limit negative) × (v ≡ signed negative (worth w f))
unfolding parse_parts
parse_parts_sound negative dotted w f v h =
    let (tests, h1) = if-none-eq-some (malformed w f dotted) (convert negative w f) h in
    let short : length f ≤ 8 = ground arith in
    let (whole, hw, h2) = >>=-eq-some (parse_uint w) _ h1 in
    let (fraction, hf, h3) = >>=-eq-some (parse_fraction f 0) _ h2 in
    let (ne, dw, ew, _) = parse_uint_sound w whole hw in
    let (df, ef) = parse_fraction_sound f 0 fraction 0 (omega arith) (omega arith) hf in
    let small : places 8 f < decimal_scale = places-lt 8 f df in
    let combined =
      rw (ew, combine_lem negative (decimal_value 0 w) (places 8 f) small) at
        (rw (ef, pad_places f df short) at h3) in
    let parts : IsParts w f = record {
      has_whole = ne;
      whole_digits = dw;
      dot_digits = df;
      precision = short;
    } in
    let (fits, exact) = ranged negative (worth w f) v combined in (parts, fits, exact)

pub parse_parts_complete :
    (negative dotted : Bool) (w f : Bytes)
    → IsParts w f
    → worth w f ≤ magnitude_limit negative
    → parse_parts negative w f dotted ≡ some (signed negative (worth w f))
unfolding parse_parts
parse_parts_complete negative dotted w f p fits =
    let limit : magnitude_limit negative ≤ 2 ^ 63 = ground arith in
    let u = parse_uint_complete w p.has_whole p.whole_digits (omega (arith, le_trans fits limit)) in
    let g = parse_fraction_complete f 0 p.dot_digits (fraction_small f p.dot_digits p.precision) in
    rw (
      tests_pass dotted w f p,
      u,
      g,
      pad_places f p.dot_digits p.precision,
      combine_lem negative (decimal_value 0 w) (places 8 f) (places-lt 8 f p.dot_digits),
      le→leb _ _ fits,
    )
