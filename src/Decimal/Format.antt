-- ===== src/Decimal/Format.antt =====
-- src/core.cpp `format_decimal` writes an amount as a numeral that `parse_decimal` reads back.
use Prim.Native.Nat.{digits}
use mathlib.Core.Path.{ap₂, subst}
use native.Mathlib.Decide.{ℕ_discrete}
use bengal_market.Base.{
  Bool, Bytes, Option, [], ap, append-nil, append_assoc, arith, false, if◌then◌else◌, none, refl,
  some, suc, sym, true, ℕ, ◌%◌, ◌++◌, ◌-◌, ◌/◌, ◌==◌, ◌^◌, ◌∙◌, ◌∷◌, ◌≡◌, ◌≢◌,
}
use bengal_market.Base.Int.{IsInt64, negsuc, pos, ℤ}
use bengal_market.Base.Words.{sub_u64}
use bengal_market.Charconv.Print.{
  decimal_value-print_uint, print_uint, print_uint-IsDigit, print_uint-ne-nil,
}
use bengal_market.Decimal.{
  decimal_scale, format_decimal, format_parts, parse_decimal, set_width, sign_text, strip_zeros,
}
use bengal_market.Decimal.Exact.{parse_decimal_complete}
use bengal_market.Decimal.Numeral.{
  IsNumeral, Numeral, amount, bare, digits_of, is_minus, minus, places, plus, signed, spell,
  spell_dot, spell_sign,
}
use bengal_market.Decimal.Parse.{IsParts, worth}
use bengal_market.Decimal.Trim.{
  length-strip_zeros, places-strip_zeros, set_width_fraction, strip_zeros-IsDigit,
  strip_zeros-append, strip_zeros-trimmed,
}

-- The fraction is dropped, or is one to eight digits that do not end in a zero.
pub data IsTrimmed : Option Bytes → Type 0 where
  dropped : IsTrimmed none
  kept : (f : Bytes) → f ≢ [] → ((g : Bytes) → f ≢ g ++ b'0' ∷ []) → IsTrimmed (some f)

-- What is to be shown of the text behind the sign.
record Writes (negative : Bool) (m : ℕ) (s : Bytes) : Type 0 where
  whole : Bytes
  dot : Option Bytes
  spelled : s ≡ sign_text negative ++ (whole ++ spell_dot dot)
  parts : IsParts whole (digits_of dot)
  exact : worth whole (digits_of dot) ≡ m
  trimmed : IsTrimmed dot

places-ne-nil : (f : Bytes) → places 8 f ≢ 0 → f ≢ []
places-ne-nil f h e = h (ap (places 8) e)

format_parts-Writes : (negative : Bool) (m : ℕ) → Writes negative m (format_parts negative m)
unfolding format_parts
format_parts-Writes negative m =
    let w = print_uint (m / decimal_scale) in
    let padded = set_width 8 (print_uint (m % decimal_scale)) in
    let (digits, size, value) = set_width_fraction (m % decimal_scale) (omega arith) in
    let f = strip_zeros padded in
    let fraction : places 8 f ≡ m % decimal_scale = places-strip_zeros 8 padded ∙ value in
    elim (ℕ_discrete (m % decimal_scale) 0) [
      | yes e ↦ rw e (record {
        whole = w;
        dot = none;
        spelled = rw append-nil;
        parts = record {
          has_whole = print_uint-ne-nil (m / decimal_scale);
          whole_digits = print_uint-IsDigit (m / decimal_scale);
          dot_digits = tt;
          precision = omega arith;
        };
        exact = omega (arith, decimal_value-print_uint (m / decimal_scale));
        trimmed = dropped;
      })
      | no ne ↦
          let t : (m % decimal_scale == 0) ≡ false = ground arith in
          rw t (record {
            whole = w;
            dot = some f;
            spelled =
                strip_zeros-append (sign_text negative ++ w) padded
                ∙ append_assoc (sign_text negative) w (b'.' ∷ f);
            parts = record {
              has_whole = print_uint-ne-nil (m / decimal_scale);
              whole_digits = print_uint-IsDigit (m / decimal_scale);
              dot_digits = strip_zeros-IsDigit padded digits;
              precision = omega (arith, length-strip_zeros padded);
            };
            exact = omega (arith, decimal_value-print_uint (m / decimal_scale));
            trimmed =
                kept f (places-ne-nil f (λ z. ne (sym fraction ∙ z))) (strip_zeros-trimmed padded);
          })
    ]

sign_text-spell_sign :
    (negative : Bool) → sign_text negative ≡ spell_sign (if negative then minus else bare)
sign_text-spell_sign true = refl
sign_text-spell_sign false = refl

is_minus-sign : (negative : Bool) → is_minus (if negative then minus else bare) ≡ negative
is_minus-sign true = refl
is_minus-sign false = refl

-- The numeral that `format_decimal` writes.
pub record Prints (v : ℤ) (s : Bytes) : Type 0 where
  pub numeral : Numeral
  pub valid : IsNumeral numeral
  pub spelled : spell numeral ≡ s
  pub exact : amount numeral ≡ v
  pub no_plus : numeral.sign ≢ plus
  pub trimmed : IsTrimmed numeral.dot

sign-ne-plus : (negative : Bool) → (if negative then minus else bare) ≢ plus
sign-ne-plus true e = cc
sign-ne-plus false e = cc

Writes-Prints :
    (negative : Bool) (m : ℕ) (s : Bytes) → Writes negative m s → Prints (signed negative m) s
Writes-Prints negative m s w = record {
  numeral = record { sign = if negative then minus else bare; whole = w.whole; dot = w.dot };
  valid = record {
    has_whole = w.parts.has_whole;
    whole_digits = w.parts.whole_digits;
    dot_digits = w.parts.dot_digits;
    precision = w.parts.precision;
  };
  spelled =
      ap (λ t. t ++ (w.whole ++ spell_dot w.dot)) (sym (sign_text-spell_sign negative))
      ∙ sym w.spelled;
  exact = ap₂ signed (is_minus-sign negative) w.exact;
  no_plus = sign-ne-plus negative;
  trimmed = w.trimmed;
}

-- Every `int64_t` is written as a decimal numeral of exactly that amount, with no plus sign, and
-- with no dot or a fraction of one to eight digits that does not end in a zero.
pub format_decimal-Prints : (v : ℤ) → IsInt64 v → Prints v (format_decimal v)
unfolding format_decimal
format_decimal-Prints (pos n) h = Writes-Prints false n _ (format_parts-Writes false n)
format_decimal-Prints (negsuc n) h =
    let m : sub_u64 0 (2 ^ 64 - 1 - n) ≡ suc n = omega arith in
    let e : signed true (suc n) ≡ negsuc n = ground arith in
    rw m (
      subst (λ v. Prints v (format_parts true (suc n))) e
        (Writes-Prints true (suc n) _ (format_parts-Writes true (suc n))))

-- Every `int64_t` is read back from the text that `format_decimal` writes.
pub parse_decimal-format_decimal : (v : ℤ) → IsInt64 v → parse_decimal (format_decimal v) ≡ some v
parse_decimal-format_decimal v h =
    let p = format_decimal-Prints v h in
    ap parse_decimal (sym p.spelled)
    ∙ parse_decimal_complete p.numeral p.valid (rw p.exact h)
    ∙ ap some p.exact
