-- ===== src/Decimal/Exact.antt =====
-- src/core.cpp `parse_decimal` reads exactly the decimal numerals whose amount is an `int64_t`, and
-- returns that amount.
use mathlib.Core.List.{cons-ne-nil}
use bengal_market.Base.{
  All, Bool, Bytes, IsDigit, Option, [], ap, append-nil, arith, false, inl, inr, none, refl, some,
  suc, sym, true, zero, ℕ, ◌++◌, ◌==◌, ◌||◌, ◌∙◌, ◌∷◌, ◌≡◌, ◌≢◌, ◌≤◌, ◌⊎◌,
}
use bengal_market.Base.Int.{IsInt64, ℤ}
use bengal_market.Decimal.{magnitude_limit, parse_decimal, parse_unsigned}
use bengal_market.Decimal.Numeral.{
  IsNumeral, Numeral, Sign, amount, bare, digits_of, is_minus, minus, plus, signed, spell,
  spell_dot, spell_sign,
}
use bengal_market.Decimal.Parse.{IsParts, parse_parts_complete, parse_parts_sound, worth}
use bengal_market.Decimal.Split.{
  Cut, cut, cut_at, digits-Lacks, parse_unsigned_parts, parse_unsigned_whole, uncut,
}

IsInt64-signed :
    (negative : Bool) (m : ℕ) → m ≤ magnitude_limit negative → IsInt64 (signed negative m)
IsInt64-signed true zero h = omega arith
IsInt64-signed true (suc m) h = ground arith
IsInt64-signed false m h = omega arith

magnitude-le :
    (negative : Bool) (m : ℕ) → IsInt64 (signed negative m) → m ≤ magnitude_limit negative
magnitude-le true zero h = omega arith
magnitude-le true (suc m) h = ground arith
magnitude-le false m h = omega arith

-- What the digits behind the sign say, where they are accepted.
record Reads (negative : Bool) (s : Bytes) (v : ℤ) : Type 0 where
  whole : Bytes
  dot : Option Bytes
  parts : IsParts whole (digits_of dot)
  spelled : whole ++ spell_dot dot ≡ s
  fits : worth whole (digits_of dot) ≤ magnitude_limit negative
  exact : v ≡ signed negative (worth whole (digits_of dot))

Cut-Reads :
    (negative : Bool) (s : Bytes) (v : ℤ)
    → s ≢ []
    → Cut b'.' s
    → parse_unsigned negative s ≡ some v
    → Reads negative s v
Cut-Reads negative s v ne (uncut h) e =
    let (p, fits, exact) =
      parse_parts_sound negative false s [] v (rw (parse_unsigned_whole negative s ne h) at e) in
    record { whole = s; dot = none; parts = p; spelled = append-nil s; fits = fits; exact = exact }
Cut-Reads negative s v ne (cut_at w f h e') e =
    let (p, fits, exact) =
      parse_parts_sound negative true w f v
        (rw (parse_unsigned_parts negative w f h) at (rw e' at e)) in
    record { whole = w; dot = some f; parts = p; spelled = sym e'; fits = fits; exact = exact }

parse_unsigned-Reads :
    (negative : Bool) (s : Bytes) (v : ℤ) → parse_unsigned negative s ≡ some v → Reads negative s v
unfolding parse_unsigned
parse_unsigned-Reads negative [] v e = cc
parse_unsigned-Reads negative (c ∷ s) v e =
    Cut-Reads negative (c ∷ s) v (cons-ne-nil c s) (cut b'.' (c ∷ s)) e

parse_unsigned_complete :
    (negative : Bool) (w : Bytes) (d : Option Bytes)
    → IsParts w (digits_of d)
    → worth w (digits_of d) ≤ magnitude_limit negative
    → parse_unsigned negative (w ++ spell_dot d) ≡ some (signed negative (worth w (digits_of d)))
parse_unsigned_complete negative w none p fits = rw (append-nil w) (
    parse_unsigned_whole negative w p.has_whole (digits-Lacks w p.whole_digits)
    ∙ parse_parts_complete negative false w [] p fits)
parse_unsigned_complete negative w (some f) p fits =
    parse_unsigned_parts negative w f (digits-Lacks w p.whole_digits)
    ∙ parse_parts_complete negative true w f p fits

-- The numeral that an accepted text spells.
abbrev pub Denotes : Bytes → ℤ → Numeral → Type 0
Denotes s v n = IsNumeral n × (spell n ≡ s) × (amount n ≡ v) × IsInt64 v

numeral :
    (g : Sign) (s r : Bytes) (v : ℤ)
    → Reads (is_minus g) r v
    → spell_sign g ++ r ≡ s
    → (n : Numeral) × Denotes s v n
numeral g s r v d e =
    let n : Numeral = record { sign = g; whole = d.whole; dot = d.dot } in
    let valid : IsNumeral n = record {
      has_whole = d.parts.has_whole;
      whole_digits = d.parts.whole_digits;
      dot_digits = d.parts.dot_digits;
      precision = d.parts.precision;
    } in
    (
      n,
      (
        valid,
        ap (λ t. spell_sign g ++ t) d.spelled ∙ e,
        sym d.exact,
        rw d.exact (IsInt64-signed (is_minus g) _ d.fits),
      ),
    )

sign_cases : (c : ℕ) → (c ≡ b'-') ⊎ ((c ≡ b'+') ⊎ (((c == b'-') || (c == b'+')) ≡ false))
sign_cases c = ground arith

-- Whatever `parse_decimal` accepts is a decimal numeral of at most eight places, its amount at
-- scale 10^8 is an `int64_t`, and the result is that amount, exactly.
pub parse_decimal_sound :
    (s : Bytes) (v : ℤ) → parse_decimal s ≡ some v → (n : Numeral) × Denotes s v n
unfolding parse_decimal
parse_decimal_sound [] v h = cc
parse_decimal_sound (c ∷ s) v h = elim (sign_cases c) [
  | inl e ↦ numeral minus (c ∷ s) s v (parse_unsigned-Reads true s v (rw e at h)) (rw e)
  | inr (inl e) ↦ numeral plus (c ∷ s) s v (parse_unsigned-Reads false s v (rw e at h)) (rw e)
  | inr (inr e) ↦
      numeral bare (c ∷ s) (c ∷ s) v (parse_unsigned-Reads false (c ∷ s) v (rw e at h)) refl
]

parse_decimal-bare :
    (w r : Bytes) → w ≢ [] → All IsDigit w → parse_decimal (w ++ r) ≡ parse_unsigned false (w ++ r)
unfolding parse_decimal
parse_decimal-bare [] r ne h = absurd (ne refl)
parse_decimal-bare (c ∷ w) r ne h =
    let e : ((c == b'-') || (c == b'+')) ≡ false = ground arith in rw e

parse_decimal-sign :
    (g : Sign) (w r : Bytes)
    → w ≢ []
    → All IsDigit w
    → parse_decimal (spell_sign g ++ (w ++ r)) ≡ parse_unsigned (is_minus g) (w ++ r)
unfolding parse_decimal
parse_decimal-sign bare w r ne h = parse_decimal-bare w r ne h
parse_decimal-sign plus w r ne h = refl
parse_decimal-sign minus w r ne h = refl

-- Every decimal numeral whose amount is an `int64_t` is accepted, with that amount.
pub parse_decimal_complete :
    (n : Numeral) → IsNumeral n → IsInt64 (amount n) → parse_decimal (spell n) ≡ some (amount n)
parse_decimal_complete n p fits =
    let parts : IsParts n.whole (digits_of n.dot) = record {
      has_whole = p.has_whole;
      whole_digits = p.whole_digits;
      dot_digits = p.dot_digits;
      precision = p.precision;
    } in
    parse_decimal-sign n.sign n.whole (spell_dot n.dot) p.has_whole p.whole_digits
    ∙ parse_unsigned_complete (is_minus n.sign) n.whole n.dot parts
        (magnitude-le (is_minus n.sign) _ fits)
