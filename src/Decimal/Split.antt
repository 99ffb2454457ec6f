-- ===== src/Decimal/Split.antt =====
-- src/core.cpp `parse_decimal`: the text is cut at its first dot.
use mathlib.Core.Path.{ap₂}
use native.Mathlib.Decide.{ℕ_discrete}
use bengal_market.Base.{
  All, All-map, Bool, Bytes, IsDigit, Lacks, [], ap, arith, drop, false, length, none, refl, some,
  suc, take, true, ℕ, ◌++◌, ◌∙◌, ◌∷◌, ◌≡◌, ◌≢◌,
}
use bengal_market.Decimal.{find, parse_parts, parse_unsigned, split_at}

find-none : (c : ℕ) (s : Bytes) → Lacks c s → find c s ≡ none
unfolding find
find-none c [] h = refl
find-none c (x ∷ s) h = ground (arith, find-none c s h.1)

find-some : (c : ℕ) (w f : Bytes) → Lacks c w → find c (w ++ c ∷ f) ≡ some (length w)
unfolding find
find-some c [] f h = ground arith
find-some c (x ∷ w) f h = ground (arith, find-some c w f h.1)

take_front : (c : ℕ) (w f : Bytes) → take (length w) (w ++ c ∷ f) ≡ w
take_front c [] f = refl
take_front c (x ∷ w) f = ap (λ r. x ∷ r) (take_front c w f)

drop_front : (c : ℕ) (w f : Bytes) → drop (suc (length w)) (w ++ c ∷ f) ≡ f
drop_front c [] f = refl
drop_front c (x ∷ w) f = drop_front c w f

-- Every text has no `c`, or is a front with none, a `c` and a rest.
pub data Cut (c : ℕ) (s : Bytes) : Type 0 where
  uncut : Lacks c s → Cut c s
  cut_at : (w f : Bytes) → Lacks c w → s ≡ w ++ c ∷ f → Cut c s

pub cut : (c : ℕ) (s : Bytes) → Cut c s
cut c [] = uncut tt
cut c (x ∷ s) = elim (ℕ_discrete x c) [
  | yes e ↦ cut_at [] s tt (ap (λ y. y ∷ s) e)
  | no ne ↦ elim (cut c s) [
    | uncut h ↦ uncut (ne, h)
    | cut_at w f h e ↦ cut_at (x ∷ w) f (ne, h) (ap (λ r. x ∷ r) e)
  ]
]

-- With no dot the whole text is the integer part.
pub parse_unsigned_whole :
    (negative : Bool) (s : Bytes)
    → s ≢ []
    → Lacks b'.' s
    → parse_unsigned negative s ≡ parse_parts negative s [] false
unfolding parse_unsigned
parse_unsigned_whole negative [] ne h = absurd (ne refl)
parse_unsigned_whole negative (c ∷ s) ne h =
    ap (split_at negative (c ∷ s)) (find-none b'.' (c ∷ s) h)

split_at_dot :
    (negative : Bool) (w f : Bytes)
    → split_at negative (w ++ b'.' ∷ f) (some (length w)) ≡ parse_parts negative w f true
unfolding split_at
split_at_dot negative w f =
    ap₂ (λ a b. parse_parts negative a b true) (take_front b'.' w f) (drop_front b'.' w f)

parse_unsigned_found :
    (negative : Bool) (s : Bytes) (i : ℕ)
    → find b'.' s ≡ some i
    → parse_unsigned negative s ≡ split_at negative s (some i)
unfolding parse_unsigned
parse_unsigned_found negative [] i e = cc
parse_unsigned_found negative (c ∷ s) i e = ap (split_at negative (c ∷ s)) e

-- With one it is cut there.
pub parse_unsigned_parts :
    (negative : Bool) (w f : Bytes)
    → Lacks b'.' w
    → parse_unsigned negative (w ++ b'.' ∷ f) ≡ parse_parts negative w f true
parse_unsigned_parts negative w f h =
    parse_unsigned_found negative (w ++ b'.' ∷ f) (length w) (find-some b'.' w f h)
    ∙ split_at_dot negative w f

-- Digits are no dots.
pub digits-Lacks : (s : Bytes) → All IsDigit s → Lacks b'.' s
digits-Lacks = All-map IsDigit (λ c. c ≢ b'.') (λ c h. omega arith)

-- Behind the dot, digits pass the test for a second dot.
pub find-digits : (s : Bytes) → All IsDigit s → find b'.' s ≡ none
find-digits s h = find-none b'.' s (digits-Lacks s h)
