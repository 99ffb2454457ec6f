-- ===== src/Timestamp/Fraction.antt =====
-- src/core.cpp `parse_timestamp_ns`: the fraction of a second and the closing Z.
use mathlib.Core.Path.{ap₂, subst}
use native.Mathlib.Decide.{ℕ_discrete}
use native.Mathlib.Numerals.{add-one}
use bengal_market.Base.{
  >>=-eq-some, All, Bool-cases, Bytes, IsDigit, Option, [], ap, arith, false, if-none-eq-some, inl,
  inr, length, none, of_some, refl, some, suc, true, ℕ, ◌*◌, ◌++◌, ◌+◌, ◌-◌, ◌<◌, ◌==◌, ◌^◌, ◌||◌,
  ◌∙◌, ◌∷◌, ◌≡◌, ◌≢◌, ◌≤◌,
}
use bengal_market.Charconv.{decimal_value}
use bengal_market.Decimal.{pad_fraction}
use bengal_market.Decimal.Digits.{decimal_value-places, digit_step, pad_fraction-pow, places-lt}
use bengal_market.Decimal.Numeral.{digits_of, places, spell_dot}
use bengal_market.Timestamp.{ends_in_z, fraction_loop, not_digit, read_fraction, some_digits}
use bengal_market.Timestamp.Stamp.{IsFraction}

fraction_loop_complete :
    (f : Bytes) (n k : ℕ)
    → All IsDigit f
    → k + length f ≤ 9
    → n < 10 ^ k
    → fraction_loop (f ++ b'Z' ∷ []) n k ≡ some (decimal_value n f, k + length f, b'Z' ∷ [])
unfolding fraction_loop
fraction_loop_complete [] n k h hk hn = ap (λ j. some (n, j, b'Z' ∷ [])) (omega arith)
fraction_loop_complete (c ∷ f) n k (hc, hf) hk hn =
    let (exact, small) = digit_step n k c hc (omega arith) hn in
    let ih = fraction_loop_complete f (n * 10 + (c - b'0')) (suc k) hf (omega arith) small in
    ground (arith, ih, exact)

-- What the loop has read when it stops.
record Scanned (s : Bytes) (n k : ℕ) (r : ℕ × ℕ × Bytes) : Type 0 where
  read : Bytes
  digits : All IsDigit read
  spelled : s ≡ read ++ r.2
  count : r.1 ≡ k + length read
  small : r.1 ≤ 9
  value : r.0 ≡ decimal_value n read

stops-Scanned : (s : Bytes) (n k : ℕ) → k ≤ 9 → Scanned s n k (n, k, s)
stops-Scanned s n k hk = record {
  read = [];
  digits = tt;
  spelled = refl;
  count = omega arith;
  small = hk;
  value = refl;
}

more-Scanned :
    (c : ℕ) (s : Bytes) (n k : ℕ) (r : ℕ × ℕ × Bytes)
    → IsDigit c
    → Scanned s (n * 10 + (c - b'0')) (suc k) r
    → Scanned (c ∷ s) n k r
more-Scanned c s n k r d w = record {
  read = c ∷ w.read;
  digits = (d, w.digits);
  spelled = ap (λ t. c ∷ t) w.spelled;
  count = omega (arith, w.count);
  small = w.small;
  value = w.value;
}

fraction_loop-Scanned :
    (s : Bytes) (n k : ℕ) (r : ℕ × ℕ × Bytes)
    → k ≤ 9
    → n < 10 ^ k
    → fraction_loop s n k ≡ some r
    → Scanned s n k r
unfolding fraction_loop
fraction_loop-Scanned [] n k r hk hn h =
    subst (Scanned [] n k) (of_some h) (stops-Scanned [] n k hk)
fraction_loop-Scanned (c ∷ s) n k r hk hn h = elim (Bool-cases (c == b'Z')) [
  | inl z ↦ subst (Scanned (c ∷ s) n k) (of_some (rw z at h)) (stops-Scanned (c ∷ s) n k hk)
  | inr z ↦
      let (go, h') = if-none-eq-some ((k == 9) || not_digit c) _ (rw z at h) in
      let d : IsDigit c = ground arith in
      let lt : k < 9 = ground arith in
      let (exact, small) = digit_step n k c d (omega arith) hn in
      more-Scanned c s n k r d (
        fraction_loop-Scanned s (n * 10 + (c - b'0')) (suc k) r lt small
          (rw (exact, add-one) at h'))
]

ends_in_z_lem : (s : Bytes) → ends_in_z s ≡ true → s ≡ b'Z' ∷ []
ends_in_z_lem [] h = cc
ends_in_z_lem (c ∷ []) h = ground arith
ends_in_z_lem (c ∷ d ∷ s) h = ground arith

pad_nine :
    (f : Bytes)
    → All IsDigit f
    → length f ≤ 9
    → pad_fraction (9 - length f) (decimal_value 0 f) ≡ places 9 f
pad_nine f h p =
    let e : decimal_value 0 f * 10 ^ (9 - length f) ≡ places 9 f =
      decimal_value-places f 0 (9 - length f) 9 (omega arith) ∙ omega arith in
    pad_fraction-pow (9 - length f) (decimal_value 0 f) (rw e (omega (arith, places-lt 9 f h))) ∙ e

kept_digits :
    (f : Bytes)
    → f ≢ []
    → some_digits (decimal_value 0 f, 0 + length f, b'Z' ∷ [])
      ≡ some (decimal_value 0 f, length f, b'Z' ∷ [])
kept_digits [] ne = absurd (ne refl)
kept_digits (c ∷ f) ne = ground arith

kept_scan : (p r : ℕ × ℕ × Bytes) → some_digits p ≡ some r → (p ≡ r) × (p.1 ≢ 0)
kept_scan (a, b, c) r h =
    let (t, e) = if-none-eq-some (b == 0) (some (a, b, c)) h in (of_some e, ground arith)

Scanned-IsFraction :
    (s : Bytes) (r : ℕ × ℕ × Bytes)
    → Scanned s 0 0 r
    → r.1 ≢ 0
    → ends_in_z r.2 ≡ true
    → (d : Option Bytes) × IsFraction d
      × (b'.' ∷ s ≡ spell_dot d ++ b'Z' ∷ [])
      × (pad_fraction (9 - r.1) r.0 ≡ places 9 (digits_of d))
Scanned-IsFraction s r w ne z =
    let e : r.1 ≡ length w.read = omega (arith, w.count) in
    (
      some w.read,
      ((λ n. ne (e ∙ ap length n)), w.digits, omega (arith, w.small)),
      ap (λ t. b'.' ∷ t) (w.spelled ∙ ap (λ t. w.read ++ t) (ends_in_z_lem r.2 z)),
      ap₂ (λ k n. pad_fraction (9 - k) n) e w.value
          ∙ pad_nine w.read w.digits (omega (arith, w.small)),
    )

-- A fraction and a Z are read whole, and padded to nanoseconds.
pub read_fraction_complete :
    (d : Option Bytes)
    → IsFraction d
    → (r : ℕ × ℕ × Bytes) × (read_fraction (spell_dot d ++ b'Z' ∷ []) ≡ some r)
      × (r.2 ≡ b'Z' ∷ [])
      × (pad_fraction (9 - r.1) r.0 ≡ places 9 (digits_of d))
unfolding read_fraction
read_fraction_complete none h = ((0, 0, b'Z' ∷ []), refl, refl, pad_nine [] tt (omega arith))
read_fraction_complete (some f) (ne, hf, hl) = (
  (decimal_value 0 f, length f, b'Z' ∷ []),
  rw (fraction_loop_complete f 0 0 hf (omega arith) (omega arith)) (kept_digits f ne),
  refl,
  pad_nine f hf hl,
)

-- What is read before a Z at the end is a fraction, padded to nanoseconds.
pub read_fraction_sound :
    (s : Bytes) (r : ℕ × ℕ × Bytes)
    → read_fraction s ≡ some r
    → ends_in_z r.2 ≡ true
    → (d : Option Bytes) × IsFraction d
      × (s ≡ spell_dot d ++ b'Z' ∷ [])
      × (pad_fraction (9 - r.1) r.0 ≡ places 9 (digits_of d))
unfolding read_fraction
read_fraction_sound [] r h z = absurd (ground arith)
read_fraction_sound (c ∷ s) r h z = elim (ℕ_discrete c b'.') [
  | yes e ↦
      let (p, hp, h') = >>=-eq-some (fraction_loop s 0 0) some_digits (rw e at h) in
      let (same, ne) = kept_scan p r h' in
      let w = fraction_loop-Scanned s 0 0 p (omega arith) (omega arith) hp in
      rw e (Scanned-IsFraction s r (subst (Scanned s 0 0) same w) (rw same at ne) z)
  | no ne ↦
      let t : (c == b'.') ≡ false = ground arith in
      let same = of_some (rw t at h) in
      let z' = rw (← same) at z in
      (none, tt, ends_in_z_lem (c ∷ s) z', rw (← same) (pad_nine [] tt (omega arith)))
]
