-- ===== src/Decimal/Trim.antt =====
-- src/core.cpp `format_decimal`: the padding to eight digits and the loop that drops zeros.
use mathlib.Core.List.{reverse, reverse-append, reverse-cons, reverse-reverse}
use native.Mathlib.Decide.{ℕ_discrete}
use bengal_market.Base.{
  All, All-append, Bool-cases, Bytes, IsDigit, [], ap, append_assoc, arith, false, inl, inr, length,
  length-append, length-replicate, refl, replicate, suc, sym, zero, ℕ, ◌*◌, ◌++◌, ◌+◌, ◌-◌, ◌<◌,
  ◌==◌, ◌^◌, ◌∙◌, ◌∷◌, ◌≡◌, ◌≢◌, ◌≤◌,
}
use bengal_market.Charconv.{decimal_value}
use bengal_market.Charconv.Print.{
  decimal_value-print_uint, length-print_uint, print_uint, print_uint-IsDigit,
}
use bengal_market.Decimal.{decimal_scale, pop_zeros, set_width, strip_zeros}
use bengal_market.Decimal.Digits.{decimal_value-places}
use bengal_market.Decimal.Numeral.{places}

pop_zeros-append : (a b : Bytes) → pop_zeros (a ++ b'.' ∷ b) ≡ pop_zeros a ++ b'.' ∷ b
unfolding pop_zeros
pop_zeros-append [] b = refl
pop_zeros-append (c ∷ a) b = ground (arith, pop_zeros-append a b)

reverse-dot : (w f : Bytes) → reverse (w ++ b'.' ∷ f) ≡ reverse f ++ b'.' ∷ reverse w
reverse-dot w f =
    reverse-append w (b'.' ∷ f)
    ∙ ap (λ r. r ++ reverse w) (reverse-cons b'.' f)
    ∙ append_assoc (reverse f) (b'.' ∷ []) (reverse w)

-- The loop stops at the dot: it drops zeros of the fraction only.
pub strip_zeros-append : (w f : Bytes) → strip_zeros (w ++ b'.' ∷ f) ≡ w ++ b'.' ∷ strip_zeros f
unfolding strip_zeros
strip_zeros-append w f =
    ap (λ r. reverse (pop_zeros r)) (reverse-dot w f)
    ∙ ap reverse (pop_zeros-append (reverse f) (reverse w))
    ∙ reverse-dot (pop_zeros (reverse f)) (reverse w)
    ∙ ap (λ r. r ++ b'.' ∷ strip_zeros f) (reverse-reverse w)

places-append_zero : (k : ℕ) (s : Bytes) → places k (s ++ b'0' ∷ []) ≡ places k s
places-append_zero zero s = refl
places-append_zero (suc zero) [] = refl
places-append_zero (suc (suc k)) [] = omega arith
places-append_zero (suc k) (c ∷ s) = ap (λ n. (c - b'0') * 10 ^ k + n) (places-append_zero k s)

places-pop_zeros : (k : ℕ) (r : Bytes) → places k (reverse (pop_zeros r)) ≡ places k (reverse r)
unfolding pop_zeros
places-pop_zeros k [] = refl
places-pop_zeros k (c ∷ r) = elim (ℕ_discrete c b'0') [
  | yes e ↦ rw e (
      places-pop_zeros k r
      ∙ sym (places-append_zero k (reverse r))
      ∙ ap (places k) (sym (reverse-cons b'0' r)))
  | no ne ↦ let t : (c == b'0') ≡ false = ground arith in rw t
]

-- What the loop drops is worth nothing.
pub places-strip_zeros : (k : ℕ) (s : Bytes) → places k (strip_zeros s) ≡ places k s
unfolding strip_zeros
places-strip_zeros k s = places-pop_zeros k (reverse s) ∙ ap (places k) (reverse-reverse s)

All-reverse {κ} : (P : ℕ → Type κ) (s : Bytes) → All P s → All P (reverse s)
All-reverse P [] h = tt
All-reverse P (c ∷ s) (hc, hs) =
    rw reverse-cons (All-append P (reverse s) (c ∷ []) (All-reverse P s hs) (hc, tt))

pop_zeros-All {κ} : (P : ℕ → Type κ) (s : Bytes) → All P s → All P (pop_zeros s)
unfolding pop_zeros
pop_zeros-All P [] h = tt
pop_zeros-All P (c ∷ s) h = elim (Bool-cases (c == b'0')) [
  | inl e ↦ rw e (pop_zeros-All P s h.1)
  | inr e ↦ rw e h
]

length-reverse : (s : Bytes) → length (reverse s) ≡ length s
length-reverse [] = refl
length-reverse (c ∷ s) =
    ap length (reverse-cons c s)
    ∙ omega (arith, length-append (reverse s) (c ∷ []), length-reverse s)

length-pop_zeros : (s : Bytes) → length (pop_zeros s) ≤ length s
unfolding pop_zeros
length-pop_zeros [] = omega arith
length-pop_zeros (c ∷ s) = ground (arith, length-pop_zeros s)

pop_zeros-head : (r g : Bytes) → pop_zeros r ≢ b'0' ∷ g
unfolding pop_zeros
pop_zeros-head [] g e = cc
pop_zeros-head (c ∷ r) g e = ground (arith, pop_zeros-head r g)

pub strip_zeros-IsDigit : (s : Bytes) → All IsDigit s → All IsDigit (strip_zeros s)
unfolding strip_zeros
strip_zeros-IsDigit s h =
    All-reverse IsDigit (pop_zeros (reverse s))
      (pop_zeros-All IsDigit (reverse s) (All-reverse IsDigit s h))

pub length-strip_zeros : (s : Bytes) → length (strip_zeros s) ≤ length s
unfolding strip_zeros
length-strip_zeros s =
    omega (
      arith,
      length-reverse (pop_zeros (reverse s)),
      length-pop_zeros (reverse s),
      length-reverse s,
    )

-- What is left does not end in a zero.
pub strip_zeros-trimmed : (s g : Bytes) → strip_zeros s ≢ g ++ b'0' ∷ []
unfolding strip_zeros
strip_zeros-trimmed s g e =
    pop_zeros-head (reverse s) (reverse g)
      (sym (reverse-reverse (pop_zeros (reverse s))) ∙ ap reverse e ∙ reverse-append g (b'0' ∷ []))

decimal_value-replicate :
    (k : ℕ) (s : Bytes) → decimal_value 0 (replicate k b'0' ++ s) ≡ decimal_value 0 s
decimal_value-replicate zero s = refl
decimal_value-replicate (suc k) s = decimal_value-replicate k s

replicate-IsDigit : (k : ℕ) → All IsDigit (replicate k b'0')
replicate-IsDigit zero = tt
replicate-IsDigit (suc k) = (omega arith, replicate-IsDigit k)

-- The padded fraction is eight digits that are worth it.
pub set_width_fraction :
    (n : ℕ)
    → n < decimal_scale
    → let f = set_width 8 (print_uint n) in All IsDigit f × (length f ≡ 8) × (places 8 f ≡ n)
set_width_fraction n h =
    let s = print_uint n in
    let k = 8 - length s in
    let size : length (set_width 8 s) ≡ 8 = omega (
      arith,
      length-append (replicate k b'0') s,
      length-replicate {A = ℕ} k b'0',
      length-print_uint 7 n h,
    ) in
    let spelled : decimal_value 0 (set_width 8 s) ≡ n =
      decimal_value-replicate k s ∙ decimal_value-print_uint n in
    (
      All-append IsDigit (replicate k b'0') s (replicate-IsDigit k) (print_uint-IsDigit n),
      size,
      omega (arith, spelled, decimal_value-places (set_width 8 s) 0 0 8 (omega arith)),
    )
