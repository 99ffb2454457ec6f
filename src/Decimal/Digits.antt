-- ===== src/Decimal/Digits.antt =====
-- src/core.cpp `parse_decimal`: the loops over the digits behind the dot.
use native.Mathlib.Nat.{mod-eq_of_lt, mul_assoc, mul_comm, one-le-pow, pow-le-pow_right, pow-suc}
use bengal_market.Base.{
  All, Bool-cases, Bytes, IsDigit, [], arith, false, inl, inr, length, ltb, refl, some, suc, zero,
  ℕ, ◌*◌, ◌+◌, ◌-◌, ◌<◌, ◌^◌, ◌||◌, ◌∙◌, ◌∷◌, ◌≡◌, ◌≤◌,
}
use bengal_market.Base.Words.{add_u64, mul_u64}
use bengal_market.Charconv.{decimal_value}
use bengal_market.Decimal.{pad_fraction, parse_fraction}
use bengal_market.Decimal.Numeral.{places}

pub le-decimal_value : (s : Bytes) (n : ℕ) → n ≤ decimal_value n s
le-decimal_value [] n = omega arith
le-decimal_value (c ∷ s) n = omega (arith, le-decimal_value s (n * 10 + (c - b'0')))

-- Up to seventeen digits and one more fit a `uint64_t`.
pub digit_step :
    (n j c : ℕ)
    → IsDigit c
    → j ≤ 17
    → n < 10 ^ j
    → (add_u64 (mul_u64 n 10) (c - b'0') ≡ n * 10 + (c - b'0')) × (n * 10 + (c - b'0') < 10 ^ suc j)
digit_step n j c d hj hn =
    let p : 10 ^ j ≤ 10 ^ 17 = pow-le-pow_right {n = 10} (omega arith) hj in
    (omega arith, omega (arith, pow-suc 10 j))

pub IsDigit-test : (c : ℕ) → ((ltb c b'0' || ltb b'9' c) ≡ false) → IsDigit c
IsDigit-test c h = ground arith

-- The loop reads digits only, and at most eighteen of them do not wrap around.
pub parse_fraction_sound :
    (s : Bytes) (n r j : ℕ)
    → j + length s ≤ 18
    → n < 10 ^ j
    → parse_fraction s n ≡ some r
    → All IsDigit s × (r ≡ decimal_value n s)
unfolding parse_fraction
parse_fraction_sound [] n r j hj hn h = ground arith
parse_fraction_sound (c ∷ s) n r j hj hn h = elim (Bool-cases (ltb c b'0' || ltb b'9' c)) [
  | inl e ↦ absurd (ground arith)
  | inr e ↦
      let d = IsDigit-test c e in
      let (exact, small) = digit_step n j c d (omega arith) hn in
      let (ds, eq) =
        parse_fraction_sound s (n * 10 + (c - b'0')) r (suc j) (omega arith) small
          (rw e at (rw exact at h)) in
      ((d, ds), eq)
]

pub parse_fraction_complete :
    (s : Bytes) (n : ℕ)
    → All IsDigit s
    → decimal_value n s < 2 ^ 64
    → parse_fraction s n ≡ some (decimal_value n s)
unfolding parse_fraction
parse_fraction_complete [] n h fits = refl
parse_fraction_complete (c ∷ s) n (hc, hs) fits = ground (
  arith,
  parse_fraction_complete s (n * 10 + (c - b'0')) hs fits,
  le-decimal_value s (n * 10 + (c - b'0')),
)

spread : (n d p q : ℕ) → (n * 10 + d) * p + q ≡ n * (p * 10) + (d * p + q)
spread n d p q = omega arith

below : (d p q : ℕ) → d ≤ 9 → q < p → d * p + q < p * 10
below d p q hd hq = grind arith

le-mul : (n p : ℕ) → 1 ≤ p → n * 10 ≤ n * 10 * p
le-mul n p h = grind arith

-- The padding loop multiplies by a power of ten, where that fits.
pub pad_fraction-pow : (k n : ℕ) → n * 10 ^ k < 2 ^ 64 → pad_fraction k n ≡ n * 10 ^ k
unfolding pad_fraction
pad_fraction-pow zero n h = omega arith
pad_fraction-pow (suc k) n h =
    let e : n * 10 * 10 ^ k ≡ n * 10 ^ suc k =
      rw (pow-suc 10 k) (omega (arith, mul_assoc n 10 (10 ^ k), mul_comm 10 (10 ^ k))) in
    let one : 1 ≤ 10 ^ k = one-le-pow k 10 (omega arith) in
    let fits : mul_u64 n 10 ≡ n * 10 = mod-eq_of_lt (omega (arith, le-mul n (10 ^ k) one)) in
    rw fits (pad_fraction-pow k (n * 10) (rw (← e) at h) ∙ e)

places-nil : (m : ℕ) → places m [] ≡ 0
places-nil zero = refl
places-nil (suc m) = refl

-- A run of digits is worth its places, `j` of them to the right.
pub decimal_value-places :
    (s : Bytes) (n j m : ℕ)
    → m ≡ length s + j
    → decimal_value n s * 10 ^ j ≡ n * 10 ^ m + places m s
decimal_value-places [] n j m e =
    let e' : m ≡ j = omega arith in rw (places-nil m, e') (omega arith)
decimal_value-places (c ∷ s) n j zero e = absurd (omega arith)
decimal_value-places (c ∷ s) n j (suc m) e =
    decimal_value-places s (n * 10 + (c - b'0')) j m (omega arith)
    ∙ rw (pow-suc 10 m) (spread n (c - b'0') (10 ^ m) (places m s))

pub places-lt : (k : ℕ) (s : Bytes) → All IsDigit s → places k s < 10 ^ k
places-lt zero s h = omega arith
places-lt (suc k) [] h = one-le-pow (suc k) 10 (omega arith)
places-lt (suc k) (c ∷ s) (hc, hs) =
    rw (pow-suc 10 k) (below (c - b'0') (10 ^ k) (places k s) (omega arith) (places-lt k s hs))
