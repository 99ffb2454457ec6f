-- ===== src/Charconv/Print.antt =====
-- The decimal print of an unsigned integer.
use mathlib.Core.List.{cons-ne-nil}
use native.Mathlib.Nat.{pow-suc}
use bengal_market.Base.{
  All, Bool-cases, Bytes, IsDigit, [], ap, arith, if◌then◌else◌, inl, inr, length, ltb, suc, zero,
  ℕ, ◌%◌, ◌+◌, ◌/◌, ◌<◌, ◌^◌, ◌∙◌, ◌∷◌, ◌≡◌, ◌≢◌, ◌≤◌,
}
use bengal_market.Charconv.{decimal_value}

-- The digits of `n` in front of `out`: the last digit always, the others while `n` has more. With
-- the fuel `n` the loop ends by its test, since each round divides by ten.
emit : ℕ → ℕ → Bytes → Bytes
emit zero n out = (b'0' + n) ∷ out
emit (suc fuel) n out =
    let more = emit fuel (n / 10) ((b'0' + n % 10) ∷ out) in
    if ltb 9 n then more else (b'0' + n) ∷ out

unfoldable pub print_uint : ℕ → Bytes
unfolding emit
print_uint n = emit n n []

decimal_value-emit :
    (k n : ℕ) (out : Bytes) → n ≤ k → decimal_value 0 (emit k n out) ≡ decimal_value n out
unfolding emit
decimal_value-emit zero n out h = ap (λ m. decimal_value m out) (omega arith)
decimal_value-emit (suc k) n out h = elim (Bool-cases (ltb 9 n)) [
  | inl e ↦ rw e (
      decimal_value-emit k (n / 10) ((b'0' + n % 10) ∷ out) (ground arith)
      ∙ ap (λ m. decimal_value m out) (omega arith))
  | inr e ↦ rw e (ap (λ m. decimal_value m out) (omega arith))
]

emit-IsDigit : (k n : ℕ) (out : Bytes) → n ≤ k → All IsDigit out → All IsDigit (emit k n out)
unfolding emit
emit-IsDigit zero n out h ho = (omega arith, ho)
emit-IsDigit (suc k) n out h ho = ground (arith, emit-IsDigit k (n / 10) ((b'0' + n % 10) ∷ out))

length-emit :
    (k n j : ℕ) (out : Bytes)
    → n < 10 ^ suc j
    → n ≤ k
    → (1 ≤ length (emit k n out)) × (length (emit k n out) ≤ suc j + length out)
unfolding emit
length-emit zero n j out h hk = omega arith
length-emit (suc k) n zero out h hk = ground arith
length-emit (suc k) n (suc j) out h hk =
    ground
      (arith, length-emit k (n / 10) j ((b'0' + n % 10) ∷ out) (omega (arith, pow-suc 10 (suc j))))

-- The print of a number is digits that spell it.
pub print_uint-IsDigit : (n : ℕ) → All IsDigit (print_uint n)
unfolding print_uint
print_uint-IsDigit n = emit-IsDigit n n [] (omega arith) tt

pub decimal_value-print_uint : (n : ℕ) → decimal_value 0 (print_uint n) ≡ n
unfolding print_uint
decimal_value-print_uint n = decimal_value-emit n n [] (omega arith)

-- It has at most as many digits as the bound has zeros.
pub length-print_uint :
    (j n : ℕ) → n < 10 ^ suc j → (1 ≤ length (print_uint n)) × (length (print_uint n) ≤ suc j)
unfolding print_uint
length-print_uint j n h = let l = length-emit n n j [] h (omega arith) in (l.0, omega arith)

emit-ne-nil : (k n : ℕ) (out : Bytes) → emit k n out ≢ []
unfolding emit
emit-ne-nil zero n out = cons-ne-nil _ _
emit-ne-nil (suc k) n out = ground (arith, emit-ne-nil k (n / 10) ((b'0' + n % 10) ∷ out))

pub print_uint-ne-nil : (n : ℕ) → print_uint n ≢ []
unfolding print_uint
print_uint-ne-nil n = emit-ne-nil n n []
