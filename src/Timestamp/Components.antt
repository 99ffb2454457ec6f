-- ===== src/Timestamp/Components.antt =====
-- src/core.cpp `parse_component` at the widths that the timestamps use.
use bengal_market.Base.{
  >>=-eq-some, Bytes, Option, ap, arith, get_or, if◌then◌else◌, length, none, of_some, some, ℕ, ◌%◌,
  ◌*◌, ◌+◌, ◌-◌, ◌/◌, ◌<◌, ◌>>=◌, ◌≡◌, ◌≤◌,
}
use bengal_market.Timestamp.{not_digit, parse_component}

-- Two digit characters and the number that they spell.
abbrev pub pair : ℕ → ℕ → Option ℕ
pair a b =
    if not_digit a then none else if not_digit b then none else some ((a - b'0') * 10 + (b - b'0'))

pub component_two :
    (value : Bytes) (offset : ℕ)
    → offset + 2 ≤ length value
    → parse_component value offset 2 ≡ pair (get_or value offset 0) (get_or value (offset + 1) 0)
unfolding parse_component
component_two value offset h = ground arith

pub pair_complete : (n : ℕ) → n < 100 → pair (b'0' + n / 10) (b'0' + n % 10) ≡ some n
pair_complete n h = ground arith

pub pair_sound :
    (a b n : ℕ) → pair a b ≡ some n → (a ≡ b'0' + n / 10) × (b ≡ b'0' + n % 10) × (n < 100)
pair_sound a b n h = ground arith

abbrev pub quad : ℕ → ℕ → ℕ → ℕ → Option ℕ
quad a b c d = do hi ← pair a b; lo ← pair c d; some (hi * 100 + lo)

pub component_four :
    (value : Bytes) (offset : ℕ)
    → offset + 4 ≤ length value
    → parse_component value offset 4
      ≡ quad
          (get_or value offset 0)
          (get_or value (offset + 1) 0)
          (get_or value (offset + 1 + 1) 0)
          (get_or value (offset + 1 + 1 + 1) 0)
unfolding parse_component
component_four value offset h = ground arith

pub quad_complete :
    (n : ℕ)
    → n < 10000
    → quad (b'0' + n / 100 / 10) (b'0' + n / 100 % 10) (b'0' + n % 100 / 10) (b'0' + n % 100 % 10)
      ≡ some n
quad_complete n h =
    rw (pair_complete (n / 100) (omega arith), pair_complete (n % 100) (omega arith))
      (ap some (omega arith))

pub quad_sound :
    (a b c d n : ℕ)
    → quad a b c d ≡ some n
    → (a ≡ b'0' + n / 100 / 10)
      × (b ≡ b'0' + n / 100 % 10)
      × (c ≡ b'0' + n % 100 / 10)
      × (d ≡ b'0' + n % 100 % 10)
      × (n < 10000)
quad_sound a b c d n h =
    let (hi, e, h') = >>=-eq-some (pair a b) _ h in
    let (lo, e', h2) = >>=-eq-some (pair c d) _ h' in
    let p = pair_sound a b hi e in
    let q = pair_sound c d lo e' in
    let s = of_some h2 in (omega arith, omega arith, omega arith, omega arith, omega arith)
