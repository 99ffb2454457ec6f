-- ===== src/Charconv/Laws.antt =====
-- What `parse_uint` accepts.
use bengal_market.Base.{All, Bytes, IsDigit, [], arith, length, refl, some, ℕ, ◌∷◌, ◌≡◌, ◌≢◌, ◌≤◌}
use bengal_market.Base.Words.{max_u64}
use bengal_market.Charconv.{decimal_value, digit_run, parse_uint}

digit_run-digits : (s : Bytes) → All IsDigit s → digit_run s ≡ s
unfolding digit_run
digit_run-digits [] h = refl
digit_run-digits (c ∷ s) (hc, hs) = ground (arith, digit_run-digits s hs)

length-digit_run : (s : Bytes) → length (digit_run s) ≤ length s
unfolding digit_run
length-digit_run [] = omega arith
length-digit_run (c ∷ s) = ground (arith, length-digit_run s)

digit_run_whole : (s : Bytes) → length (digit_run s) ≡ length s → All IsDigit s × (digit_run s ≡ s)
unfolding digit_run
digit_run_whole [] h = (tt, refl)
digit_run_whole (c ∷ s) h = ground (arith, digit_run_whole s)

-- An accepted text is one or more digits, and the result is the number they spell.
pub parse_uint_sound :
    (s : Bytes) (n : ℕ)
    → parse_uint s ≡ some n
    → (s ≢ []) × All IsDigit s × (n ≡ decimal_value 0 s) × (n ≤ max_u64)
unfolding parse_uint
parse_uint_sound [] n h = ground arith
parse_uint_sound (c ∷ s) n h = ground (arith, digit_run_whole (c ∷ s))

-- Every such text whose number fits is accepted.
pub parse_uint_complete :
    (s : Bytes)
    → s ≢ []
    → All IsDigit s
    → decimal_value 0 s ≤ max_u64
    → parse_uint s ≡ some (decimal_value 0 s)
unfolding parse_uint
parse_uint_complete [] ne h fits = absurd (ne refl)
parse_uint_complete (c ∷ s) ne h fits = ground (arith, digit_run-digits (c ∷ s) h)
