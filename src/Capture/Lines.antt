-- ===== src/Capture/Lines.antt =====
-- src/core.cpp `read_bounded_line` and the loop over the lines.
use mathlib.Core.Path.{subst}
use native.Mathlib.Decide.{ℕ_discrete}
use bengal_market.Base.{
  All-append, Bytes, Lacks, [], ap, append-nil, append_assoc, arith, false, inl, inr, length,
  length-append, refl, suc, sym, true, zero, ℕ, ◌++◌, ◌+◌, ◌<◌, ◌==◌, ◌∙◌, ◌∷◌, ◌≡◌, ◌≢◌, ◌≤◌, ◌⊎◌,
}
use bengal_market.Capture.{
  LineRead, Reader, capture_loop, end_of_stream, fresh_reader, got, maximum_record_size, no_fuel,
  read_bounded_line, read_capture, read_line, too_long,
}
use bengal_market.Json.{JsonLib}

-- What was read is the front of the stream up to its first line break, which is dropped, or all of it
-- where there is none; it is within the limit.
pub record IsLine (before stream line rest : Bytes) : Type 0 where
  pub split : (before ++ stream ≡ line ++ 10 ∷ rest) ⊎ ((before ++ stream ≡ line) × (rest ≡ []))
  pub unbroken : Lacks 10 line
  pub within : length line ≤ maximum_record_size
  pub shorter : length rest < length stream + length before

read_bounded_line_from :
    (line stream got_line rest : Bytes)
    → length line ≤ maximum_record_size
    → Lacks 10 line
    → read_bounded_line line stream ≡ got got_line rest
    → IsLine line stream got_line rest
unfolding read_bounded_line
read_bounded_line_from [] [] l rest h u e = cc e
read_bounded_line_from (y ∷ ys) [] l rest h u e =
    let same : (y ∷ ys) ≡ l = cc e in
    let end : [] ≡ rest = cc e in
    record {
      split = inr (append-nil (y ∷ ys) ∙ same, sym end);
      unbroken = subst (Lacks 10) same u;
      within = omega (arith, ap length same, h);
      shorter = omega (arith, ap length end);
    }
read_bounded_line_from line (c ∷ stream) l rest h u e = elim (ℕ_discrete c 10) [
  | yes break ↦
      let t : (c == 10) ≡ true = ground arith in
      let same : line ≡ l = cc (rw t at e) in
      let end : stream ≡ rest = cc (rw t at e) in
      record {
        split = inl (rw (same, break, end) refl);
        unbroken = subst (Lacks 10) same u;
        within = omega (arith, ap length same, h);
        shorter = omega (arith, ap length end);
      }
  | no ne ↦ elim (ℕ_discrete (length line) maximum_record_size) [
    | yes full ↦
        let t : (c == 10) ≡ false = ground arith in
        let f : (length line == maximum_record_size) ≡ true = ground arith in cc (rw (t, f) at e)
    | no fits ↦
        let t : (c == 10) ≡ false = ground arith in
        let f : (length line == maximum_record_size) ≡ false = ground arith in
        let longer = length-append line (c ∷ []) in
        let k =
          read_bounded_line_from (line ++ c ∷ []) stream l rest (omega (arith, longer, h, fits))
            (All-append (λ c. c ≢ 10) line (c ∷ []) u (ne, tt)) (rw (t, f) at e) in
        let front = append_assoc line (c ∷ []) stream in
        record {
          split = elim k.split [
            | inl q ↦ inl (sym front ∙ q)
            | inr (q, n) ↦ inr (sym front ∙ q, n)
          ];
          unbroken = k.unbroken;
          within = k.within;
          shorter = omega (arith, longer, k.shorter);
        }
  ]
]

-- A line that `read_bounded_line` returns is the front of the stream up to its first line break, or
-- the whole stream where it has none: the line has no line break in it. It is at most 8 MiB long,
-- and the rest is shorter than the stream.
pub read_bounded_line-IsLine :
    (stream line rest : Bytes)
    → read_bounded_line [] stream ≡ got line rest
    → IsLine [] stream line rest
read_bounded_line-IsLine stream line rest e =
    read_bounded_line_from [] stream line rest (omega arith) tt e

module _ (J : JsonLib) where
  loop_ends :
      (fuel : ℕ) (r : Reader) (stream : Bytes)
      → length stream < fuel
      → capture_loop J fuel r stream ≢ no_fuel
  unfolding capture_loop
  loop_ends zero r stream h e = absurd (omega arith)
  loop_ends (suc fuel) r stream h e =
      go (λ r' rest h'. loop_ends fuel r' rest h') (read_bounded_line [] stream) refl
    where
      go :
          ((r' : Reader) (rest : Bytes)
            → length rest < fuel
            → capture_loop J fuel r' rest ≢ no_fuel)
          → (b : LineRead) → read_bounded_line [] stream ≡ b
          → ⊥
      go again (got line rest) q =
          let k = read_bounded_line-IsLine stream line rest q in
          again (read_line J r line) rest (omega (arith, k.shorter, h)) (rw (capture_loop, q) at e)
      go again end_of_stream q = ground (arith, rw (capture_loop, q) at e)
      go again too_long q = cc (rw (capture_loop, q) at e)

  -- `read_capture` comes to an end on every stream, with any JSON library.
  pub read_capture_ends : (stream : Bytes) → read_capture J stream ≢ no_fuel
  unfolding read_capture
  read_capture_ends stream = loop_ends (suc (length stream)) fresh_reader stream (omega arith)
