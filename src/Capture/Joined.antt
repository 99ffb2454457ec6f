-- ===== src/Capture/Joined.antt =====
-- src/core.cpp `read_capture`: the reader on a stream that was written line by line.
use bengal_market.AtomicOutput.Session.{joined}
use bengal_market.Base.{
  All, Bytes, Lacks, List, [], ap, append-nil, append_assoc, arith, false, if◌then◌else◌, length,
  length-append, suc, sym, true, zero, ℕ, ◌++◌, ◌+◌, ◌<◌, ◌==◌, ◌∙◌, ◌∷◌, ◌≡◌, ◌≤◌,
}
use bengal_market.Capture.{
  CaptureRead, Reader, capture_loop, captured, end_of_stream, fresh_reader, got,
  maximum_record_size, no_metadata, read_bounded_line, read_capture, read_line, record_too_long,
  too_long,
}
use bengal_market.Json.{JsonLib}

-- A line that the reader takes whole.
pub record IsShort (line : Bytes) : Type 0 where
  pub unbroken : Lacks 10 line
  pub fits : length line ≤ maximum_record_size

got_line :
    (before line rest : Bytes)
    → Lacks 10 line
    → length before + length line ≤ maximum_record_size
    → read_bounded_line before (line ++ 10 ∷ rest) ≡ got (before ++ line) rest
unfolding read_bounded_line
got_line before [] rest u h = ap (λ b. got b rest) (sym (append-nil before))
got_line before (c ∷ line) rest u h =
    let a : (c == 10) ≡ false = ground (arith, u.0) in
    let f : (length before == maximum_record_size) ≡ false = ground (arith, h) in
    let longer : length (before ++ c ∷ []) + length line ≤ maximum_record_size =
      rw (length-append before (c ∷ [])) (omega (arith, h)) in
    rw (a, f)
      (got_line (before ++ c ∷ []) line rest u.1 longer
        ∙ ap (λ b. got b rest) (append_assoc before (c ∷ []) line))

length-joined : (lines : List Bytes) → length lines ≤ length (joined lines)
length-joined [] = omega arith
length-joined (line ∷ lines) =
    rw (length-append (line ++ 10 ∷ []) (joined lines), length-append line (10 ∷ []))
      (omega (arith, length-joined lines))

module _ (J : JsonLib) where
  abbrev pub read_lines : Reader → List Bytes → Reader
  read_lines r [] = r
  read_lines r (line ∷ lines) = read_lines (read_line J r line) lines

  capture_loop-joined :
      (lines : List Bytes) (fuel : ℕ) (r : Reader)
      → All IsShort lines
      → length lines < fuel
      → (read_lines r lines).metadata_seen ≡ true
      → capture_loop J fuel r (joined lines) ≡ captured (read_lines r lines)
  unfolding capture_loop read_bounded_line
  capture_loop-joined lines zero r a h m = absurd (omega (arith, h))
  capture_loop-joined [] (suc fuel) r a h m = ap (λ b. if b then captured r else no_metadata) m
  capture_loop-joined (line ∷ lines) (suc fuel) r a h m =
      let e : read_bounded_line [] (joined (line ∷ lines)) ≡ got line (joined lines) =
        ap (read_bounded_line []) (append_assoc line (10 ∷ []) (joined lines))
        ∙ got_line [] line (joined lines) a.0.unbroken (omega (arith, a.0.fits)) in
      ap
        (λ b. elim b as (λ b. CaptureRead) [
          | got line rest ↦ capture_loop J fuel (read_line J r line) rest
          | end_of_stream ↦ if r.metadata_seen then captured r else no_metadata
          | too_long ↦ record_too_long
        ])
        e
      ∙ capture_loop-joined lines fuel (read_line J r line) a.1 (omega (arith, h)) m

  -- Behind lines that are short enough, with metadata among them, the reader returns as it is after
  -- the last line.
  pub read_capture-joined :
      (lines : List Bytes)
      → All IsShort lines
      → (read_lines fresh_reader lines).metadata_seen ≡ true
      → read_capture J (joined lines) ≡ captured (read_lines fresh_reader lines)
  unfolding read_capture
  read_capture-joined lines a m =
      capture_loop-joined lines (suc (length (joined lines))) fresh_reader a
        (omega (arith, length-joined lines)) m
