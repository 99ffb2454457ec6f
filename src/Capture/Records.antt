-- ===== src/Capture/Records.antt =====
-- src/core.cpp `read_capture`: the lines of a stream that hold something, counted apart from the loop.
use native.Mathlib.Decide.{ℕ_discrete}
use bengal_market.Base.{
  Bool, Bytes, Lacks, [], ap, arith, false, if◌then◌else◌, inl, inr, length, length-append, refl,
  true, ℕ, ◌++◌, ◌+◌, ◌==◌, ◌∙◌, ◌∷◌, ◌≡◌,
}
use bengal_market.Capture.{end_of_stream, got, maximum_record_size, read_bounded_line}
use bengal_market.Capture.Lines.{read_bounded_line-IsLine}

-- Whether the line that the stream stands in has a byte already.
abbrev lines_from : Bool → Bytes → ℕ
lines_from begun [] = if begun then 1 else 0
lines_from begun (c ∷ stream) =
    if c == 10 then (if begun then 1 else 0) + lines_from false stream else lines_from true stream

-- The lines of a stream that are not empty.
abbrev pub records : Bytes → ℕ
records stream = lines_from false stream

-- A line counts unless it is empty.
abbrev pub counts : Bytes → ℕ
counts [] = 0
counts (c ∷ line) = 1

begun_line :
    (line rest : Bytes) → Lacks 10 line → lines_from true (line ++ 10 ∷ rest) ≡ 1 + records rest
begun_line [] rest l = refl
begun_line (c ∷ line) rest l = ground (arith, begun_line line rest l.1, l.0)

begun_end : (line : Bytes) → Lacks 10 line → lines_from true line ≡ 1
begun_end [] l = refl
begun_end (c ∷ line) l = ground (arith, begun_end line l.1, l.0)

whole_line :
    (line rest : Bytes) → Lacks 10 line → records (line ++ 10 ∷ rest) ≡ counts line + records rest
whole_line [] rest l = refl
whole_line (c ∷ line) rest l = ground (arith, begun_line line rest l.1, l.0)

last_line : (line : Bytes) → Lacks 10 line → records line ≡ counts line
last_line [] l = refl
last_line (c ∷ line) l = ground (arith, begun_end line l.1, l.0)

pub read_bounded_line-records :
    (stream line rest : Bytes)
    → read_bounded_line [] stream ≡ got line rest
    → records stream ≡ counts line + records rest
read_bounded_line-records stream line rest e =
    let k = read_bounded_line-IsLine stream line rest e in
    elim k.split [
      | inl q ↦ ap records q ∙ whole_line line rest k.unbroken
      | inr (q, n) ↦ ap records q ∙ last_line line k.unbroken ∙ omega (arith, ap records n)
    ]

ended :
    (line stream : Bytes)
    → read_bounded_line line stream ≡ end_of_stream
    → (line ≡ []) × (stream ≡ [])
unfolding read_bounded_line
ended [] [] e = (refl, refl)
ended (y ∷ ys) [] e = cc e
ended line (c ∷ stream) e = elim (ℕ_discrete c 10) [
  | yes break ↦ let t : (c == 10) ≡ true = ground arith in cc (rw t at e)
  | no ne ↦ elim (ℕ_discrete (length line) maximum_record_size) [
    | yes full ↦
        let t : (c == 10) ≡ false = ground arith in
        let f : (length line == maximum_record_size) ≡ true = ground arith in cc (rw (t, f) at e)
    | no fits ↦
        let t : (c == 10) ≡ false = ground arith in
        let f : (length line == maximum_record_size) ≡ false = ground arith in
        let k = ended (line ++ c ∷ []) stream (rw (t, f) at e) in
        absurd (omega (arith, length-append line (c ∷ []), ap length k.0))
  ]
]

pub read_bounded_line_ended :
    (stream : Bytes) → read_bounded_line [] stream ≡ end_of_stream → records stream ≡ 0
read_bounded_line_ended stream e = ap records (ended [] stream e).1
