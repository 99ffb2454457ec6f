-- ===== src/Fixture/Write.antt =====
-- src/core.cpp `generate_fixture`: what its file holds between two rounds of the loop.
use bengal_market.AtomicOutput.Session.{joined}
use bengal_market.Base.{
  All, All-append, Bool, Bytes, List, Option, [], ap, append-nil, append_assoc, codes, false,
  if◌then◌else◌, none, refl, some, sym, true, ℕ, ◌++◌, ◌<◌, ◌∙◌, ◌∷◌, ◌≡◌,
}
use bengal_market.Capture.{Reader, fresh_reader, read_line}
use bengal_market.Capture.Joined.{IsShort, read_lines}
use bengal_market.Effects.{Hoare, Outcome, Result, failure, raised, returned}
use bengal_market.Fixture.{
  FileStream, check_good, dumped, fixture_frame, fixture_metadata, fixture_payload,
}
use bengal_market.Json.{JsonLib}
use bengal_market.Json.Value.{JsonValue}

pub record IsFile (S : FileStream) : Type 1 where
  -- What the stream has taken since it was opened.
  pub content : S.World → Bytes
  pub opened :
      (path : Bytes) (w : S.World)
      → S.good (S.open_truncated path w) ≡ true
      → content (S.open_truncated path w) ≡ []
  -- A stream that has failed stays so.
  pub taken :
      (t : Bytes) (w : S.World)
      → S.good (S.put t w) ≡ true
      → (S.good w ≡ true) × (content (S.put t w) ≡ content w ++ t)

-- The values that a call gives to `dump`.
pub data IsRecord (product_id : Bytes) (event_count : ℕ) : JsonValue → Type 0 where
  first_record : IsRecord product_id event_count (fixture_metadata product_id)
  payload_of :
      (index : ℕ)
      → index < event_count
      → IsRecord product_id event_count (fixture_payload product_id index)
  frame_of :
      (index : ℕ) (payload : Bytes)
      → index < event_count
      → IsRecord product_id event_count (fixture_frame index payload)

joined-append :
    (lines : List Bytes) (line : Bytes)
    → joined (lines ++ line ∷ []) ≡ (joined lines ++ line) ++ 10 ∷ []
joined-append [] line = append-nil (line ++ 10 ∷ [])
joined-append (l ∷ lines) line =
    ap (λ t. (l ++ 10 ∷ []) ++ t) (joined-append lines line)
    ∙ sym (append_assoc (l ++ 10 ∷ []) (joined lines ++ line) (10 ∷ []))
    ∙ ap (λ t. t ++ 10 ∷ []) (sym (append_assoc (l ++ 10 ∷ []) (joined lines) line))

module _ (S : FileStream) (dump : JsonValue → Option Bytes) where
  pub dumped-Hoare :
      (v : JsonValue) (pre fault : S.World → Type 0)
      → ((s : S.World) → dump v ≡ none → fault s)
      → Hoare pre (dumped S dump v) (λ t s. pre s × (dump v ≡ some t)) fault
  dumped-Hoare v pre fault h = record { run = λ s p. go s p (dump v) refl }
    where
      go :
          (s : S.World)
          → pre s
          → (o : Option Bytes) → dump v ≡ o
          → Outcome
              (λ t s. pre s × (dump v ≡ some t))
              fault
              (
                elim o as (λ o. Result Bytes) [
                  | none ↦ raised (failure (codes "JSON"))
                  | some t ↦ returned t
                ],
                s,
              )
      go s p none e = h s e
      go s p (some t) e = (p, e)

  pub check_good-Hoare :
      (what : Bytes) (pre fault : S.World → Type 0)
      → ((s : S.World) → S.good s ≡ false → fault s)
      → Hoare pre (check_good S dump what) (λ u s. pre s × (S.good s ≡ true)) fault
  check_good-Hoare what pre fault h = record { run = λ s p. go s p (S.good s) refl }
    where
      go :
          (s : S.World)
          → pre s
          → (b : Bool) → S.good s ≡ b
          → Outcome
              (λ u s. pre s × (S.good s ≡ true))
              fault
              (if b then returned tt else raised (failure what), s)
      go s p true e = (p, e)
      go s p false e = h s e

module _ {S : FileStream} (F : IsFile S) (J : JsonLib) where
  -- The lines so far, that bring the reader to `r`.
  pub record IsAt (r : Reader) (w : S.World) : Type 0 where
    pub lines : List Bytes
    pub all_short : All IsShort lines
    pub read : read_lines J fresh_reader lines ≡ r
    pub written : S.good w ≡ true → F.content w ≡ joined lines

  read_lines-append :
      (r : Reader) (lines : List Bytes) (line : Bytes)
      → read_lines J r (lines ++ line ∷ []) ≡ read_line J (read_lines J r lines) line
  read_lines-append r [] line = refl
  read_lines-append r (l ∷ lines) line = read_lines-append (read_line J r l) lines line

  pub put_line-IsAt :
      (r r' : Reader) (line : Bytes) (w : S.World)
      → IsAt r w
      → IsShort line
      → read_line J r line ≡ r'
      → IsAt r' (S.put (10 ∷ []) (S.put line w))
  put_line-IsAt r r' line w a s e = record {
    lines = a.lines ++ line ∷ [];
    all_short = All-append IsShort a.lines (line ∷ []) a.all_short (s, tt);
    read = read_lines-append fresh_reader a.lines line ∙ ap (λ r. read_line J r line) a.read ∙ e;
    written = λ good.
        let (good', ended) = F.taken (10 ∷ []) (S.put line w) good in
        let (good'', taken) = F.taken line w good' in
        ended
        ∙ ap (λ t. t ++ 10 ∷ []) (taken ∙ ap (λ t. t ++ line) (a.written good''))
        ∙ sym (joined-append a.lines line);
  }
