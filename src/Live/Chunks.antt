-- ===== src/Live/Chunks.antt =====
-- src/live.cpp: one more piece in the file of a capture.
use mathlib.Core.Path.{subst}
use bengal_market.AtomicOutput.{Output, write_line}
use bengal_market.AtomicOutput.Meters.{write_line-Since}
use bengal_market.AtomicOutput.Write.{IsWriting}
use bengal_market.Base.{
  Bytes, List, [], ap, append-nil, append_assoc, arith, refl, suc, sym, ℕ, ◌%◌, ◌++◌, ◌^◌, ◌∙◌, ◌∷◌,
  ◌≡◌, ◌≤◌,
}
use bengal_market.Base.Words.{add_u64}
use bengal_market.Live.{CaptureState}
use bengal_market.Live.Keeps.{
  AreMade, Chunk, IsCapturing, IsMade, Setting, chunk_bytes, chunks_bytes, torn_off, whole,
  whole_count,
}

chunks_bytes-append :
    (cs : List Chunk) (e : Chunk) → chunks_bytes (cs ++ e ∷ []) ≡ chunks_bytes cs ++ chunk_bytes e
chunks_bytes-append [] e = append-nil (chunk_bytes e)
chunks_bytes-append (c ∷ cs) e =
    ap (λ r. chunk_bytes c ++ r) (chunks_bytes-append cs e)
    ∙ sym (append_assoc (chunk_bytes c) (chunks_bytes cs) (chunk_bytes e))

pub whole_count-whole :
    (cs : List Chunk) (line : Bytes) → whole_count (cs ++ whole line ∷ []) ≡ suc (whole_count cs)
whole_count-whole [] line = refl
whole_count-whole (whole text ∷ cs) line = ap suc (whole_count-whole cs line)
whole_count-whole (torn_off text ∷ cs) line = whole_count-whole cs line

pub whole_count-torn_off :
    (cs : List Chunk) (text : Bytes) → whole_count (cs ++ torn_off text ∷ []) ≡ whole_count cs
whole_count-torn_off [] text = refl
whole_count-torn_off (whole line ∷ cs) text = ap suc (whole_count-torn_off cs text)
whole_count-torn_off (torn_off line ∷ cs) text = whole_count-torn_off cs text

module _ (G : Setting) where
  open G use {F, V, N, W, options, head, k}

  -- How the meters may go.
  abbrev pub Grows : F.World → F.World → Type 0
  Grows w w' = (W.clock w ≤ W.clock w') × (W.budget w' ≤ W.budget w)

  pub write_line-Grows :
      (fuel : ℕ) (line : Bytes) (s : Output F) → Grows s.world (write_line F fuel line s).1.world
  write_line-Grows fuel line s =
      write_line-Since F Grows (λ w. (omega arith, omega arith))
        (λ u v w h g. (omega (arith, h.0, g.0), omega (arith, h.1, g.1)))
        (λ fd text w. (W.write_clock fd text w, W.write_budget fd text w)) fuel line s

  AreMade-append :
      (cs : List Chunk) (e : Chunk) → AreMade N cs → IsMade N e → AreMade N (cs ++ e ∷ [])
  AreMade-append [] e a m = (m, tt)
  AreMade-append (c ∷ cs) e a m = (a.0, AreMade-append cs e a.1 m)

  -- The state with one more piece in its file.
  pub grown-IsCapturing :
      (b c n : ℕ) (s : CaptureState F) (v : IsCapturing G b c s) (o : Output F) (e : Chunk)
      → IsWriting V options.output k ((head ++ chunks_bytes v.chunks) ++ chunk_bytes e) o
      → Grows s.output.world o.world
      → IsMade N e
      → n ≡ whole_count (v.chunks ++ e ∷ []) % 2 ^ 64
      → (s' : CaptureState F) → s'.output ≡ o
      → s'.frames ≡ n
      → IsCapturing G b c s'
  grown-IsCapturing b c n s v o e h g m counts s' eo en = record {
    chunks = v.chunks ++ e ∷ [];
    writing =
        subst (λ o. IsWriting V options.output k (head ++ chunks_bytes (v.chunks ++ e ∷ [])) o)
          (sym eo)
          (subst (λ t. IsWriting V options.output k t o)
            (append_assoc head (chunks_bytes v.chunks) (chunk_bytes e)
              ∙ ap (λ r. head ++ r) (sym (chunks_bytes-append v.chunks e)))
            h);
    made_lines = AreMade-append v.chunks e v.made_lines m;
    frames_counted = en ∙ counts;
    budgeted = rw eo (omega (arith, g.1, v.budgeted));
    timed = rw eo (omega (arith, g.0, v.timed));
  }

  -- `++result.frames; consecutive_failures = 0;`
  abbrev pub count_frame : CaptureState F → CaptureState F
  count_frame s = record s { frames = add_u64 s.frames 1; consecutive_failures = 0 }

  pub add_u64-counted : (n m : ℕ) → n ≡ m % 2 ^ 64 → add_u64 n 1 ≡ suc m % 2 ^ 64
  add_u64-counted n m h = omega (arith, h)
