-- ===== src/Live/Saved.antt =====
-- src/live.cpp `capture_live`, behind the loops: what a capture leaves on the disk.
use mathlib.Core.Path.{subst}
use bengal_market.AtomicOutput.{FileSystem, Output, commit}
use bengal_market.AtomicOutput.Commit.{IsPublished, IsWhole, commit-IsPublished}
use bengal_market.AtomicOutput.Construct.{IsNew}
use bengal_market.AtomicOutput.Posix.{IsPosix}
use bengal_market.Base.{
  Bool, Bytes, List, Option, [], arith, false, inl, inr, none, not, refl, some, suc, sym, true,
  zero, ℕ, ◌%◌, ◌&&◌, ◌++◌, ◌<◌, ◌==◌, ◌^◌, ◌∙◌, ◌∷◌, ◌≡◌, ◌≤◌, ◌⊎◌,
}
use bengal_market.Effects.{
  Done, Hoare, Hoare-bind, Hoare-frame, Hoare-unless, Hoare-weaken, Outcome, Result, out_of_fuel,
  raised, returned,
}
use bengal_market.Live.{
  CaptureOptions, CaptureResult, CaptureState, Network, finish_capture, metadata_value, on_output,
}
use bengal_market.Live.Keeps.{
  AreMade, Chunk, IsCapturing, IsCapturing-weaken, Setting, chunks_bytes, whole_count,
}
use bengal_market.Live.Laws.{IsNetwork}
use bengal_market.Live.Send.{stopped-Keeps}

module _ {F : FileSystem} {V : IsPosix F} {N : Network F} (W : IsNetwork V N)
    (options : CaptureOptions) (k : ℕ) where
  -- A new capture: its file object is new, and nothing has been counted.
  pub record IsStarting (b : ℕ) (before : Option Bytes) (s : CaptureState F) : Type 0 where
    pub new : IsNew V options.output k before s.output
    pub no_frames : s.frames ≡ 0
    pub budget_left : W.budget s.output.world ≤ b

  -- The file under the destination's name: the metadata line, then a line for each frame counted, with
  -- what failed writes have left between them. Without a stop request there is a frame.
  pub record IsSaved (r : CaptureResult) (s : CaptureState F) : Type 0 where
    pub metadata : Bytes
    pub metadata_made : N.dump (metadata_value options) ≡ some metadata
    pub chunks : List Chunk
    pub chunks_made : AreMade N chunks
    pub published :
        IsPublished V options.output ((metadata ++ 10 ∷ []) ++ chunks_bytes chunks) s.output
    pub count : r.frames ≡ whole_count chunks % 2 ^ 64
    pub received : (r.interrupted ≡ true) ⊎ (0 < r.frames)

  -- A file that a commit has published although it threw.
  pub record IsLate (w : F.World) : Type 0 where
    pub first : Bytes
    pub first_made : N.dump (metadata_value options) ≡ some first
    pub rest : List Chunk
    pub rest_made : AreMade N rest
    pub full : V.content options.output w ≡ some ((first ++ 10 ∷ []) ++ chunks_bytes rest)

  -- The file is as before, or, where there was none, a whole capture.
  unfoldable pub IsLeft : Option Bytes → CaptureState F → Type 0
  IsLeft before s =
      (V.content options.output s.output.world ≡ before) ⊎ ((before ≡ none) × IsLate s.output.world)

  abbrev pub setting : Bytes → Setting
  setting metadata = record {
    F = F;
    V = V;
    N = N;
    W = W;
    options = options;
    head = metadata ++ 10 ∷ [];
    k = k;
  }

  module _ (b : ℕ) (before : Option Bytes) (free : before ≡ none) (metadata : Bytes)
      (made : N.dump (metadata_value options) ≡ some metadata) where
    -- The state has a frame count of `n`.
    abbrev Counting : ℕ → CaptureState F → Type 0
    Counting n s = IsCapturing (setting metadata) b 0 s × (s.frames ≡ n)

    record IsCommitted (n : ℕ) (s : CaptureState F) : Type 0 where
      written : List Chunk
      written_made : AreMade N written
      in_place :
          IsPublished V options.output ((metadata ++ 10 ∷ []) ++ chunks_bytes written) s.output
      same_count : s.frames ≡ n
      count_whole : n ≡ whole_count written % 2 ^ 64

    pub capturing-IsLeft :
        (c : ℕ) (s : CaptureState F) → IsCapturing (setting metadata) b c s → IsLeft before s
    unfolding IsLeft
    capturing-IsLeft c s v = inl (v.writing.unpublished ∙ sym free)

    commit-IsCommitted :
        (n : ℕ)
        → Hoare
            (Counting n)
            (on_output N options (commit F options.output))
            (λ u. IsCommitted n)
            (IsLeft before)
    unfolding IsLeft IsWhole
    commit-IsCommitted n = record {
      run = λ s p. go s p (commit F options.output s.output) (
          (commit-IsPublished V options.output ((metadata ++ 10 ∷ []) ++ chunks_bytes p.0.chunks)
              k).run
            s.output p.0.writing);
    }
      where
        go :
            (s : CaptureState F) (p : Counting n s) (o : Result Done × Output F)
            → Outcome
                (λ u.
                  IsPublished V options.output ((metadata ++ 10 ∷ []) ++ chunks_bytes p.0.chunks))
                (IsWhole V options.output ((metadata ++ 10 ∷ []) ++ chunks_bytes p.0.chunks))
                o
            → Outcome (λ u. IsCommitted n) (IsLeft before) (o.0, record s { output = o.1 })
        go s p (returned u, o) h = record {
          written = p.0.chunks;
          written_made = p.0.made_lines;
          in_place = record { full = h.full; cleared = h.cleared };
          same_count = p.1;
          count_whole = sym p.1 ∙ p.0.frames_counted;
        }
        go s p (raised e, o) (inl h) = inl (h ∙ sym free)
        go s p (raised e, o) (inr h) = inr (
          free,
          record {
            first = metadata;
            first_made = made;
            rest = p.0.chunks;
            rest_made = p.0.made_lines;
            full = h;
          },
        )
        go s p (out_of_fuel, o) h = absurd h

    enough : (n : ℕ) (i : Bool) → not ((n == 0) && not i) ≡ true → (i ≡ true) ⊎ (0 < n)
    enough n true e = inl refl
    enough zero false e = cc e
    enough (suc n) false e = inr (omega arith)

    pub finish-IsSaved :
        (c : ℕ)
        → Hoare
            (IsCapturing (setting metadata) b c)
            (finish_capture N options)
            IsSaved
            (IsLeft before)
    unfolding finish_capture
    finish-IsSaved c =
        Hoare-bind _ _ _ (λ i. IsCapturing (setting metadata) b c) _ _
          (Hoare-weaken (IsCapturing (setting metadata) b c) _ _
            (λ i. IsCapturing (setting metadata) b c) _ (IsCapturing (setting metadata) b c) _
            (stopped-Keeps (setting metadata) b c) (λ s v. v) (λ i s v. v) (capturing-IsLeft c))
          (λ i.
            Hoare-bind _ _ _ (λ n. Counting n) _ _
              (record {
                run = λ s v. (
                  IsCapturing-weaken (setting metadata) b b c 0 s (omega arith) (omega arith) v,
                  refl,
                );
              })
              (λ n.
                Hoare-bind _ _ _ _ _ _
                  (Hoare-unless (not ((n == 0) && not i)) _ (Counting n) (IsLeft before)
                    (λ s p e. capturing-IsLeft 0 s p.0))
                  (λ u.
                    Hoare-bind _ _ _ (λ u s. IsCommitted n s × (not ((n == 0) && not i) ≡ true)) _ _
                      (Hoare-frame _ (Counting n) _ (λ u. IsCommitted n) (IsLeft before)
                        (commit-IsCommitted n))
                      (λ u. record {
                        run = λ s p. record {
                          metadata = metadata;
                          metadata_made = made;
                          chunks = p.0.written;
                          chunks_made = p.0.written_made;
                          published = p.0.in_place;
                          count = p.0.same_count ∙ p.0.count_whole;
                          received =
                              subst (λ m. (i ≡ true) ⊎ (0 < m)) (sym p.0.same_count)
                                (enough n i p.1);
                        };
                      }))))
