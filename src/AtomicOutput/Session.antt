-- ===== src/AtomicOutput/Session.antt =====
-- src/atomic_output.hpp: the life of one object, from the constructor through any number of lines to
-- the commit.
-- The bytes of the lines, each with its line break.
use mathlib.Core.Path.{subst}
use bengal_market.AtomicOutput.{
  FileSystem, Output, commit, construct, in_scope, part_of, write_line,
}
use bengal_market.AtomicOutput.Commit.{IsPublished, IsWhole, commit-IsPublished}
use bengal_market.AtomicOutput.Construct.{IsNew, construct-IsWriting}
use bengal_market.AtomicOutput.Destroy.{destroy-content, in_scope-Hoare}
use bengal_market.AtomicOutput.Line.{write_line-IsWriting}
use bengal_market.AtomicOutput.Posix.{IsPosix}
use bengal_market.AtomicOutput.Write.{IsWriting}
use bengal_market.Base.{
  Bytes, List, Option, [], append-nil, append_assoc, arith, inl, inr, length, max, none, some, sym,
  ℕ, ◌++◌, ◌+◌, ◌∙◌, ◌∷◌, ◌≡◌, ◌≤◌, ◌⊎◌,
}
use bengal_market.Effects.{Action, Done, Hoare, Hoare-bind, Hoare-weaken, Outcome, pure, ◌>>◌}

abbrev pub joined : List Bytes → Bytes
joined [] = []
joined (line ∷ lines) = (line ++ 10 ∷ []) ++ joined lines

abbrev pub longest : List Bytes → ℕ
longest [] = 0
longest (line ∷ lines) = max (length line) (longest lines)

module _ (F : FileSystem) where
  unfoldable pub write_lines : ℕ → List Bytes → Action (Output F) Done
  write_lines fuel [] = pure tt
  write_lines fuel (line ∷ lines) = write_line F fuel line >> write_lines fuel lines

  unfoldable pub save : ℕ → Bytes → List Bytes → Action (Output F) Done
  unfolding write_lines
  save fuel destination lines = do
    construct F destination
    in_scope F (write_lines fuel lines >> commit F destination)

module _ {F : FileSystem} (V : IsPosix F) (destination : Bytes) where
  -- The destination is as before, or, where there was nothing, holds the whole text.
  pub IsSafe : Option Bytes → Bytes → Output F → Type 0
  IsSafe before text s =
      (V.content destination s.world ≡ before)
      ⊎ ((before ≡ none) × (V.content destination s.world ≡ some text))

  write_lines-IsWriting :
      (lines : List Bytes) (fuel k : ℕ) (body : Bytes)
      → longest lines + k ≤ fuel
      → 1 + k ≤ fuel
      → Hoare
          (IsWriting V destination k body)
          (write_lines F fuel lines)
          (λ u. IsWriting V destination k (body ++ joined lines))
          (λ s. V.content destination s.world ≡ none)
  unfolding write_lines
  write_lines-IsWriting [] fuel k body h h' = record {
    run = λ s v. subst (λ b. IsWriting V destination k b s) (sym (append-nil body)) v;
  }
  write_lines-IsWriting (line ∷ lines) fuel k body h h' =
      Hoare-bind _ _ _ (λ u. IsWriting V destination k (body ++ (line ++ 10 ∷ []))) _ _
        (Hoare-weaken _ (IsWriting V destination k body) _ _
          (λ u. IsWriting V destination k (body ++ (line ++ 10 ∷ []))) _
          (λ s. V.content destination s.world ≡ none)
          (write_line-IsWriting V destination fuel k line body (omega (arith, h)) h') (λ s v. v)
          (λ u s v. v) (λ s v. v.torn.unpublished))
        (λ u.
          Hoare-weaken _ (IsWriting V destination k (body ++ (line ++ 10 ∷ []))) _ _
            (λ u. IsWriting V destination k (body ++ joined (line ∷ lines))) _
            (λ s. V.content destination s.world ≡ none)
            (write_lines-IsWriting lines fuel k (body ++ (line ++ 10 ∷ [])) (omega (arith, h)) h')
            (λ s v. v)
            (λ u s v.
              subst (λ b. IsWriting V destination k b s)
                (append_assoc body (line ++ 10 ∷ []) (joined lines)) v)
            (λ s v. v))

  save-Hoare :
      (lines : List Bytes) (fuel k : ℕ) (before : Option Bytes)
      → longest lines + k ≤ fuel
      → 1 + k ≤ fuel
      → Hoare
          (IsNew V destination k before)
          (save F fuel destination lines)
          (λ u s. (before ≡ none) × IsPublished V destination (joined lines) s)
          (IsSafe before (joined lines))
  unfolding save IsSafe IsWhole
  save-Hoare lines fuel k before h h' =
      Hoare-bind _ _ _ (λ u s. IsWriting V destination k [] s × (before ≡ none)) _ _
        (Hoare-weaken _ (IsNew V destination k before) _ _
          (λ u s. IsWriting V destination k [] s × (before ≡ none)) _ (IsSafe before (joined lines))
          (construct-IsWriting V destination k before) (λ s v. v) (λ u s v. v) (λ s v. inl v))
        (λ u. record { run = λ s v. (rest v.1).run s v.0 })
    where
      rest :
          before ≡ none
          → Hoare
              (IsWriting V destination k [])
              (in_scope F (write_lines F fuel lines >> commit F destination))
              (λ u s. (before ≡ none) × IsPublished V destination (joined lines) s)
              (IsSafe before (joined lines))
      rest free =
          in_scope-Hoare V _ (IsWriting V destination k []) _ _
            (λ u s v. (
              v.0,
              record {
                full = destroy-content V destination s ∙ v.1.full;
                cleared = destroy-content V (part_of destination) s ∙ v.1.cleared;
              },
            ))
            (λ s v. elim v [
              | inl a ↦ inl (destroy-content V destination s ∙ a)
              | inr b ↦ inr (b.0, destroy-content V destination s ∙ b.1)
            ])
            (Hoare-bind _ _ _ (λ u. IsWriting V destination k (joined lines)) _ _
              (Hoare-weaken _ (IsWriting V destination k []) _ _
                (λ u. IsWriting V destination k (joined lines)) _ (IsSafe before (joined lines))
                (write_lines-IsWriting lines fuel k [] h h') (λ s v. v) (λ u s v. v)
                (λ s v. inl (v ∙ sym free)))
              (λ u.
                Hoare-weaken _ (IsWriting V destination k (joined lines)) _ _
                  (λ u s. (before ≡ none) × IsPublished V destination (joined lines) s) _
                  (IsSafe before (joined lines)) (commit-IsPublished V destination (joined lines) k)
                  (λ s v. v) (λ u s v. (free, v))
                  (λ s v. elim v [ inl a ↦ inl (a ∙ sym free) | inr b ↦ inr (free, b) ])))

  -- A new object that is given lines, committed and destroyed, over a file system whose calls have their
  -- documented effect, with fuel for every byte of a line and every interruption to come: it ends.
  -- Where it returns, there was no file under the destination's name, the destination holds exactly
  -- the lines, and the part file is gone. Where it throws, at whatever call, the destination is as
  -- before or holds exactly the lines.
  pub save-IsSafe :
      (lines : List Bytes) (fuel k : ℕ) (before : Option Bytes) (s : Output F)
      → longest lines + k ≤ fuel
      → 1 + k ≤ fuel
      → IsNew V destination k before s
      → Outcome
          (λ u s'. (before ≡ none) × IsPublished V destination (joined lines) s')
          (IsSafe before (joined lines))
          (save F fuel destination lines s)
  save-IsSafe lines fuel k before s h h' v = (save-Hoare lines fuel k before h h').run s v
