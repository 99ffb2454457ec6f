-- ===== src/Live/Begin.antt =====
-- src/live.cpp `capture_live`, before the loops: the file is made and has its first line.
use bengal_market.AtomicOutput.{FileSystem, Output, construct, write_line}
use bengal_market.AtomicOutput.Construct.{construct-IsWriting}
use bengal_market.AtomicOutput.Line.{write_line-IsWriting}
use bengal_market.AtomicOutput.Meters.{construct-Since}
use bengal_market.AtomicOutput.Posix.{IsPosix}
use bengal_market.AtomicOutput.Write.{IsTorn, IsWriting}
use bengal_market.Base.{
  Bool, Bytes, Option, [], arith, inl, length, none, sym, true, ℕ, ◌++◌, ◌+◌, ◌∙◌, ◌∷◌, ◌≡◌, ◌≤◌,
}
use bengal_market.Cli.Program.{call}
use bengal_market.Effects.{
  Done, Fault, Hoare, Hoare-unless, Outcome, Result, out_of_fuel, raised, returned, unless,
}
use bengal_market.Live.{CaptureOptions, CaptureState, Network, ask, on_output}
use bengal_market.Live.Chunks.{write_line-Grows}
use bengal_market.Live.Laws.{IsNetwork, Quiet}
use bengal_market.Live.Saved.{IsLeft, IsStarting, setting}

module _ {F : FileSystem} {V : IsPosix F} {N : Network F} (W : IsNetwork V N)
    (options : CaptureOptions) (k : ℕ) where
  -- The file is open for its part, which holds `body`.
  pub record IsOpen (b : ℕ) (before : Option Bytes) (body : Bytes) (s : CaptureState F)
      : Type 0 where
    pub part : IsWriting V options.output k body s.output
    pub no_count : s.frames ≡ 0
    pub left_over : W.budget s.output.world ≤ b
    pub was_free : before ≡ none

  pub Quiet-IsStarting :
      {A : Type 0} (b : ℕ) (before : Option Bytes) (call : F.World → A × F.World)
      → ((w : F.World) → Quiet V W.clock W.budget w (call w).1)
      → Hoare
          (IsStarting W options k b before)
          (ask N options call)
          (λ a. IsStarting W options k b before)
          (IsLeft W options k before)
  Quiet-IsStarting b before call q = record {
    run = λ s v.
        let still = q s.output.world in
        record {
          new = record {
            closed = v.new.closed;
            unused = v.new.unused;
            content_before = still.same_content options.output ∙ v.new.content_before;
            waits = omega (arith, still.patience_le, v.new.waits);
          };
          no_frames = v.no_frames;
          budget_left = omega (arith, still.budget_le, v.budget_left);
        };
  }

  pub unless-IsStarting :
      (b : ℕ) (before : Option Bytes) (t : Bool) (e : Fault)
      → Hoare
          (IsStarting W options k b before)
          (unless t e)
          (λ u s. IsStarting W options k b before s × (t ≡ true))
          (IsLeft W options k before)
  unfolding IsLeft
  unless-IsStarting b before t e =
      Hoare-unless t e (IsStarting W options k b before) (IsLeft W options k before)
        (λ s v h. inl v.new.content_before)

  pub open-IsLeft :
      (b : ℕ) (before : Option Bytes) (body : Bytes) (s : CaptureState F)
      → IsOpen b before body s
      → IsLeft W options k before s
  unfolding IsLeft
  open-IsLeft b before body s v = inl (v.part.unpublished ∙ sym v.was_free)

  pub construct-IsOpen :
      (b : ℕ) (before : Option Bytes)
      → Hoare
          (IsStarting W options k b before)
          (on_output N options (construct F options.output))
          (λ u. IsOpen b before [])
          (IsLeft W options k before)
  unfolding IsLeft
  construct-IsOpen b before = record {
    run = λ s v.
        go s v (construct F options.output s.output)
          ((construct-IsWriting V options.output k before).run s.output v.new)
          (construct-Since F (λ w w'. W.budget w' ≤ W.budget w) (λ w. omega arith)
            (λ u v w h g. omega (arith, h, g)) W.create_budget options.output s.output);
  }
    where
      go :
          (s : CaptureState F)
          → IsStarting W options k b before s
          → (o : Result Done × Output F)
          → Outcome
              (λ u o. IsWriting V options.output k [] o × (before ≡ none))
              (λ o. V.content options.output o.world ≡ before)
              o
          → W.budget o.1.world ≤ W.budget s.output.world
          → Outcome
              (λ u. IsOpen b before [])
              (IsLeft W options k before)
              (o.0, record s { output = o.1 })
      go s v (returned u, o) h g = record {
        part = h.0;
        no_count = v.no_frames;
        left_over = omega (arith, g, v.budget_left);
        was_free = h.1;
      }
      go s v (raised e, o) h g = inl h
      go s v (out_of_fuel, o) h g = absurd h

  module _ (limit : ℕ) (l : W.longest_text options + k ≤ limit) (l' : 1 + k ≤ limit) (b : ℕ)
      (lb : W.longest_text options + b ≤ limit) (before : Option Bytes) where
    pub metadata-IsOpen :
        (line : Bytes)
        → length line ≤ W.longest_text options
        → Hoare
            (IsOpen b before [])
            (on_output N options (write_line F limit line))
            (λ u. IsOpen b before (line ++ 10 ∷ []))
            (IsLeft W options k before)
    unfolding IsLeft
    metadata-IsOpen line h = record {
      run = λ s v.
          go s v (write_line F limit line s.output)
            ((write_line-IsWriting V options.output limit k line [] (omega (arith, h, l)) l').run
              s.output v.part)
            (write_line-Grows (setting W options k line) limit line s.output).1;
    }
      where
        go :
            (s : CaptureState F)
            → IsOpen b before [] s
            → (o : Result Done × Output F)
            → Outcome
                (λ u. IsWriting V options.output k (line ++ 10 ∷ []))
                (IsTorn V options.output k [] (line ++ 10 ∷ []))
                o
            → W.budget o.1.world ≤ W.budget s.output.world
            → Outcome
                (λ u. IsOpen b before (line ++ 10 ∷ []))
                (IsLeft W options k before)
                (o.0, record s { output = o.1 })
        go s v (returned u, o) h g = record {
          part = h;
          no_count = v.no_count;
          left_over = omega (arith, g, v.left_over);
          was_free = v.was_free;
        }
        go s v (raised e, o) h g = inl (h.torn.unpublished ∙ sym v.was_free)
        go s v (out_of_fuel, o) h g = absurd h
