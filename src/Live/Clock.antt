-- ===== src/Live/Clock.antt =====
-- src/live.cpp: the test that both loops make, and what the clock says where they go on.
use mathlib.Core.Path.{subst}
use bengal_market.AtomicOutput.Write.{IsWriting}
use bengal_market.Base.{
  Bool, arith, false, if◌then◌else◌, ltb, not, refl, suc, sym, true, ℕ, ◌++◌, ◌<◌, ◌∙◌, ◌≡◌, ◌≤◌,
}
use bengal_market.Effects.{Action, Done, Hoare, Hoare-bind, Hoare-weaken, pure, ◌>>=◌}
use bengal_market.Live.{CaptureState, ask, goes_on, set, stopped}
use bengal_market.Live.Keeps.{
  IsCapturing, IsCapturing-weaken, Keeps, Quiet-IsCapturing, Setting, bind-Keeps, chunks_bytes,
  pure-Keeps,
}
use bengal_market.Live.Send.{stopped-Keeps}

module _ (G : Setting) where
  open G use {F, V, N, W, options, head, k}

  -- A change of the variables that the file and its counts do not depend on.
  pub set-Keeps :
      (b c : ℕ) (f : CaptureState F → CaptureState F)
      → ((s : CaptureState F) → (f s).output ≡ s.output)
      → ((s : CaptureState F) → (f s).frames ≡ s.frames)
      → Keeps G b c (set N options f)
  set-Keeps b c f h g = record {
    run = λ s v. record {
      chunks = v.chunks;
      writing =
          subst (λ o. IsWriting V options.output k (head ++ chunks_bytes v.chunks) o) (sym (h s))
            v.writing;
      made_lines = v.made_lines;
      frames_counted = g s ∙ v.frames_counted;
      budgeted = rw (h s) v.budgeted;
      timed = rw (h s) v.timed;
    };
  }

  -- Where a loop goes on, the time was before the deadline and has gone on.
  abbrev pub GoesOn : ℕ → ℕ → ℕ → Bool → CaptureState F → Type 0
  GoesOn b c deadline more s =
      IsCapturing G b c s × (more ≡ true → (c < deadline) × IsCapturing G b (suc c) s)

  now-Keeps :
      (b c : ℕ)
      → Hoare
          (IsCapturing G b c)
          (ask N options N.now)
          (λ time s. (c ≤ time) × IsCapturing G b (suc c) s)
          (IsCapturing G b c)
  now-Keeps b c = record {
    run = λ s v.
        let w = s.output.world in
        let still = Quiet-IsCapturing G b c s (N.now w).1 (W.now_quiet w) v in
        (
          rw (W.now_lem w) v.timed,
          record {
            chunks = still.chunks;
            writing = still.writing;
            made_lines = still.made_lines;
            frames_counted = still.frames_counted;
            budgeted = still.budgeted;
            timed = omega (arith, W.now_ticks w, v.timed);
          },
        );
  }

  pub goes_on-Keeps :
      (b c deadline : ℕ)
      → Hoare
          (IsCapturing G b c)
          (goes_on N options deadline)
          (GoesOn b c deadline)
          (IsCapturing G b c)
  unfolding goes_on
  goes_on-Keeps b c deadline =
      Hoare-bind (IsCapturing G b c) _ _ _ (GoesOn b c deadline) (IsCapturing G b c) (now-Keeps b c)
        (λ time. record { run = λ s p. (go time p.0 (ltb time deadline) refl).run s p.1 })
    where
      go :
          (time : ℕ)
          → c ≤ time
          → (t : Bool) → ltb time deadline ≡ t
          → Hoare
              (IsCapturing G b (suc c))
              (if t then (stopped N options >>= λ stop. pure (not stop)) else pure false)
              (GoesOn b c deadline)
              (IsCapturing G b c)
      go time h false e = record {
        run =
            λ s v. (IsCapturing-weaken G b b (suc c) c s (omega arith) (omega arith) v, λ x. cc x);
      }
      go time h true e =
          let early : c < deadline = ground (arith, e, h) in
          Hoare-weaken (IsCapturing G b (suc c)) (IsCapturing G b (suc c)) _
            (λ more. IsCapturing G b (suc c)) (GoesOn b c deadline) (IsCapturing G b (suc c))
            (IsCapturing G b c)
            (bind-Keeps G b (suc c) _ _ (stopped-Keeps G b (suc c))
              (λ stop. pure-Keeps G b (suc c) _))
            (λ s v. v)
            (λ more s v.
              (IsCapturing-weaken G b b (suc c) c s (omega arith) (omega arith) v, λ x. (early, v)))
            (λ s v. IsCapturing-weaken G b b (suc c) c s (omega arith) (omega arith) v)

  later-Keeps :
      {A : Type 0} (b c : ℕ) (m : Action (CaptureState F) A)
      → Keeps G b (suc c) m
      → Hoare (IsCapturing G b (suc c)) m (λ a. IsCapturing G b c) (IsCapturing G b c)
  later-Keeps b c m h =
      Hoare-weaken (IsCapturing G b (suc c)) (IsCapturing G b (suc c)) m
        (λ a. IsCapturing G b (suc c)) _ (IsCapturing G b (suc c)) _ h (λ s v. v)
        (λ a s v. IsCapturing-weaken G b b (suc c) c s (omega arith) (omega arith) v)
        (λ s v. IsCapturing-weaken G b b (suc c) c s (omega arith) (omega arith) v)

  -- The body of a loop, for the time that is left.
  pub while-Keeps :
      (b c deadline : ℕ) (m : Action (CaptureState F) Done)
      → (c < deadline → Keeps G b (suc c) m)
      → Keeps G b c (goes_on N options deadline >>= λ more. if more then m else pure tt)
  while-Keeps b c deadline m h =
      Hoare-bind (IsCapturing G b c) _ _ (GoesOn b c deadline) (λ u. IsCapturing G b c)
        (IsCapturing G b c) (goes_on-Keeps b c deadline) (λ more. go more)
    where
      go :
          (more : Bool)
          → Hoare
              (GoesOn b c deadline more)
              (if more then m else pure tt)
              (λ u. IsCapturing G b c)
              (IsCapturing G b c)
      go false = record { run = λ s p. p.0 }
      go true = record {
        run = λ s p. let (early, now) = p.1 refl in (later-Keeps b c m (h early)).run s now;
      }
