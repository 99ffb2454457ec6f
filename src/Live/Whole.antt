-- ===== src/Live/Whole.antt =====
-- src/live.cpp `capture_live` as a whole: what is left on the disk, and that it ends.
use mathlib.Core.Path.{subst}
use bengal_market.AtomicOutput.{FileSystem, destroy, part_of, write_line}
use bengal_market.AtomicOutput.Destroy.{destroy-content}
use bengal_market.AtomicOutput.Posix.{IsPosix}
use bengal_market.AtomicOutput.Write.{IsWriting}
use bengal_market.Base.{
  Bool, Bytes, Option, [], append-nil, arith, inl, inr, none, refl, some, suc, sym, true, ℕ, ◌++◌,
  ◌+◌, ◌<◌, ◌∙◌, ◌∷◌, ◌≡◌, ◌≤◌,
}
use bengal_market.Effects.{
  Action, Fault, Hoare, Hoare-bind, Hoare-frame, Hoare-raised, Hoare-returned, Hoare-weaken,
  Outcome, Result, out_of_fuel, raised, returned, unless, ◌>>=◌, ◌>>◌,
}
use bengal_market.Live.{
  CaptureOptions, CaptureResult, CaptureState, Network, ask, capture_into, capture_live,
  finish_capture, in_file, metadata_value, on_output, or_fail, reconnect_loop,
}
use bengal_market.Live.Begin.{
  IsOpen, Quiet-IsStarting, construct-IsOpen, metadata-IsOpen, open-IsLeft, unless-IsStarting,
}
use bengal_market.Live.Keeps.{IsCapturing, Quiet-IsCapturing}
use bengal_market.Live.Laws.{IsNetwork}
use bengal_market.Live.Loop.{reconnect_loop-Keeps}
use bengal_market.Live.Saved.{
  IsLeft, IsSaved, IsStarting, capturing-IsLeft, finish-IsSaved, setting,
}

module _ {F : FileSystem} {V : IsPosix F} {N : Network F} (W : IsNetwork V N)
    (options : CaptureOptions) (k : ℕ) where
  module _ (limit : ℕ) (l : W.longest_text options + k ≤ limit) (l' : 1 + k ≤ limit) (b : ℕ)
      (lb : W.longest_text options + b ≤ limit) (before : Option Bytes) where
    begin-IsCapturing :
        (line : Bytes)
        → Hoare
            (IsOpen W options k b before (line ++ 10 ∷ []))
            (ask N options N.now)
            (λ time s. IsCapturing (setting W options k line) b (suc time) s × (before ≡ none))
            (IsLeft W options k before)
    begin-IsCapturing line = record {
      run = λ s v.
          let w = s.output.world in
          let start : IsCapturing (setting W options k line) b (W.clock w) s = record {
            chunks = [];
            writing =
                subst (λ t. IsWriting V options.output k t s.output)
                  (sym (append-nil (line ++ 10 ∷ []))) v.part;
            made_lines = tt;
            frames_counted = v.no_count;
            budgeted = v.left_over;
            timed = omega arith;
          } in
          let still =
            Quiet-IsCapturing (setting W options k line) b (W.clock w) s (N.now w).1 (W.now_quiet w)
              start in
          (
            record {
              chunks = still.chunks;
              writing = still.writing;
              made_lines = still.made_lines;
              frames_counted = still.frames_counted;
              budgeted = still.budgeted;
              timed = rw (W.now_lem w) (W.now_ticks w);
            },
            v.was_free,
          );
    }

    -- The loops and what is behind them.
    body-IsSaved :
        (fuel : ℕ) (line : Bytes)
        → N.dump (metadata_value options) ≡ some line
        → options.duration_ns < fuel
        → Hoare
            (IsOpen W options k b before (line ++ 10 ∷ []))
            (ask N options N.now >>= λ start.
              reconnect_loop N options fuel fuel limit (start + options.duration_ns)
              >> finish_capture N options)
            (λ r s. IsSaved W options k r s × (before ≡ none))
            (IsLeft W options k before)
    body-IsSaved fuel line made h =
        let G = setting W options k line in
        Hoare-bind _ _ _ (λ time s. IsCapturing G b (suc time) s × (before ≡ none)) _ _
          (begin-IsCapturing line)
          (λ time. record {
            run = λ s p.
                (Hoare-frame (before ≡ none) (IsCapturing G b (suc time)) _ (IsSaved W options k)
                    (IsLeft W options k before)
                    (Hoare-bind _ _ _ (λ u. IsCapturing G b (suc time)) _ _
                      (Hoare-weaken (IsCapturing G b (suc time)) _ _
                        (λ u. IsCapturing G b (suc time)) _ (IsCapturing G b (suc time)) _
                        (reconnect_loop-Keeps G limit l l' b lb (time + options.duration_ns) fuel
                          fuel (suc time) (omega (arith, h)) (omega (arith, h)) (omega (arith, h))
                          (omega (arith, h)))
                        (λ s v. v) (λ u s v. v)
                        (capturing-IsLeft W options k b before p.1 line made (suc time)))
                      (λ u. finish-IsSaved W options k b before p.1 line made (suc time)))).run
                  s p;
          })

    capture_into-Hoare :
        (fuel : ℕ)
        → options.duration_ns < fuel
        → Hoare
            (IsOpen W options k b before [])
            (capture_into N options fuel limit)
            (λ r s. IsSaved W options k r s × (before ≡ none))
            (IsLeft W options k before)
    unfolding capture_into
    capture_into-Hoare fuel h = rest (N.dump (metadata_value options)) refl
      where
        rest :
            (o : Option Bytes)
            → N.dump (metadata_value options) ≡ o
            → Hoare
                (IsOpen W options k b before [])
                (or_fail N options o >>= λ line.
                  on_output N options (write_line F limit line)
                  >> (ask N options N.now >>= λ start.
                      reconnect_loop N options fuel fuel limit (start + options.duration_ns)
                      >> finish_capture N options))
                (λ r s. IsSaved W options k r s × (before ≡ none))
                (IsLeft W options k before)
        rest none e =
            Hoare-raised (IsOpen W options k b before []) _ _ _ (IsLeft W options k before)
              (open-IsLeft W options k b before [])
        rest (some line) e =
            Hoare-returned (IsOpen W options k b before []) line _ _ (IsLeft W options k before) (
              Hoare-bind _ _ _ (λ u. IsOpen W options k b before (line ++ 10 ∷ [])) _ _
                (metadata-IsOpen W options k limit l l' b lb before line
                  (W.metadata_length options line e))
                (λ u. body-IsSaved fuel line e h))

    -- The destructor leaves the files.
    in_file-Hoare :
        (m : Action (CaptureState F) CaptureResult) (pre : CaptureState F → Type 0)
        → Hoare pre m (λ r s. IsSaved W options k r s × (before ≡ none)) (IsLeft W options k before)
        → Hoare pre
            (in_file N options m)
            (λ r s. IsSaved W options k r s × (before ≡ none))
            (IsLeft W options k before)
    unfolding IsLeft
    in_file-Hoare m pre h = record { run = λ s p. go (m s) (h.run s p) }
      where
        go :
            (o : Result CaptureResult × CaptureState F)
            → Outcome
                (λ r s. IsSaved W options k r s × (before ≡ none))
                (IsLeft W options k before)
                o
            → Outcome
                (λ r s. IsSaved W options k r s × (before ≡ none))
                (IsLeft W options k before)
                (o.0, record o.1 { output = (destroy F o.1.output).1 })
        go (returned r, s) (v, free) = (
          record {
            metadata = v.metadata;
            metadata_made = v.metadata_made;
            chunks = v.chunks;
            chunks_made = v.chunks_made;
            published = record {
              full = destroy-content V options.output s.output ∙ v.published.full;
              cleared = destroy-content V (part_of options.output) s.output ∙ v.published.cleared;
            };
            count = v.count;
            received = v.received;
          },
          free,
        )
        go (raised e, s) (inl v) = inl (destroy-content V options.output s.output ∙ v)
        go (raised e, s) (inr v) = inr (
          v.0,
          record {
            first = v.1.first;
            first_made = v.1.first_made;
            rest = v.1.rest;
            rest_made = v.1.rest_made;
            full = destroy-content V options.output s.output ∙ v.1.full;
          },
        )
        go (out_of_fuel, s) v = absurd v

    capture_live-Hoare :
        (fuel : ℕ)
        → options.duration_ns < fuel
        → Hoare
            (IsStarting W options k b before)
            (capture_live N options fuel limit)
            (λ r s. IsSaved W options k r s × (before ≡ none))
            (IsLeft W options k before)
    unfolding capture_live
    capture_live-Hoare fuel h =
        Hoare-bind _ _ _ (λ u. IsStarting W options k b before) _ _ (check_start _ _)
          (λ u.
            Hoare-bind _ _ _ (λ u. IsStarting W options k b before) _ _ (check_start _ _)
              (λ u.
                Hoare-bind _ _ _ (λ u. IsStarting W options k b before) _ _
                  (Quiet-IsStarting W options k b before N.global_init W.global_quiet)
                  (λ initialized.
                    Hoare-bind _ _ _ (λ u. IsStarting W options k b before) _ _ (check_start _ _)
                      (λ u.
                        Hoare-bind _ _ _ (λ u. IsOpen W options k b before []) _ _
                          (construct-IsOpen W options k b before)
                          (λ u.
                            in_file-Hoare _ (IsOpen W options k b before [])
                              (capture_into-Hoare fuel h))))))
      where
        check_start :
            (t : Bool) (e : Fault)
            → Hoare
                (IsStarting W options k b before)
                (unless t e)
                (λ u. IsStarting W options k b before)
                (IsLeft W options k before)
        check_start t e =
            Hoare-weaken (IsStarting W options k b before) _ _
              (λ u s. IsStarting W options k b before s × (t ≡ true)) _ (IsLeft W options k before)
              _ (unless-IsStarting W options k b before t e) (λ s v. v) (λ u s v. v.0) (λ s v. v)

    -- A capture by a new object, over system calls and a network library that do what they
    -- document, where a reading of the clock takes a nanosecond and the network takes a send up
    -- after some tries; the fuel of the loops is more than the duration, and that of a text is
    -- enough for its bytes and every interruption to come. The capture ends. Where it returns,
    -- there was no file under the destination's name, and there is one now: the metadata line,
    -- then the lines that the JSON library made of messages within the limit, whose number is
    -- `frames` modulo 2^64, with what failed writes have left between them; without a stop request
    -- there is at least one frame. Where it throws, the destination is as before, or, where there
    -- was nothing, holds such a file.
    pub capture_live-IsSafe :
        (fuel : ℕ) (s : CaptureState F)
        → options.duration_ns < fuel
        → IsStarting W options k b before s
        → Outcome
            (λ r s'. IsSaved W options k r s' × (before ≡ none))
            (IsLeft W options k before)
            (capture_live N options fuel limit s)
    capture_live-IsSafe fuel s h v = (capture_live-Hoare fuel h).run s v
