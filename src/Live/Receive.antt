-- ===== src/Live/Receive.antt =====
-- src/live.cpp: a received message becomes a line of the file, and the message that is put together
-- stays within its limit.
use bengal_market.AtomicOutput.{Output, write_line}
use bengal_market.AtomicOutput.Line.{write_line-IsWriting}
use bengal_market.AtomicOutput.Write.{IsTorn, IsWriting}
use bengal_market.Base.{
  Bool, Bytes, Option, [], ap, arith, codes, false, if◌then◌else◌, length, length-append, ltb, none,
  not, refl, some, sym, take, true, ℕ, ◌%◌, ◌++◌, ◌+◌, ◌^◌, ◌∙◌, ◌∷◌, ◌≡◌, ◌≤◌,
}
use bengal_market.Base.Words.{add_u64, sub_u64}
use bengal_market.Effects.{
  Action, Done, Fault, Hoare, Hoare-bind, Hoare-unless, Outcome, Result, failure, out_of_fuel, pure,
  raise, raised, returned, ◌>>=◌, ◌>>◌,
}
use bengal_market.Live.{
  CaptureState, FrameMeta, Received, add_text, frame_value, maximum_message_size, on_output,
  or_fail, record_frame, set, take_frame, take_received,
}
use bengal_market.Live.Chunks.{
  Grows, add_u64-counted, count_frame, grown-IsCapturing, whole_count-torn_off, whole_count-whole,
  write_line-Grows,
}
use bengal_market.Live.Keeps.{
  IsCapturing, IsFrameText, Keeps, Setting, ask-Keeps, bind-Keeps, chunks_bytes, look-Keeps,
  torn_off, unless-Keeps, whole, whole_count,
}
use bengal_market.Live.Send.{wait_socket-Keeps}

module _ (G : Setting) where
  open G use {F, V, N, W, options, head, k}

  module _ (limit : ℕ) (l : W.longest_text options + k ≤ limit) (l' : 1 + k ≤ limit) (b c : ℕ) where
    write_frame-Keeps :
        (line : Bytes)
        → length line ≤ W.longest_text options
        → IsFrameText N line
        → Hoare
            (IsCapturing G b c)
            (on_output N options (write_line F limit line))
            (λ u s. IsCapturing G b c (count_frame G s))
            (IsCapturing G b c)
    write_frame-Keeps line h made = record {
      run = λ s v.
          go s v (write_line F limit line s.output)
            ((write_line-IsWriting V options.output limit k line (head ++ chunks_bytes v.chunks)
                (omega (arith, h, l)) l').run
              s.output v.writing)
            (write_line-Grows G limit line s.output);
    }
      where
        go :
            (s : CaptureState F) (v : IsCapturing G b c s) (o : Result Done × Output F)
            → Outcome
                (λ u.
                  IsWriting V options.output k
                    ((head ++ chunks_bytes v.chunks) ++ (line ++ 10 ∷ [])))
                (IsTorn V options.output k (head ++ chunks_bytes v.chunks) (line ++ 10 ∷ []))
                o
            → Grows G s.output.world o.1.world
            → Outcome
                (λ u s. IsCapturing G b c (count_frame G s))
                (IsCapturing G b c)
                (o.0, record s { output = o.1 })
        go s v (returned u, o) w g =
            grown-IsCapturing G b c (add_u64 s.frames 1) s v o (whole line) w g made
              (add_u64-counted G s.frames (whole_count v.chunks) v.frames_counted
                ∙ ap (λ n. n % 2 ^ 64) (sym (whole_count-whole v.chunks line)))
              (count_frame G (record s { output = o })) refl refl
        go s v (raised e, o) w g =
            let text = take w.taken (line ++ 10 ∷ []) in
            grown-IsCapturing G b c s.frames s v o (torn_off text) w.torn g
              (record { line = line; of_line = made; size = w.taken; front = refl })
              (v.frames_counted ∙ ap (λ n. n % 2 ^ 64) (sym (whole_count-torn_off v.chunks text)))
              (record s { output = o }) refl refl
        go s v (out_of_fuel, o) w g = absurd w

    record_frame-Keeps :
        (message : Bytes)
        → length message ≤ maximum_message_size
        → Keeps G b c (record_frame N options limit message)
    unfolding record_frame ◌>>=◌
    record_frame-Keeps message fits =
        bind-Keeps G b c _ _ (ask-Keeps G b c N.wall_time W.wall_quiet) (λ t.
          bind-Keeps G b c _ _ (look-Keeps G b c (λ s. s.connection_id))
            (λ id. go t id (N.dump (frame_value t id message)) refl))
      where
        go :
            (t id : ℕ) (o : Option Bytes)
            → N.dump (frame_value t id message) ≡ o
            → Keeps G b c (
                or_fail N options o >>= λ line.
                on_output N options (write_line F limit line) >> set N options (count_frame G))
        go t id none e = record { run = λ s v. v }
        go t id (some line) e = record {
          run =
              (Hoare-bind (IsCapturing G b c) _ _ (λ u s. IsCapturing G b c (count_frame G s))
                (λ u. IsCapturing G b c) (IsCapturing G b c)
                (write_frame-Keeps line (W.frame_length options t id message line fits e)
                  (record { time = t; id = id; message = message; short = fits; made = e }))
                (λ u. record { run = λ s v. v })).run;
        }

    -- The message that a call answers is within the limit.
    abbrev pub KeepsText : Action (CaptureState F) Bytes → Type 0
    KeepsText m =
        Hoare (IsCapturing G b c) m (λ t s. IsCapturing G b c s × (length t ≤ maximum_message_size))
          (IsCapturing G b c)

    fits-KeepsText : (t : Bytes) → length t ≤ maximum_message_size → KeepsText (pure t)
    fits-KeepsText t h = record { run = λ s v. (v, h) }

    bind-KeepsText :
        {A : Type 0} (m : Action (CaptureState F) A) (f : A → Action (CaptureState F) Bytes)
        → Keeps G b c m
        → ((a : A) → KeepsText (f a))
        → KeepsText (m >>= f)
    bind-KeepsText m f h g =
        Hoare-bind (IsCapturing G b c) m f (λ a. IsCapturing G b c) _ (IsCapturing G b c) h g

    if-KeepsText :
        (t : Bool) (m n : Action (CaptureState F) Bytes)
        → KeepsText m
        → KeepsText n
        → KeepsText (if t then m else n)
    if-KeepsText true m n h g = h
    if-KeepsText false m n h g = g

    raise-KeepsText : (e : Fault) → KeepsText (raise e)
    raise-KeepsText e = record { run = λ s v. v }

    joined_fits :
        (message received : Bytes)
        → length message ≤ maximum_message_size
        → not (ltb (sub_u64 maximum_message_size (length message)) (length received)) ≡ true
        → length (message ++ received) ≤ maximum_message_size
    joined_fits message received h e =
        rw (length-append message received) (fits (length message) (length received) h e)
      where
        fits :
            (m r : ℕ)
            → m ≤ maximum_message_size
            → not (ltb (sub_u64 maximum_message_size m) r) ≡ true
            → m + r ≤ maximum_message_size
        fits m r h e = ground (arith, e, h)

    add_text-KeepsText :
        (message received : Bytes) (frame : FrameMeta)
        → length message ≤ maximum_message_size
        → KeepsText (add_text N options limit message received frame)
    unfolding add_text
    add_text-KeepsText message received frame h =
        Hoare-bind (IsCapturing G b c) _ _ _ _ (IsCapturing G b c)
          (Hoare-unless _ _ (IsCapturing G b c) (IsCapturing G b c) (λ s v e. v))
          (λ u. record {
            run = λ s p.
                let fits = joined_fits message received h p.1 in
                (if-KeepsText _ _ _ (fits-KeepsText (message ++ received) fits) (
                    bind-KeepsText _ _ (record_frame-Keeps (message ++ received) fits)
                      (λ u. fits-KeepsText [] (omega arith)))).run
                  s p.0;
          })

    take_frame-KeepsText :
        (message received : Bytes) (frame : FrameMeta)
        → length message ≤ maximum_message_size
        → KeepsText (take_frame N options limit message received frame)
    unfolding take_frame
    take_frame-KeepsText message received frame h = if-KeepsText _ _ _ (raise-KeepsText _) (
        if-KeepsText _ _ _ (fits-KeepsText message h) (
          if-KeepsText _ _ _ (fits-KeepsText [] (omega arith)) (
            if-KeepsText _ _ _ (add_text-KeepsText message received frame h)
              (fits-KeepsText message h))))

    pub take_received-KeepsText :
        (h : N.Handle) (message : Bytes) (r : Received)
        → length message ≤ maximum_message_size
        → KeepsText (take_received N options limit h message r)
    unfolding take_received
    take_received-KeepsText h message r l =
        if-KeepsText _ _ _
          (bind-KeepsText _ _ (wait_socket-Keeps G b c h) (λ u. fits-KeepsText message l))
          (bind-KeepsText _ _ (unless-Keeps G b c _ _) (λ u. go r.frame))
      where
        go :
            (o : Option FrameMeta)
            → KeepsText (elim o as (λ m. Action (CaptureState F) Bytes) [
              | none ↦ raise (failure (codes "WebSocket frame metadata missing"))
              | some frame ↦ take_frame N options limit message r.bytes frame
            ])
        go none = raise-KeepsText _
        go (some frame) = take_frame-KeepsText message r.bytes frame l
