-- ===== src/Live/Send.antt =====
-- src/live.cpp: the stop request, the waits and the sends keep the state of the capture, and a send
-- comes to an end.
use bengal_market.Base.{
  Bool, Bytes, [], arith, codes, drop, false, if◌then◌else◌, length, length-drop, not, refl, suc,
  true, zero, ℕ, ◌+◌, ◌-◌, ◌==◌, ◌∷◌, ◌≡◌, ◌≤◌,
}
use bengal_market.Effects.{Hoare, Hoare-bind, Hoare-unless, Hoare-weaken, failure, unless, ◌>>◌}
use bengal_market.Live.{
  CaptureState, Sent, after_send, ask, check, is_again, send_all, stopped, throw_if_stopped,
  wait_for_rest, wait_socket,
}
use bengal_market.Live.Keeps.{
  IsCapturing, IsCapturing-weaken, Keeps, Quiet-IsCapturing, Setting, ask-Keeps, bind-Keeps,
  if-Keeps, pure-Keeps, unless-Keeps,
}

module _ (G : Setting) where
  open G use {F, N, W, options}

  pub stopped-Keeps : (b c : ℕ) → Keeps G b c (stopped N options)
  unfolding stopped
  stopped-Keeps b c =
      if-Keeps G b c options.stop_given _ _
        (bind-Keeps G b c _ _ (ask-Keeps G b c N.stop_requested W.stop_quiet)
          (λ o. pure-Keeps G b c _))
        (pure-Keeps G b c false)

  pub throw_if_stopped-Keeps : (b c : ℕ) → Keeps G b c (throw_if_stopped N options)
  unfolding throw_if_stopped
  throw_if_stopped-Keeps b c =
      bind-Keeps G b c _ _ (stopped-Keeps b c) (λ stop. unless-Keeps G b c _ _)

  pub wait_socket-Keeps : (b c : ℕ) (h : N.Handle) → Keeps G b c (wait_socket N options h)
  unfolding wait_socket
  wait_socket-Keeps b c h = bind-Keeps G b c _ _ (throw_if_stopped-Keeps b c) (λ u.
      bind-Keeps G b c _ _ (ask-Keeps G b c (N.active_socket h) (W.socket_quiet h)) (λ socket.
        bind-Keeps G b c _ _ (unless-Keeps G b c _ _) (λ u.
          bind-Keeps G b c _ _ (unless-Keeps G b c _ _) (λ u.
            bind-Keeps G b c _ _ (ask-Keeps G b c (N.poll h) (W.poll_quiet h)) (λ polled.
              bind-Keeps G b c _ _ (unless-Keeps G b c _ _) (λ u. throw_if_stopped-Keeps b c))))))

  wait_for_rest-Keeps :
      (b c : ℕ) (h : N.Handle) (payload : Bytes) → Keeps G b c (wait_for_rest N options h payload)
  wait_for_rest-Keeps b c h [] = pure-Keeps G b c tt
  wait_for_rest-Keeps b c h (x ∷ payload) = wait_socket-Keeps b c h

  -- A send that is put off uses up some of the budget.
  ws_send-Keeps :
      (b c : ℕ) (h : N.Handle) (t : Bytes)
      → Hoare
          (IsCapturing G b c)
          (ask N options (N.ws_send h t))
          (λ r s.
            IsCapturing G b c s × (is_again r.code ≡ true → (1 ≤ b) × IsCapturing G (b - 1) c s))
          (IsCapturing G b c)
  ws_send-Keeps b c h t = record {
    run = λ s v.
        let w = s.output.world in
        let still = Quiet-IsCapturing G b c s (N.ws_send h t w).1 (W.send_quiet h t w) v in
        (
          still,
          λ e.
              let less = W.send_again h t w e in
              (
                omega (arith, less, v.budgeted),
                record {
                  chunks = still.chunks;
                  writing = still.writing;
                  made_lines = still.made_lines;
                  frames_counted = still.frames_counted;
                  budgeted = omega (arith, less, v.budgeted);
                  timed = still.timed;
                },
              ),
        );
  }

  -- The state after a send by its answer: where it was put off, the budget is smaller.
  abbrev IsSent : ℕ → ℕ → Bool → CaptureState F → Type 0
  IsSent b c again s = IsCapturing G b c s × (again ≡ true → (1 ≤ b) × IsCapturing G (b - 1) c s)

  module _ (fuel b c : ℕ) (h : N.Handle) (t : Bytes) (n : 1 ≤ length t)
      (l : length t + b ≤ suc fuel) where
    -- The next round, over any text for which there is fuel.
    abbrev Again : Type 0
    Again = (t' : Bytes) (j : ℕ) → length t' + j ≤ fuel → Keeps G j c (send_all N options fuel h t')

    put_off-Keeps :
        (taken : ℕ)
        → Again
        → Hoare
            (IsSent b c true)
            (wait_for_rest N options h (drop taken t) >> send_all N options fuel h (drop taken t))
            (λ u. IsCapturing G b c)
            (IsCapturing G b c)
    put_off-Keeps taken again = record {
      run = λ s p.
          let (one, now) = p.1 refl in
          let rest = drop taken t in
          let fits : length rest + (b - 1) ≤ fuel =
            rw (length-drop taken t) (omega (arith, l, one)) in
          let more = IsCapturing-weaken G (b - 1) b c c in
          (Hoare-weaken (IsCapturing G (b - 1) c) (IsCapturing G (b - 1) c) _ _
              (λ u. IsCapturing G b c) _ (IsCapturing G b c)
              (bind-Keeps G (b - 1) c _ _ (wait_for_rest-Keeps (b - 1) c h rest)
                (λ u. again rest (b - 1) fits))
              (λ s v. v) (λ u s v. more s (omega arith) (omega arith) v)
              (λ s v. more s (omega arith) (omega arith) v)).run
            s now;
    }

    taken-Keeps :
        (taken : ℕ)
        → Again
        → Hoare
            (λ s. IsCapturing G b c s × (not (taken == 0) ≡ true))
            (send_all N options fuel h (drop taken t))
            (λ u. IsCapturing G b c)
            (IsCapturing G b c)
    taken-Keeps zero again = record { run = λ s p. absurd (ground (arith, p.1)) }
    taken-Keeps (suc m) again = record {
      run = λ s p.
          (again (drop (suc m) t) b (rw (length-drop (suc m) t) (omega (arith, l, n)))).run s p.0;
    }

    after_send-Keeps :
        (r : Sent)
        → Again
        → Hoare
            (IsSent b c (is_again r.code))
            (after_send N options (send_all N options fuel h) h t r)
            (λ u. IsCapturing G b c)
            (IsCapturing G b c)
    after_send-Keeps r again = go (is_again r.code)
      where
        go :
            (a : Bool)
            → Hoare
                (IsSent b c a)
                (if a
                  then (wait_for_rest N options h (drop r.taken t)
                      >> send_all N options fuel h (drop r.taken t))
                  else (check N options r.code (codes "send WebSocket frame")
                      >> (unless
                            (not (r.taken == 0))
                            (failure (codes "WebSocket send made no progress"))
                          >> send_all N options fuel h (drop r.taken t))))
                (λ u. IsCapturing G b c)
                (IsCapturing G b c)
        go true = put_off-Keeps r.taken again
        go false =
            Hoare-bind (IsSent b c false) _ _ (λ u. IsCapturing G b c) (λ u. IsCapturing G b c)
              (IsCapturing G b c)
              (Hoare-weaken (IsCapturing G b c) (IsSent b c false) _ (λ u. IsCapturing G b c) _
                (IsCapturing G b c) _ (unless-Keeps G b c _ _) (λ s p. p.0) (λ u s v. v) (λ s v. v))
              (λ u.
                Hoare-bind (IsCapturing G b c) _ _ _ (λ u. IsCapturing G b c) (IsCapturing G b c)
                  (Hoare-unless (not (r.taken == 0)) _ (IsCapturing G b c) (IsCapturing G b c)
                    (λ s v e. v))
                  (λ u. taken-Keeps r.taken again))

  -- With a round for every byte and every time that the send may be put off, `send_all` ends.
  pub send_all-Keeps :
      (fuel b c : ℕ) (h : N.Handle) (payload : Bytes)
      → length payload + b ≤ fuel
      → Keeps G b c (send_all N options fuel h payload)
  unfolding send_all
  send_all-Keeps fuel b c h [] l = pure-Keeps G b c tt
  send_all-Keeps zero b c h (x ∷ payload) l = absurd (omega (arith, l))
  send_all-Keeps (suc fuel) b c h (x ∷ payload) l =
      bind-Keeps G b c _ _ (throw_if_stopped-Keeps b c) (λ u.
        Hoare-bind (IsCapturing G b c) _ _ _ (λ a. IsCapturing G b c) (IsCapturing G b c)
          (ws_send-Keeps b c h (x ∷ payload))
          (λ r.
            after_send-Keeps fuel b c h (x ∷ payload) (omega arith) l r
              (λ t j. send_all-Keeps fuel j c h t)))
