-- ===== src/Live/Loop.antt =====
-- src/live.cpp: the two loops over the clock keep the state of the capture and come to an end.
use bengal_market.Base.{Bytes, [], arith, false, length, refl, suc, true, zero, ℕ, ◌+◌, ◌<◌, ◌≤◌}
use bengal_market.Effects.{
  Done, Hoare-bind, Hoare-weaken, Outcome, Result, capture_stopped, failure, out_of_fuel, raised,
  returned,
}
use bengal_market.Live.{
  CaptureState, after_failure, attempt, connection, count_failure, handle_end, maximum_message_size,
  pause, receive_loop, reconnect_loop,
}
use bengal_market.Live.Clock.{GoesOn, goes_on-Keeps, set-Keeps, while-Keeps}
use bengal_market.Live.Connect.{connect-Keeps}
use bengal_market.Live.Keeps.{
  IsCapturing, Keeps, Setting, ask-Keeps, bind-Keeps, if-Keeps, look-Keeps, pure-Keeps,
  unless-Keeps,
}
use bengal_market.Live.Receive.{take_received-KeepsText}
use bengal_market.Live.Send.{stopped-Keeps}

module _ (G : Setting) where
  open G use {F, V, N, W, options, head, k}

  module _ (limit : ℕ) (l : W.longest_text options + k ≤ limit) (l' : 1 + k ≤ limit) (b : ℕ)
      (lb : W.longest_text options + b ≤ limit) (deadline : ℕ) where
    pub receive_loop-Keeps :
        (fuel c : ℕ) (h : N.Handle) (message : Bytes)
        → 1 ≤ fuel
        → deadline < c + fuel
        → length message ≤ maximum_message_size
        → Keeps G b c (receive_loop N options fuel limit deadline h message)
    unfolding receive_loop
    receive_loop-Keeps zero c h message one late fits = absurd (omega (arith, one))
    receive_loop-Keeps (suc fuel) c h message one late fits = while-Keeps G b c deadline _ (λ early.
        bind-Keeps G b (suc c) _ _ (ask-Keeps G b (suc c) (N.ws_recv h) (W.recv_quiet h)) (λ r.
          Hoare-bind (IsCapturing G b (suc c)) _ _ _ (λ u. IsCapturing G b (suc c))
            (IsCapturing G b (suc c))
            (take_received-KeepsText G limit l l' b (suc c) h message r fits)
            (λ t. record {
              run = λ s p.
                  (receive_loop-Keeps fuel (suc c) h t (omega (arith, early, late))
                      (omega (arith, early, late)) p.1).run
                    s p.0;
            })))

    connection-Keeps :
        (fuel c : ℕ)
        → 1 ≤ fuel
        → deadline < c + fuel
        → Keeps G b c (connection N options fuel limit deadline)
    unfolding connection
    connection-Keeps fuel c one late =
        bind-Keeps G b c _ _ (connect-Keeps G limit b c lb)
          (λ h. receive_loop-Keeps fuel c h [] one late (omega arith))

    pause-Keeps : (attempts c : ℕ) → Keeps G b c (pause N options attempts)
    unfolding pause
    pause-Keeps zero c = pure-Keeps G b c tt
    pause-Keeps (suc attempts) c = bind-Keeps G b c _ _ (stopped-Keeps G b c) (λ stop.
        if-Keeps G b c stop _ _ (pure-Keeps G b c tt) (
          bind-Keeps G b c _ _ (ask-Keeps G b c N.sleep W.sleep_quiet)
            (λ u. pause-Keeps attempts c)))

    after_failure-Keeps :
        (c : ℕ) (what : Bytes) → Keeps G b c (after_failure N options deadline what)
    unfolding after_failure
    after_failure-Keeps c what =
        bind-Keeps G b c _ _ (set-Keeps G b c _ (λ s. refl) (λ s. refl)) (λ u.
          bind-Keeps G b c _ _
            (Hoare-weaken (IsCapturing G b c) (IsCapturing G b c) _ (GoesOn G b c deadline)
              (λ more. IsCapturing G b c) (IsCapturing G b c) (IsCapturing G b c)
              (goes_on-Keeps G b c deadline) (λ s v. v) (λ more s p. p.0) (λ s v. v))
            (λ more.
              if-Keeps G b c more _ _
                (bind-Keeps G b c _ _
                  (set-Keeps G b c (count_failure N options) (λ s. refl) (λ s. refl))
                  (λ u.
                    bind-Keeps G b c _ _ (look-Keeps G b c (λ s. s.consecutive_failures))
                      (λ failures. bind-Keeps G b c _ _ (unless-Keeps G b c _ _) (λ u.
                        bind-Keeps G b c _ _ (pause-Keeps 25 c) (λ u. pure-Keeps G b c true)))))
                (pure-Keeps G b c false)))

    attempt-Keeps :
        (fuel c : ℕ)
        → 1 ≤ fuel
        → deadline < c + fuel
        → Keeps G b c (attempt N options fuel limit deadline)
    unfolding attempt
    attempt-Keeps fuel c one late = record {
      run = λ s v.
          go (connection N options fuel limit deadline s)
            ((connection-Keeps fuel c one late).run s v);
    }
      where
        go :
            (o : Result Done × CaptureState F)
            → Outcome (λ u. IsCapturing G b c) (IsCapturing G b c) o
            → Outcome
                (λ on. IsCapturing G b c)
                (IsCapturing G b c)
                (handle_end N options deadline o)
        go (returned u, s) v = v
        go (raised capture_stopped, s) v = v
        go (raised (failure what), s) v = (after_failure-Keeps c what).run s v
        go (out_of_fuel, s) v = v

    pub reconnect_loop-Keeps :
        (fuel inner c : ℕ)
        → 1 ≤ fuel
        → 1 ≤ inner
        → deadline < c + fuel
        → deadline < c + inner
        → Keeps G b c (reconnect_loop N options fuel inner limit deadline)
    unfolding reconnect_loop
    reconnect_loop-Keeps zero inner c one one' late late' = absurd (omega (arith, one))
    reconnect_loop-Keeps (suc fuel) inner c one one' late late' =
        while-Keeps G b c deadline _ (λ early.
          bind-Keeps G b (suc c) _ _ (set-Keeps G b (suc c) _ (λ s. refl) (λ s. refl)) (λ u.
            bind-Keeps G b (suc c) _ _ (attempt-Keeps inner (suc c) one' (omega (arith, late')))
              (λ on.
                if-Keeps G b (suc c) on _ _
                  (reconnect_loop-Keeps fuel inner (suc c) (omega (arith, early, late)) one'
                    (omega (arith, late)) (omega (arith, late')))
                  (pure-Keeps G b (suc c) tt))))
