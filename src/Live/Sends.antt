-- ===== src/Live/Sends.antt =====
-- src/live.cpp `send_all`: the loop sends the payload, whole and once.
use bengal_market.AtomicOutput.{FileSystem}
use bengal_market.AtomicOutput.Posix.{IsPosix}
use bengal_market.Base.{
  Bool, Bytes, [], ap, append-nil, arith, drop, false, length, length-drop, not, refl, suc, sym,
  take, true, zero, ℕ, ◌++◌, ◌+◌, ◌-◌, ◌==◌, ◌||◌, ◌∙◌, ◌∷◌, ◌≡◌, ◌≤◌,
}
use bengal_market.Effects.{Done, Guards-then, Hoare, Outcome, Result, ◌>>=◌, ◌>>◌}
use bengal_market.Live.{
  CaptureOptions, CaptureState, Network, Sent, after_send, ask, is_again, is_fine, send_all,
  wait_for_rest,
}
use bengal_market.Live.Laws.{IsNetwork}
use bengal_market.Live.Wire.{
  IsPart, IsWire, Sending, rest-Hoare, throw_if_stopped-Guards, wait_for_rest-Guards,
}

module _ {F : FileSystem} {V : IsPosix F} {N : Network F} (W : IsNetwork V N) (X : IsWire N)
    (options : CaptureOptions) where
  -- A round on the text `t` that is left, with `b` more delays.
  module _ (fuel : ℕ) (h : N.Handle) (p t : Bytes) (b : ℕ) (n : 1 ≤ length t)
      (l : length t + b ≤ suc fuel) where
    abbrev Again : Type 0
    Again =
        (p' t' : Bytes) (b' : ℕ)
        → length t' + b' ≤ fuel
        → Hoare (Sending W X options p' b') (send_all N options fuel h t')
            (λ u s. X.wire s.output.world ≡ p' ++ t') (IsPart W X options p' t')

    put_off-Hoare :
        (again : Again) (m : ℕ)
        → 1 ≤ b
        → Hoare
            (Sending W X options (p ++ take m t) (b - 1))
            (wait_for_rest N options h (drop m t) >> send_all N options fuel h (drop m t))
            (λ u s. X.wire s.output.world ≡ p ++ t)
            (IsPart W X options p t)
    put_off-Hoare again m one =
        let fits : length (drop m t) + (b - 1) ≤ fuel =
          rw (length-drop m t) (omega (arith, l, one)) in
        rest-Hoare W X options p t m (b - 1) _ (
          Guards-then (wait_for_rest-Guards W X options (p ++ take m t) (b - 1) h (drop m t))
            (λ s v. (0, v.0 ∙ sym (append-nil _)))
            (λ u e. again (p ++ take m t) (drop m t) (b - 1) fits))

    went_on-Hoare :
        (again : Again) (m : ℕ)
        → not (m == 0) ≡ true
        → Hoare
            (Sending W X options (p ++ take m t) b)
            (send_all N options fuel h (drop m t))
            (λ u s. X.wire s.output.world ≡ p ++ t)
            (IsPart W X options p t)
    went_on-Hoare again zero e = absurd (ground (arith, e))
    went_on-Hoare again (suc m) e = rest-Hoare W X options p t (suc m) b _ (
        again (p ++ take (suc m) t) (drop (suc m) t) b
          (rw (length-drop (suc m) t) (omega (arith, l, n))))

    -- From the answer of the network library on.
    answered :
        (again : Again) (s : CaptureState F)
        → Sending W X options p b s
        → Outcome
            (λ u s. X.wire s.output.world ≡ p ++ t)
            (IsPart W X options p t)
            ((ask N options (N.ws_send h t)
                >>= after_send N options (send_all N options fuel h) h t)
              s)
    unfolding ◌>>=◌
    answered again s v = go (is_again r.code) (is_fine r.code) (not (r.taken == 0)) refl refl refl
      where
        w : F.World
        w = s.output.world

        r : Sent
        r = (N.ws_send h t w).0

        next : CaptureState F
        next = record s { output = record s.output { world = (N.ws_send h t w).1 } }

        Goal : Result Done × CaptureState F → Type 0
        Goal = Outcome (λ u s. X.wire s.output.world ≡ p ++ t) (IsPart W X options p t)

        took :
            (is_again r.code || is_fine r.code) ≡ true
            → X.wire next.output.world ≡ p ++ take r.taken t
        took e = X.send_wire h t w e ∙ ap (λ p. p ++ take r.taken t) v.0

        part : IsPart W X options p t next
        part = let (k, e) = X.failed_wire h t w in (k, e ∙ ap (λ p. p ++ take k t) v.0)

        go :
            (a f z : Bool)
            → is_again r.code ≡ a
            → is_fine r.code ≡ f
            → not (r.taken == 0) ≡ z
            → Goal (after_send N options (send_all N options fuel h) h t r next)
        go true f z ea ef ez =
            let less = W.send_again h t w ea in
            rw ea (
              (put_off-Hoare again r.taken (omega (arith, less, v.1))).run next
                (took (λ i. ea i || is_fine r.code), omega (arith, less, v.1)))
        go false true true ea ef ez =
            rw (ea, ef, ez)
              ((went_on-Hoare again r.taken ez).run next
                (took (λ i. ea i || ef i), omega (arith, v.1, (W.send_quiet h t w).budget_le)))
        go false true false ea ef ez = rw (ea, ef, ez) part
        go false false z ea ef ez = rw (ea, ef) part

  send_all-Hoare :
      (fuel : ℕ) (h : N.Handle) (p t : Bytes) (b : ℕ)
      → length t + b ≤ fuel
      → Hoare
          (Sending W X options p b)
          (send_all N options fuel h t)
          (λ u s. X.wire s.output.world ≡ p ++ t)
          (IsPart W X options p t)
  unfolding send_all
  send_all-Hoare fuel h p [] b l = record { run = λ s v. v.0 ∙ sym (append-nil p) }
  send_all-Hoare zero h p (c ∷ t) b l = absurd (omega (arith, l))
  send_all-Hoare (suc fuel) h p (c ∷ t) b l =
      Guards-then (throw_if_stopped-Guards W X options p b) (λ s v. (0, v.0 ∙ sym (append-nil p)))
        (λ u e. record {
          run = λ s v.
              answered fuel h p (c ∷ t) b (omega arith) l
                (λ p' t' b' l'. send_all-Hoare fuel h p' t' b' l') s v;
        })

  -- Over a network library that does what it documents, with a round for each byte and for each time
  -- that a send is put off, send_all ends. Where it returns, the connection has taken the payload,
  -- whole and once; where it throws, a first part of it.
  pub send_all-sends :
      (h : N.Handle) (payload : Bytes) (s : CaptureState F)
      → Outcome
          (λ u s'. X.wire s'.output.world ≡ X.wire s.output.world ++ payload)
          (λ s'. (k : ℕ) × (X.wire s'.output.world ≡ X.wire s.output.world ++ take k payload))
          (send_all N options (length payload + W.budget s.output.world) h payload s)
  send_all-sends h payload s =
      (send_all-Hoare (length payload + W.budget s.output.world) h (X.wire s.output.world) payload
          (W.budget s.output.world) (omega arith)).run
        s (refl, omega arith)
