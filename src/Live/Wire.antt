-- ===== src/Live/Wire.antt =====
-- src/live.cpp `send_all`: what the connection takes.
use bengal_market.AtomicOutput.{FileSystem}
use bengal_market.AtomicOutput.Posix.{IsPosix}
use bengal_market.Base.{
  Bool, Bytes, [], ap, append_assoc, arith, drop, false, if◌then◌else◌, refl, suc, take,
  take-append-drop, true, zero, ℕ, ◌++◌, ◌+◌, ◌||◌, ◌∙◌, ◌∷◌, ◌≡◌, ◌≤◌,
}
use bengal_market.Cli.Program.{call}
use bengal_market.Effects.{
  Action, Done, Guards, Guards-bind, Guards-pure, Guards-unless, Guards-weaken, Hoare, Hoare-weaken,
  pure, ◌>>=◌,
}
use bengal_market.Live.{
  CaptureOptions, CaptureState, Network, ask, is_again, is_fine, or_true, stopped, throw_if_stopped,
  wait_for_rest, wait_socket,
}
use bengal_market.Live.Laws.{IsNetwork, Quiet}

-- The bytes that the connection has taken: those that an answer counts, and after a failed send some
-- first bytes. No other call that `send_all` makes sends any.
pub record IsWire {F : FileSystem} (N : Network F) : Type 0 where
  pub wire : F.World → Bytes
  pub stop_wire : (w : F.World) → wire (N.stop_requested w).1 ≡ wire w
  pub socket_wire : (h : N.Handle) (w : F.World) → wire (N.active_socket h w).1 ≡ wire w
  pub poll_wire : (h : N.Handle) (w : F.World) → wire (N.poll h w).1 ≡ wire w
  pub send_wire :
      (h : N.Handle) (t : Bytes) (w : F.World)
      → (is_again (N.ws_send h t w).0.code || is_fine (N.ws_send h t w).0.code) ≡ true
      → wire (N.ws_send h t w).1 ≡ wire w ++ take (N.ws_send h t w).0.taken t
  pub failed_wire :
      (h : N.Handle) (t : Bytes) (w : F.World)
      → (k : ℕ) × (wire (N.ws_send h t w).1 ≡ wire w ++ take k t)

take_nil : (n : ℕ) → [] ≡ take {A = ℕ} n []
take_nil zero = refl
take_nil (suc n) = refl

take-rest : (m k : ℕ) (t : Bytes) → take m t ++ take k (drop m t) ≡ take (m + k) t
take-rest zero k t = ap (λ n. take n t) (omega arith)
take-rest (suc m) zero [] = take_nil (suc m + 0)
take-rest (suc m) (suc k) [] = take_nil (suc m + suc k)
take-rest (suc m) k (c ∷ t) =
    let e : suc m + k ≡ suc (m + k) = omega arith in rw e (ap (λ t. c ∷ t) (take-rest m k t))

module _ {F : FileSystem} {V : IsPosix F} {N : Network F} (W : IsNetwork V N) (X : IsWire N)
    (options : CaptureOptions) where
  -- The connection has taken `p`, and a send is put off at most `b` more times.
  abbrev pub Sending : Bytes → ℕ → CaptureState F → Type 0
  Sending p b s = (X.wire s.output.world ≡ p) × (W.budget s.output.world ≤ b)

  ask-Guards :
      {A : Type 0} (p : Bytes) (b : ℕ) (call : F.World → A × F.World)
      → ((w : F.World) → X.wire (call w).1 ≡ X.wire w)
      → ((w : F.World) → Quiet V W.clock W.budget w (call w).1)
      → Guards (Sending p b) (ask N options call) (λ a. Unit {0})
  ask-Guards p b call keeps quiet = record {
    run = λ s v.
        ((keeps s.output.world ∙ v.0, omega (arith, v.1, (quiet s.output.world).budget_le)), tt);
  }

  stopped-Guards : (p : Bytes) (b : ℕ) → Guards (Sending p b) (stopped N options) (λ a. Unit {0})
  unfolding stopped
  stopped-Guards p b = go options.stop_given
    where
      go :
          (given : Bool)
          → Guards
              (Sending p b)
              (if given
                then (ask N options N.stop_requested >>= λ o. pure (or_true N options o))
                else pure false)
              (λ a. Unit {0})
      go true =
          Guards-bind (ask-Guards p b N.stop_requested X.stop_wire W.stop_quiet)
            (λ o u. Guards-pure tt)
      go false = Guards-pure tt

  pub throw_if_stopped-Guards :
      (p : Bytes) (b : ℕ) → Guards (Sending p b) (throw_if_stopped N options) (λ u. Unit {0})
  unfolding throw_if_stopped
  throw_if_stopped-Guards p b =
      Guards-bind (stopped-Guards p b) (λ stop u. Guards-weaken (Guards-unless _) (λ u e. tt))

  wait_socket-Guards :
      (p : Bytes) (b : ℕ) (h : N.Handle)
      → Guards (Sending p b) (wait_socket N options h) (λ u. Unit {0})
  unfolding wait_socket
  wait_socket-Guards p b h = Guards-bind (throw_if_stopped-Guards p b) (λ u e.
      Guards-bind (ask-Guards p b (N.active_socket h) (X.socket_wire h) (W.socket_quiet h))
        (λ socket e. Guards-bind (Guards-unless _) (λ u e. Guards-bind (Guards-unless _) (λ u e.
          Guards-bind (ask-Guards p b (N.poll h) (X.poll_wire h) (W.poll_quiet h))
            (λ polled e. Guards-bind (Guards-unless _) (λ u e. throw_if_stopped-Guards p b))))))

  pub wait_for_rest-Guards :
      (p : Bytes) (b : ℕ) (h : N.Handle) (t : Bytes)
      → Guards (Sending p b) (wait_for_rest N options h t) (λ u. Unit {0})
  wait_for_rest-Guards p b h [] = Guards-pure tt
  wait_for_rest-Guards p b h (c ∷ t) = wait_socket-Guards p b h

  -- Some first bytes of `t` behind `p`.
  abbrev pub IsPart : Bytes → Bytes → CaptureState F → Type 0
  IsPart p t s = (k : ℕ) × (X.wire s.output.world ≡ p ++ take k t)

  -- A round that has sent `m` bytes goes on with the rest.
  pub rest-Hoare :
      (p t : Bytes) (m b : ℕ) (call : Action (CaptureState F) Done)
      → Hoare
          (Sending (p ++ take m t) b)
          call
          (λ u s. X.wire s.output.world ≡ (p ++ take m t) ++ drop m t)
          (IsPart (p ++ take m t) (drop m t))
      → Hoare (Sending (p ++ take m t) b) call (λ u s. X.wire s.output.world ≡ p ++ t) (IsPart p t)
  rest-Hoare p t m b call h =
      Hoare-weaken _ _ _ _ _ _ _ h (λ s v. v)
        (λ u s e.
          e ∙ append_assoc p (take m t) (drop m t) ∙ ap (λ t. p ++ t) (take-append-drop m t))
        (λ s e. (
          m + e.0,
          e.1
              ∙ append_assoc p (take m t) (take e.0 (drop m t))
              ∙ ap (λ t. p ++ t) (take-rest m e.0 t),
        ))
