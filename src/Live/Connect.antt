-- ===== src/Live/Connect.antt =====
-- src/live.cpp `connect`: it keeps the state of the capture and comes to an end.
use bengal_market.Base.{
  Bytes, List, Option, [], arith, codes, none, refl, some, ℕ, ◌+◌, ◌∷◌, ◌≡◌, ◌≤◌,
}
use bengal_market.Effects.{Action, failure, pure, raise, ◌>>=◌, ◌>>◌}
use bengal_market.Live.{
  CaptureState, CurlCode, connect, option_names, or_fail, send_all, set_options, subscribe_value,
  throw_if_aborted,
}
use bengal_market.Live.Keeps.{
  Keeps, Setting, ask-Keeps, bind-Keeps, if-Keeps, pure-Keeps, raise-Keeps, unless-Keeps,
}
use bengal_market.Live.Send.{send_all-Keeps, throw_if_stopped-Keeps}

module _ (G : Setting) where
  open G use {F, N, W, options}

  set_options-Keeps :
      (b c : ℕ) (h : N.Handle) (names : List Bytes) → Keeps G b c (set_options N options h names)
  unfolding set_options
  set_options-Keeps b c h [] = pure-Keeps G b c tt
  set_options-Keeps b c h (name ∷ names) =
      bind-Keeps G b c _ _ (ask-Keeps G b c (N.setopt h name) (W.setopt_quiet h name))
        (λ code. bind-Keeps G b c _ _ (unless-Keeps G b c _ _) (λ u. set_options-Keeps b c h names))

  throw_if_aborted-Keeps :
      (b c : ℕ) (code : CurlCode) → Keeps G b c (throw_if_aborted N options code)
  unfolding throw_if_aborted
  throw_if_aborted-Keeps b c code =
      if-Keeps G b c _ _ _ (throw_if_stopped-Keeps G b c) (pure-Keeps G b c tt)

  made-Keeps :
      (b c : ℕ) (made : Option N.Handle)
      → Keeps G b c (elim made as (λ m. Action (CaptureState F) N.Handle) [
        | none ↦ raise (failure (codes "curl handle allocation failed"))
        | some handle ↦ pure handle
      ])
  made-Keeps b c none = raise-Keeps G b c _
  made-Keeps b c (some handle) = pure-Keeps G b c handle

  -- A text that could be made is sent.
  subscribe-Keeps :
      {A : Type 0} (limit b c : ℕ) (h : N.Handle) (channel : Bytes)
      → W.longest_text options + b ≤ limit
      → (k : Action (CaptureState F) A) → Keeps G b c k
      → Keeps G b c (
          or_fail N options (N.dump (subscribe_value options channel)) >>= λ text.
          send_all N options limit h text >> k)
  unfolding ◌>>=◌
  subscribe-Keeps limit b c h channel l k kk = go (N.dump (subscribe_value options channel)) refl
    where
      go :
          (o : Option Bytes)
          → N.dump (subscribe_value options channel) ≡ o
          → Keeps G b c (or_fail N options o >>= λ text. send_all N options limit h text >> k)
      go none e = record { run = λ s v. v }
      go (some text) e = record {
        run =
            (bind-Keeps G b c _ _
              (send_all-Keeps G limit b c h text
                (omega (arith, l, W.subscribe_length options channel text e)))
              (λ u. kk)).run;
      }

  pub connect-Keeps :
      (limit b c : ℕ) → W.longest_text options + b ≤ limit → Keeps G b c (connect N options limit)
  unfolding connect
  connect-Keeps limit b c l =
      bind-Keeps G b c _ _ (ask-Keeps G b c N.easy_init W.easy_quiet) (λ made.
        bind-Keeps G b c _ _ (made-Keeps b c made) (λ h.
          bind-Keeps G b c _ _ (set_options-Keeps b c h (option_names N options)) (λ u.
            bind-Keeps G b c _ _ (ask-Keeps G b c (N.perform h) (W.perform_quiet h)) (λ code.
              bind-Keeps G b c _ _ (throw_if_aborted-Keeps b c code) (λ u.
                bind-Keeps G b c _ _ (unless-Keeps G b c _ _) (λ u.
                  subscribe-Keeps limit b c h _ l _
                    (subscribe-Keeps limit b c h _ l _ (pure-Keeps G b c h))))))))
