-- ===== src/Cli/Program/Refused.antt =====
-- src/main.cpp `main`: what a wrong command line leads to.
use bengal_market.Base.{
  Bool, Bytes, List, Option, [], ap, codes, false, inl, inr, none, refl, some, true, ◌∷◌, ◌≡◌, ◌⊎◌,
}
use bengal_market.Cli.{Arguments, parse_arguments, reject_unknown, required}
use bengal_market.Cli.Program.{
  Parts, benchmark_command, capture_command, compare_command, dispatch, exit_of, generate_command,
  main, or_invalid, replay_command, run_command,
}
use bengal_market.Effects.{Action, Fault, failure, raised, returned, unless, ◌>>=◌, ◌>>◌}

pub data CommandName : Type 0 where
  generate replay compare benchmark capture : CommandName

abbrev pub name_of : CommandName → Bytes
name_of generate = codes "generate"
name_of replay = codes "replay"
name_of compare = codes "compare"
name_of benchmark = codes "benchmark"
name_of capture = codes "capture"

-- The options that a command takes, as the usage lists them.
abbrev pub options_of : CommandName → List Bytes
options_of generate = codes "output" ∷ codes "events" ∷ codes "product" ∷ []
options_of replay = codes "input" ∷ codes "engine" ∷ []
options_of compare = codes "input" ∷ []
options_of benchmark = codes "input" ∷ codes "output" ∷ codes "runs" ∷ codes "warmup" ∷ []
options_of capture = codes "output" ∷ codes "product" ∷ codes "duration" ∷ codes "endpoint" ∷ []

-- Those that it cannot do without.
abbrev pub IsMissing : CommandName → Arguments → Type 0
IsMissing generate options = required options (codes "output") ≡ none
IsMissing replay options = required options (codes "input") ≡ none
IsMissing compare options = required options (codes "input") ≡ none
IsMissing benchmark options =
    (required options (codes "input") ≡ none) ⊎ (required options (codes "output") ≡ none)
IsMissing capture options = required options (codes "output") ≡ none

abbrev pub IsWrong : CommandName → Arguments → Type 0
IsWrong c options = (reject_unknown options (options_of c) ≡ false) ⊎ IsMissing c options

module _ (P : Parts) (s : P.World) where
  -- The call throws before it does anything.
  record Refuses {A : Type 0} (m : Action P.World A) : Type 0 where
    why : Fault
    refused : m s ≡ (raised why, s)

  unless-Refuses :
      {B : Type 0} (t : Bool) (e : Fault) (k : Action P.World B)
      → (t ≡ false) ⊎ Refuses k
      → Refuses (unless t e >> k)
  unfolding ◌>>=◌
  unless-Refuses false e k h = record { why = e; refused = refl }
  unless-Refuses true e k (inl h) = cc h
  unless-Refuses true e k (inr h) = record { why = h.why; refused = h.refused }

  later-Refuses :
      {A B : Type 0} (o : Option A) (k : A → Action P.World B)
      → ((a : A) → Refuses (k a))
      → Refuses (or_invalid P o >>= k)
  unfolding ◌>>=◌
  later-Refuses none k h = record { why = failure (codes "invalid argument"); refused = refl }
  later-Refuses (some a) k h = record { why = (h a).why; refused = (h a).refused }

  none-Refuses :
      {A B : Type 0} (o : Option A) (k : A → Action P.World B)
      → o ≡ none
      → Refuses (or_invalid P o >>= k)
  unfolding ◌>>=◌
  none-Refuses none k e = record { why = failure (codes "invalid argument"); refused = refl }
  none-Refuses (some a) k e = cc e

  run_command-Refuses :
      (c : CommandName) (options : Arguments)
      → IsWrong c options
      → Refuses (run_command P (name_of c) options)
  unfolding run_command generate_command replay_command compare_command benchmark_command
      capture_command
  run_command-Refuses generate options (inl h) = unless-Refuses _ _ _ (inl h)
  run_command-Refuses generate options (inr h) = unless-Refuses _ _ _ (inr (none-Refuses _ _ h))
  run_command-Refuses replay options (inl h) = unless-Refuses _ _ _ (inl h)
  run_command-Refuses replay options (inr h) =
      unless-Refuses _ _ _ (inr (later-Refuses _ _ (λ engine. none-Refuses _ _ h)))
  run_command-Refuses compare options (inl h) = unless-Refuses _ _ _ (inl h)
  run_command-Refuses compare options (inr h) = unless-Refuses _ _ _ (inr (none-Refuses _ _ h))
  run_command-Refuses benchmark options (inl h) = unless-Refuses _ _ _ (inl h)
  run_command-Refuses benchmark options (inr (inl h)) =
      unless-Refuses _ _ _ (inr (none-Refuses _ _ h))
  run_command-Refuses benchmark options (inr (inr h)) =
      unless-Refuses _ _ _ (inr (later-Refuses _ _ (λ input. none-Refuses _ _ h)))
  run_command-Refuses capture options (inl h) = unless-Refuses _ _ _ (inl h)
  run_command-Refuses capture options (inr h) =
      unless-Refuses _ _ _ (inr (unless-Refuses _ _ _ (inr (none-Refuses _ _ h))))

  -- What `main` says, and its exit code.
  pub record IsRefused (words : List Bytes) : Type 0 where
    pub fault : Fault
    pub exits : main P words s ≡ (returned 2, (P.complain fault s).1)

  IsRefused-exit : (words : List Bytes) → Refuses (dispatch P words) → IsRefused words
  unfolding main
  IsRefused-exit words h = record { fault = h.why; exits = ap (exit_of P) h.refused }

  -- A command with words behind it that cannot be read as options, or that name an option which the
  -- command does not take, or lack one that it needs: `main` writes the line of the exception and
  -- returns 2, and has called nothing else.
  pub main-IsRefused :
      (c : CommandName) (word : Bytes) (words : List Bytes)
      → ((options : Arguments) → parse_arguments (word ∷ words) ≡ some options → IsWrong c options)
      → IsRefused (name_of c ∷ word ∷ words)
  unfolding dispatch ◌>>=◌
  main-IsRefused c word words h =
      IsRefused-exit (name_of c ∷ word ∷ words) (go (parse_arguments (word ∷ words)) refl)
    where
      go :
          (o : Option Arguments)
          → parse_arguments (word ∷ words) ≡ o
          → Refuses (or_invalid P o >>= run_command P (name_of c))
      go none e = record { why = failure (codes "invalid argument"); refused = refl }
      go (some options) e =
          let r = run_command-Refuses c options (h options e) in
          record { why = r.why; refused = r.refused }
