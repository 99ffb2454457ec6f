-- ===== src/Benchmark/Process.antt =====
-- src/benchmark.cpp: `read_text`, `write_text`, `run_process` and `sha256`.
use bengal_market.Base.{
  Bool, Bytes, List, Option, [], codes, false, if◌then◌else◌, leb, length, ltb, none, not, some,
  suc, take, true, zero, ℕ, ◌&&◌, ◌+◌, ◌==◌, ◌||◌, ◌∷◌,
}
use bengal_market.Benchmark.Host.{
  Host, Status, Waited, answered, carry_out, demand, exited, ignored, other_status, query,
  signalled, wait_ended, wait_failed, wait_interrupted, ◌//◌,
}
use bengal_market.Effects.{
  Action, Done, cut_off, failure, pure, raise, returned, unless, ◌>>=◌, ◌>>◌,
}

module _ (H : Host) where
  open H use {World}

  unfoldable pub read_text : Bytes → Action World Bytes
  read_text path = do
    carry_out H (λ s. (H.readable path s, s)) (codes "cannot read file: ")
    query H (H.content path) (codes "failed reading file: ")

  -- The stream is closed at the end of the function, after a throw too.
  unfoldable pub write_text : Bytes → Bytes → Action World Done
  write_text path value = do
    carry_out H (H.truncate path) (codes "cannot create file: ")
    good ← answered H (H.write path value)
    ignored H (H.close_stream path)
    unless good (failure (codes "failed writing file: "))

  -- What the child does with its two files: the first refusal ends it.
  abbrev pub redirect : ℕ → ℕ → World → Bool × World
  redirect output_fd error_fd s =
      let first = H.dup2 output_fd 1 s in
      if first.0 then H.dup2 error_fd 2 first.1 else (false, first.1)

  abbrev pub replace_child : Bytes → List Bytes → ℕ → ℕ → World → Status × World
  replace_child executable arguments output_fd error_fd s =
      let ready = H.setenv (codes "LC_ALL") (codes "C") (H.close error_fd (H.close output_fd s)) in
      let run = H.execv executable (executable ∷ arguments) ready in
      (elim run.0 [ none ↦ exited 127 | some status ↦ status ], run.1)

  -- The branch of the child, from its fork to the end of its process.
  unfoldable pub run_child : Bytes → List Bytes → Bytes → Bytes → World → Status × World
  run_child executable arguments standard_output standard_error s =
      let output = H.open_output standard_output s in
      let error = H.open_output standard_error output.1 in
      elim output.0 [
        | none ↦ (exited 126, error.1)
        | some output_fd ↦ elim error.0 [
          | none ↦ (exited 126, error.1)
          | some error_fd ↦
              let ready = redirect output_fd error_fd error.1 in
              if ready.0
              then replace_child executable arguments output_fd error_fd ready.1
              else (exited 126, ready.1)
        ]
      ]

  -- The loop round `waitpid`.
  unfoldable pub wait_loop : ℕ → ℕ → Action World Status
  wait_loop zero child = cut_off
  wait_loop (suc fuel) child = waited >>= next (wait_loop fuel child)
    where
      waited : Action World Waited
      waited s = (returned (H.waitpid child s).0, (H.waitpid child s).1)

      next : Action World Status → Waited → Action World Status
      next again (wait_ended status) = pure status
      next again wait_interrupted = again
      next again wait_failed = raise (failure (codes "waitpid failed"))

  abbrev pub exit_code : Status → ℕ
  exit_code (exited code) = code
  exit_code (signalled signal) = 128 + signal
  exit_code other_status = 125

  unfoldable pub run_process : ℕ → Bytes → List Bytes → Bytes → Bytes → Action World ℕ
  unfolding run_child wait_loop
  run_process fuel executable arguments standard_output standard_error = do
    child ← forked (run_child executable arguments standard_output standard_error)
    pid ← demand H child (codes "fork failed")
    status ← wait_loop fuel pid
    pure (exit_code status)
    where
      forked : (World → Status × World) → Action World (Option ℕ)
      forked run s = (returned (H.fork run s).0, (H.fork run s).1)

  abbrev pub digest_digit : ℕ → Bool
  digest_digit value = (leb b'0' value && leb value b'9') || (leb b'a' value && leb value b'f')

  abbrev pub all_digits : Bytes → Bool
  all_digits [] = true
  all_digits (c ∷ text) = digest_digit c && all_digits text

  unfoldable pub sha256 : ℕ → Bytes → Bytes → Action World Bytes
  unfolding run_process read_text
  sha256 fuel input working = do
    let output = working // codes "sha256.stdout"
    let error = working // codes "sha256.stderr"
    code ← run_process fuel (codes "/usr/bin/sha256sum") (input ∷ []) output error
    check code error
    text ← read_text output
    carry_out H (H.remove output) (codes "filesystem error")
    carry_out H (H.remove error) (codes "filesystem error")
    unless (not (ltb (length text) 64 || not (all_digits (take 64 text))))
        (failure (codes "sha256sum returned an invalid digest"))
    pure (take 64 text)
    where
      check : ℕ → Bytes → Action World Done
      check code error =
          if code == 0
          then pure tt
          else read_text error >>= λ text. raise (failure (codes "sha256sum failed: "))
