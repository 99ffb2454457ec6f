-- ===== src/Benchmark/Absent.antt =====
-- src/benchmark.cpp: the calls of a benchmark before its last one do not make the output.
use bengal_market.Base.{
  Bool, Bytes, List, Option, [], arith, codes, false, if◌then◌else◌, none, refl, some, suc, true,
  zero, ℕ, ◌<◌, ◌==◌, ◌∷◌, ◌≡◌,
}
use bengal_market.Benchmark.Guards.{
  IsBeside, IsBeside-lies_under, answered-Guards, below-IsBeside, carry_out-Guards, demand-Guards,
  ignored-Guards, query-Guards,
}
use bengal_market.Benchmark.Host.{
  Host, Status, Waited, carry_out, exited, wait_ended, wait_failed, wait_interrupted, ◌//◌,
}
use bengal_market.Benchmark.Laws.{IsHost}
use bengal_market.Benchmark.Process.{
  read_text, redirect, replace_child, run_child, run_process, sha256, wait_loop, write_text,
}
use bengal_market.Effects.{
  Guards, Guards-bind, Guards-pure, Guards-raise, Guards-unless, Guards-weaken, Hoare, Hoare-weaken,
  Outcome, failure, pure, raise, ◌>>=◌,
}

module _ {H : Host} {fuel : ℕ} (V : IsHost H fuel) (q : Bytes) where
  abbrev pub Absent : H.World → Type 0
  Absent s = H.exists q s ≡ false

  pub read_text-Guards : (path : Bytes) → Guards Absent (read_text H path) (λ t. Unit {0})
  unfolding read_text
  read_text-Guards path =
      Guards-bind (carry_out-Guards H (λ s. (H.readable path s, s)) _ (λ s p. p))
        (λ u e. Guards-weaken (query-Guards H (H.content path) _) (λ a p. tt))

  pub write_text-Guards :
      (path value : Bytes)
      → IsBeside q path
      → Guards Absent (write_text H path value) (λ u. Unit {0})
  unfolding write_text
  write_text-Guards path value b =
      Guards-bind
        (carry_out-Guards H (H.truncate path) _
          (λ s. V.truncate_absent path q s (IsBeside-lies_under q path b)))
        (λ u e.
          Guards-bind (answered-Guards H (H.write path value) (V.write_absent path value q))
            (λ good e.
              Guards-bind (ignored-Guards H (H.close_stream path) (V.close_stream_absent path q))
                (λ u e. Guards-weaken (Guards-unless _) (λ a p. tt))))

  pub remove-Guards :
      (path what : Bytes) → Guards Absent (carry_out H (H.remove path) what) (λ u. Unit {0})
  remove-Guards path what = carry_out-Guards H (H.remove path) what (V.remove_absent path q)

  redirect-Absent : (a b : ℕ) (s : H.World) → Absent s → Absent (redirect H a b s).1
  redirect-Absent a b s p = go (H.dup2 a 1 s).0
    where
      go :
          (c : Bool)
          → Absent (if c then H.dup2 b 2 (H.dup2 a 1 s).1 else (false, (H.dup2 a 1 s).1)).1
      go true = V.dup2_absent b 2 q _ (V.dup2_absent a 1 q s p)
      go false = V.dup2_absent a 1 q s p

  run_child-Absent :
      (executable : Bytes) (arguments : List Bytes) (out err : Bytes)
      → IsBeside q out
      → IsBeside q err
      → (s : H.World) → Absent s
      → Absent (run_child H executable arguments out err s).1
  unfolding run_child
  run_child-Absent executable arguments out err b b' s p =
      go (H.open_output out s).0 (H.open_output err (H.open_output out s).1).0 _ after
    where
      after : Absent (H.open_output err (H.open_output out s).1).1
      after =
          V.open_output_absent err q _ (IsBeside-lies_under q err b')
            (V.open_output_absent out q s (IsBeside-lies_under q out b) p)

      replaced :
          (x y : ℕ) (s : H.World) → Absent s → Absent (replace_child H executable arguments x y s).1
      replaced x y s p =
          V.execv_absent executable (executable ∷ arguments) q _
            (V.setenv_absent _ _ q _ (V.close_absent y q _ (V.close_absent x q s p)))

      ready :
          (x y : ℕ) (r : Bool × H.World)
          → Absent r.1
          → Absent
              (if r.0 then replace_child H executable arguments x y r.1 else (exited 126, r.1)).1
      ready x y (true, s) p = replaced x y s p
      ready x y (false, s) p = p

      go :
          (o o' : Option ℕ) (s : H.World)
          → Absent s
          → Absent
              (elim o as (λ o. Status × H.World) [
                | none ↦ (exited 126, s)
                | some output_fd ↦ elim o' as (λ o. Status × H.World) [
                  | none ↦ (exited 126, s)
                  | some error_fd ↦
                      let ready = redirect H output_fd error_fd s in
                      if ready.0
                      then replace_child H executable arguments output_fd error_fd ready.1
                      else (exited 126, ready.1)
                ]
              ]).1
      go none o' s p = p
      go (some x) none s p = p
      go (some x) (some y) s p = ready x y (redirect H x y s) (redirect-Absent x y s p)

  -- The wait ends, since it is interrupted only so often.
  wait_loop-Hoare :
      (n child : ℕ)
      → Hoare
          (λ s. Absent s × (V.patience s < n))
          (wait_loop H n child)
          (λ a s. Absent s × Unit {0})
          Absent
  unfolding wait_loop ◌>>=◌
  wait_loop-Hoare zero child = record { run = λ s p. absurd (omega (arith, p.1)) }
  wait_loop-Hoare (suc n) child = record {
    run = λ s p.
        go s (H.waitpid child s).0 (V.waitpid_absent child q s p.0)
          (λ e.
            (wait_loop-Hoare n child).run (H.waitpid child s).1
              (V.waitpid_absent child q s p.0, omega (arith, p.1, V.waitpid_interrupted child s e)))
          refl;
  }
    where
      go :
          (s : H.World) (w : Waited)
          → Absent (H.waitpid child s).1
          → ((H.waitpid child s).0 ≡ wait_interrupted
              → Outcome
                  (λ a s. Absent s × Unit {0})
                  Absent
                  (wait_loop H n child (H.waitpid child s).1))
          → (H.waitpid child s).0 ≡ w
          → Outcome (λ a s. Absent s × Unit {0}) Absent (wait_loop H (suc n) child s)
      go s (wait_ended status) p k e = rw e (p, tt)
      go s wait_interrupted p k e = rw e (k e)
      go s wait_failed p k e = rw e p

  pub run_process-Guards :
      (executable : Bytes) (arguments : List Bytes) (out err : Bytes)
      → IsBeside q out
      → IsBeside q err
      → Guards Absent (run_process H fuel executable arguments out err) (λ code. Unit {0})
  unfolding run_process
  run_process-Guards executable arguments out err b b' =
      Guards-bind {Q = λ child. Unit {0}}
        (record {
          run = λ s p.
              (V.fork_absent _ q s (run_child-Absent executable arguments out err b b') p, tt);
        })
        (λ child u. Guards-bind (demand-Guards H child _) (λ pid e.
          Guards-bind
            (Hoare-weaken _ Absent _ _ _ _ _ (wait_loop-Hoare fuel pid)
              (λ s p. (p, V.patience_bound s)) (λ a s p. p) (λ s p. p))
            (λ status u. Guards-pure tt)))

  pub sha256-Guards :
      (input working : Bytes)
      → IsBeside q working
      → Guards Absent (sha256 H fuel input working) (λ digest. Unit {0})
  unfolding sha256
  sha256-Guards input working b =
      let beside : (name : Bytes) → IsBeside q (working // name) =
        λ name. below-IsBeside q working name b in
      Guards-bind
        (run_process-Guards _ (input ∷ []) _ _ (beside (codes "sha256.stdout"))
          (beside (codes "sha256.stderr")))
        (λ code u. Guards-bind (checked (code == 0) (working // codes "sha256.stderr")) (λ u e.
          Guards-bind (read_text-Guards _) (λ text u. Guards-bind (remove-Guards _ _) (λ u e.
            Guards-bind (remove-Guards _ _)
              (λ u e. Guards-bind (Guards-unless _) (λ u e. Guards-pure tt))))))
    where
      checked :
          (c : Bool) (error : Bytes)
          → Guards Absent
              (if c
                then pure tt
                else read_text H error >>= λ text. raise (failure (codes "sha256sum failed: ")))
              (λ u. Unit {0})
      checked true error = Guards-pure tt
      checked false error = Guards-bind (read_text-Guards error) (λ text u. Guards-raise _)
