-- ===== src/Benchmark/Laws.antt =====
-- What src/benchmark.cpp relies on in the calls of Host: a name comes into being only by a call on a
-- path at or below it, a file holds what its stream was given once the flush at its close is done, and a wait is interrupted only so often.
use bengal_market.Base.{
  Bool, Bytes, List, [], eq_text, false, if◌then◌else◌, some, take, true, ℕ, ◌++◌, ◌<◌, ◌==◌, ◌||◌,
  ◌∷◌, ◌≡◌, ◌≢◌,
}
use bengal_market.Benchmark.Host.{Host, Status, wait_interrupted, ◌//◌}
use bengal_market.Benchmark.Machine.{starts_with}

abbrev pub ends_in_slash : Bytes → Bool
ends_in_slash [] = false
ends_in_slash (c ∷ []) = c == b'/'
ends_in_slash (c ∷ d ∷ s) = ends_in_slash (d ∷ s)

-- The path `p` is `q` or stands below it.
abbrev pub lies_under : Bytes → Bytes → Bool
lies_under q p = eq_text q p || starts_with p (if ends_in_slash q then q else q // [])

pub record IsHost (H : Host) (fuel : ℕ) : Type 1 where
  pub create_directories_absent :
      (p q : Bytes) (w : H.World)
      → lies_under q p ≡ false
      → H.exists q w ≡ false
      → H.exists q (H.create_directories p w).1 ≡ false
  pub truncate_absent :
      (p q : Bytes) (w : H.World)
      → lies_under q p ≡ false
      → H.exists q w ≡ false
      → H.exists q (H.truncate p w).1 ≡ false
  pub open_output_absent :
      (p q : Bytes) (w : H.World)
      → lies_under q p ≡ false
      → H.exists q w ≡ false
      → H.exists q (H.open_output p w).1 ≡ false
  pub write_absent :
      (p t q : Bytes) (w : H.World) → H.exists q w ≡ false → H.exists q (H.write p t w).1 ≡ false
  pub close_stream_absent :
      (p q : Bytes) (w : H.World) → H.exists q w ≡ false → H.exists q (H.close_stream p w).1 ≡ false
  pub remove_absent :
      (p q : Bytes) (w : H.World) → H.exists q w ≡ false → H.exists q (H.remove p w).1 ≡ false
  pub dup2_absent :
      (a b : ℕ) (q : Bytes) (w : H.World)
      → H.exists q w ≡ false
      → H.exists q (H.dup2 a b w).1 ≡ false
  pub close_absent :
      (a : ℕ) (q : Bytes) (w : H.World) → H.exists q w ≡ false → H.exists q (H.close a w) ≡ false
  pub setenv_absent :
      (name value q : Bytes) (w : H.World)
      → H.exists q w ≡ false
      → H.exists q (H.setenv name value w) ≡ false
  -- The programs write only to the two files that they are given.
  pub execv_absent :
      (executable : Bytes) (arguments : List Bytes) (q : Bytes) (w : H.World)
      → H.exists q w ≡ false
      → H.exists q (H.execv executable arguments w).1 ≡ false
  pub fork_absent :
      (child : H.World → Status × H.World) (q : Bytes) (w : H.World)
      → ((w : H.World) → H.exists q w ≡ false → H.exists q (child w).1 ≡ false)
      → H.exists q w ≡ false
      → H.exists q (H.fork child w).1 ≡ false
  pub waitpid_absent :
      (child : ℕ) (q : Bytes) (w : H.World)
      → H.exists q w ≡ false
      → H.exists q (H.waitpid child w).1 ≡ false
  -- A rename that fails makes no name; one that is done moves what stands below the old one.
  pub rename_absent :
      (a b : Bytes) (w : H.World)
      → (H.rename a b w).0 ≡ false
      → H.exists b w ≡ false
      → H.exists b (H.rename a b w).1 ≡ false
  pub renamed :
      (a b name : Bytes) (w : H.World)
      → (H.rename a b w).0 ≡ true
      → H.content (b // name) (H.rename a b w).1 ≡ H.content (a // name) w
  -- What the stream on a file has been given. Its `write` may leave that in a buffer.
  pub pending : Bytes → H.World → Bytes
  pub truncated :
      (p : Bytes) (w : H.World) → (H.truncate p w).0 ≡ true → pending p (H.truncate p w).1 ≡ []
  pub written :
      (p t : Bytes) (w : H.World)
      → (H.write p t w).0 ≡ true
      → pending p (H.write p t w).1 ≡ pending p w ++ t
  -- A close whose flush is done leaves all of it in the file, and another one a front of it.
  pub closed :
      (p : Bytes) (w : H.World)
      → (H.close_stream p w).0 ≡ true
      → H.content p (H.close_stream p w).1 ≡ some (pending p w)
  pub torn :
      (p : Bytes) (w : H.World)
      → (H.close_stream p w).0 ≡ false
      → (k : ℕ) × (H.content p (H.close_stream p w).1 ≡ some (take k (pending p w)))
  pub truncate_keeps :
      (p q : Bytes) (w : H.World) → p ≢ q → H.content q (H.truncate p w).1 ≡ H.content q w
  pub write_keeps :
      (p t q : Bytes) (w : H.World) → p ≢ q → H.content q (H.write p t w).1 ≡ H.content q w
  pub close_stream_keeps :
      (p q : Bytes) (w : H.World) → p ≢ q → H.content q (H.close_stream p w).1 ≡ H.content q w
  -- How often waits may still be interrupted.
  pub patience : H.World → ℕ
  pub patience_bound : (w : H.World) → patience w < fuel
  pub waitpid_interrupted :
      (child : ℕ) (w : H.World)
      → (H.waitpid child w).0 ≡ wait_interrupted
      → patience (H.waitpid child w).1 < patience w
