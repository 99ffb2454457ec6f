-- ===== src/Benchmark/Host.antt =====
-- What src/benchmark.cpp calls of the system and of the standard library, over an unknown state of
-- the files and processes.
use bengal_market.Base.{Bool, Bytes, List, Option, if◌then◌else◌, none, some, ℕ, ◌++◌, ◌∷◌}
use bengal_market.Cli.Program.{call}
use bengal_market.Effects.{Action, Done, failure, raised, returned}

-- How a process has ended: the status that `waitpid` gives.
pub data Status : Type 0 where
  exited signalled : ℕ → Status
  other_status : Status

-- What `waitpid` answers: the child's status, `EINTR`, or another error.
pub data Waited : Type 0 where
  wait_ended : Status → Waited
  wait_interrupted wait_failed : Waited

pub record UnixName : Type 0 where
  pub sysname : Bytes
  pub release : Bytes
  pub machine : Bytes

-- `none` and `false` are errors.
pub record Host : Type 1 where
  pub World : Type 0
  pub canonical : Bytes → World → Option Bytes
  pub absolute : Bytes → World → Option Bytes
  pub exists : Bytes → World → Bool
  pub relative : Bytes → Bytes → World → Option Bytes
  pub file_size : Bytes → World → Option ℕ
  pub create_directories : Bytes → World → Bool × World
  pub remove : Bytes → World → Bool × World
  pub rename : Bytes → Bytes → World → Bool × World
  -- Whether a `std::ifstream` opens, and what it reads to its end.
  pub readable : Bytes → World → Bool
  pub content : Bytes → World → Option Bytes
  -- `std::ofstream` with `trunc`, `write` on the file that it has opened, and its destructor, which
  -- flushes and closes the file and tells no one how that went.
  pub truncate : Bytes → World → Bool × World
  pub write : Bytes → Bytes → World → Bool × World
  pub close_stream : Bytes → World → Bool × World
  -- The child runs the calls that it is given. The parent only waits for it, so they stand before
  -- all that the parent does next.
  pub fork : (World → Status × World) → World → Option ℕ × World
  pub waitpid : ℕ → World → Waited × World
  -- `::open` with `O_WRONLY | O_CREAT | O_TRUNC | O_CLOEXEC`.
  pub open_output : Bytes → World → Option ℕ × World
  pub dup2 : ℕ → ℕ → World → Bool × World
  pub close : ℕ → World → World
  pub setenv : Bytes → Bytes → World → World
  -- The end of the program that runs in the place of the child.
  pub execv : Bytes → List Bytes → World → Option Status × World
  pub uname : World → Option UnixName
  pub hardware_concurrency : World → ℕ
  -- `put_time` of what `gmtime_r` makes of the clock.
  pub utc_time : World → Option Bytes
  -- `std::istringstream >> std::uint64_t`.
  pub extract_u64 : Bytes → Option ℕ

-- Texts that the build and the compiler fix.
pub record Build : Type 0 where
  pub version : Bytes
  pub source_revision : Bytes
  pub bengal_version : Bytes
  pub compiler : Bytes

-- `operator/` on paths, for a directory that does not end in a slash.
infixl 5 ◌//◌
abbrev pub ◌//◌ : Bytes → Bytes → Bytes
directory // name = directory ++ b'/' ∷ name

module _ (H : Host) where
  open H use {World}

  -- A call that changes nothing.
  abbrev pub query : {A : Type 0} → (World → Option A) → Bytes → Action World A
  query call what s = (elim (call s) [ none ↦ raised (failure what) | some a ↦ returned a ], s)

  abbrev pub demand : {A : Type 0} → Option A → Bytes → Action World A
  demand o what s = (elim o [ none ↦ raised (failure what) | some a ↦ returned a ], s)

  -- A call whose answer is kept, and one whose answer is lost.
  abbrev pub answered : (World → Bool × World) → Action World Bool
  answered call s = (returned (call s).0, (call s).1)

  abbrev pub ignored : (World → Bool × World) → Action World Done
  ignored call s = (returned tt, (call s).1)

  -- A call that answers whether it was done.
  abbrev pub carry_out : (World → Bool × World) → Bytes → Action World Done
  carry_out call what s = (if (call s).0 then returned tt else raised (failure what), (call s).1)
