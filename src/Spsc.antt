-- ===== src/Spsc.antt =====
-- src/core.cpp: `standard_spsc_queue`. The mutex makes each operation one step.
pub mod Refine
pub mod Runs
pub mod Standard
mod Tests
use bengal_market.Base.{
  Bool, List, Option, false, get_or, if◌then◌else◌, none, replicate, set, some, true, ℕ, ◌%◌, ◌==◌,
}
use bengal_market.Base.Words.{add_u64, sub_u64}

-- `T` is `A` and `Capacity` is `capacity`.
pub record Ring {ℓ} (A : Type ℓ) : Type ℓ where
  pub slots : List (Option A)
  pub read : ℕ
  pub write : ℕ
  pub size : ℕ

module _ {ℓ} {A : Type ℓ} (capacity : ℕ) where
  unfoldable pub fresh_ring : Ring A
  fresh_ring = record { slots = replicate capacity none; read = 0; write = 0; size = 0 }

  unfoldable pub try_push : Ring A → A → Bool × Ring A
  try_push q value = if q.size == capacity then (false, q) else (
    true,
    record q {
      slots = set q.slots q.write (some value);
      write = add_u64 q.write 1 % capacity;
      size = add_u64 q.size 1;
    },
  )

  -- The slot that is read is reset.
  unfoldable pub try_pop : Ring A → Option A × Ring A
  try_pop q = if q.size == 0 then (none, q) else (
    get_or q.slots q.read none,
    record q {
      slots = set q.slots q.read none;
      read = add_u64 q.read 1 % capacity;
      size = sub_u64 q.size 1;
    },
  )
