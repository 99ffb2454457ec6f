-- ===== src/Spsc/Standard.antt =====
-- src/core.cpp `standard_spsc_queue` implements the queue that `pipeline` relies on.
use bengal_market.Base.{ℕ, ◌<◌, ◌^◌}
use bengal_market.Fifo.{Fifo}
use bengal_market.Spsc.{Ring, fresh_ring, try_pop, try_push}
use bengal_market.Spsc.Refine.{
  Holds, fresh_ring-Holds, try_pop-none, try_pop-some, try_push-full, try_push-room,
}

-- `standard_spsc_queue<A, capacity>`, for a capacity that is not 0 and does not come near the range
-- of `std::size_t`: its ring keeps what the record promises.
abbrev pub standard_spsc_queue :
    (A : Type 0) (capacity : ℕ) → 0 < capacity → capacity < 2 ^ 63 → Fifo A capacity
standard_spsc_queue A capacity h0 h63 = record {
  Queue = Ring A;
  fresh = fresh_ring capacity;
  try_push = try_push capacity;
  try_pop = try_pop capacity;
  Holds = Holds capacity;
  fresh_holds = fresh_ring-Holds capacity h0 h63;
  bounded = λ q xs h. h.bound;
  push_room = try_push-room capacity;
  push_full = try_push-full capacity;
  pop_none = try_pop-none capacity;
  pop_some = try_pop-some capacity;
}
