-- ===== src/Timestamp/Assemble.antt =====
-- src/core.cpp `parse_timestamp_ns`: the arithmetic at the end neither wraps around nor lets through
-- an instant beyond a `uint64_t`.
use bengal_market.Base.{arith, if◌then◌else◌, leb, none, some, ℕ, ◌*◌, ◌+◌, ◌<◌, ◌^◌, ◌≡◌, ◌≤◌}
use bengal_market.Base.Int.{pos}
use bengal_market.Base.Words.{max_u64}
use bengal_market.Timestamp.{assemble}

abbrev seconds_of : ℕ → ℕ → ℕ → ℕ → ℕ
seconds_of days hour minute second = days * 86_400 + hour * 3_600 + minute * 60 + second

pub assemble_lem :
    (days hour minute second fraction : ℕ)
    → days < 2 ^ 32
    → hour ≤ 23
    → minute ≤ 59
    → second ≤ 59
    → fraction < 1_000_000_000
    → assemble (pos days) hour minute second fraction ≡ (
        if leb (seconds_of days hour minute second * 1_000_000_000 + fraction) max_u64
        then some (seconds_of days hour minute second * 1_000_000_000 + fraction)
        else none)
unfolding assemble
assemble_lem days hour minute second fraction hd hh hm hs hf = ground arith
