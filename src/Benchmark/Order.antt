-- ===== src/Benchmark/Order.antt =====
-- src/benchmark.cpp `run_benchmark`: the order of the measured replays.
use bengal_market.Base.{
  Bool, List, [], arith, false, if◌then◌else◌, refl, suc, true, zero, ℕ, ◌%◌, ◌&&◌, ◌+◌, ◌/◌, ◌==◌,
  ◌∷◌, ◌≡◌,
}
use bengal_market.Benchmark.{EngineName, Planned, bengal, plan, plan_from, standard}

abbrev pub is_engine : EngineName → EngineName → Bool
is_engine bengal bengal = true
is_engine standard standard = true
is_engine _ _ = false

-- How many of the replays run this engine, and how many of them run it first.
abbrev pub replays_of : EngineName → List Planned → ℕ
replays_of e [] = 0
replays_of e (p ∷ ps) = if is_engine e p.engine then suc (replays_of e ps) else replays_of e ps

abbrev pub firsts_of : EngineName → List Planned → ℕ
firsts_of e [] = 0
firsts_of e (p ∷ ps) =
    if is_engine e p.engine && (p.order == 1) then suc (firsts_of e ps) else firsts_of e ps

plan_from-balance :
    (more iteration : ℕ)
    → (replays_of bengal (plan_from iteration more) ≡ more)
      × (replays_of standard (plan_from iteration more) ≡ more)
      × (firsts_of bengal (plan_from iteration more) ≡ (more + iteration % 2) / 2)
unfolding plan_from
plan_from-balance zero iteration = (refl, refl, omega arith)
plan_from-balance (suc more) iteration =
    let (b, s, f) = plan_from-balance more (iteration + 1) in
    (ground arith, ground arith, ground arith)

-- Over the runs of a benchmark each engine is measured as often as there are runs, and the Bengal
-- engine goes first in half of them, rounded up.
pub plan-balance :
    (runs : ℕ)
    → (replays_of bengal (plan runs) ≡ runs)
      × (replays_of standard (plan runs) ≡ runs)
      × (firsts_of bengal (plan runs) ≡ (runs + 1) / 2)
unfolding plan
plan-balance runs = plan_from-balance runs 1
