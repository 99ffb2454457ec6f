-- ===== src/Spsc/Tests.antt =====
-- Tests: calls on a ring with two slots.
use bengal_market.Base.{List, [], arith, false, none, refl, some, true, ℕ, ◌∷◌, ◌≡◌}
use bengal_market.Spsc.{fresh_ring}
use bengal_market.Spsc.Runs.{Call, answers, answers-fresh_ring, expected, pop, popped, push, pushed}

abbrev calls : List (Call ℕ)
calls = push 5 ∷ push 6 ∷ push 7 ∷ pop ∷ push 8 ∷ pop ∷ pop ∷ pop ∷ []

answers-fresh_ring_example : answers 2 (fresh_ring 2) calls ≡ expected 2 [] calls
answers-fresh_ring_example = answers-fresh_ring 2 (omega arith) (omega arith) calls

wraps :
    expected 2 [] calls
    ≡ pushed true
      ∷ pushed true
      ∷ pushed false
      ∷ popped (some 5)
      ∷ pushed true
      ∷ popped (some 6)
      ∷ popped (some 8)
      ∷ popped none
      ∷ []
unfolding expected
wraps = refl
