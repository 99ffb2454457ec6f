-- ===== src/Spsc/Runs.antt =====
-- src/core.cpp `standard_spsc_queue`: any sequence of calls answers like a bounded list.
use native.Mathlib.Decide.{ℕ_discrete}
use bengal_market.Base.{
  Bool, List, Option, [], ap, arith, false, if◌then◌else◌, length, none, refl, some, true, ℕ, ◌++◌,
  ◌<◌, ◌==◌, ◌^◌, ◌∷◌, ◌≡◌,
}
use bengal_market.Spsc.{Ring, fresh_ring, try_pop, try_push}
use bengal_market.Spsc.Refine.{
  Holds, fresh_ring-Holds, try_pop-none, try_pop-some, try_push-full, try_push-room,
}

-- A call, and what it answers.
pub data Call {ℓ} (A : Type ℓ) : Type ℓ where
  push : A → Call A
  pop : Call A

pub data Answer {ℓ} (A : Type ℓ) : Type ℓ where
  pushed : Bool → Answer A
  popped : Option A → Answer A

module _ {ℓ} {A : Type ℓ} (capacity : ℕ) where
  -- The answers of the ring.
  pub answers : Ring A → List (Call A) → List (Answer A)
  answers q [] = []
  answers q (push v ∷ calls) = let r = try_push capacity q v in pushed r.0 ∷ answers r.1 calls
  answers q (pop ∷ calls) = let r = try_pop capacity q in popped r.0 ∷ answers r.1 calls

  -- The answers of a list with the oldest value first.
  unfoldable pub expected : List A → List (Call A) → List (Answer A)
  expected xs [] = []
  expected xs (push v ∷ calls) =
      if length xs == capacity
      then pushed false ∷ expected xs calls
      else pushed true ∷ expected (xs ++ v ∷ []) calls
  expected [] (pop ∷ calls) = popped none ∷ expected [] calls
  expected (x ∷ xs) (pop ∷ calls) = popped (some x) ∷ expected xs calls

  answers-expected :
      (q : Ring A) (xs : List A) (calls : List (Call A))
      → Holds capacity q xs
      → answers q calls ≡ expected xs calls
  unfolding answers expected
  answers-expected q xs [] h = refl
  answers-expected q xs (push v ∷ calls) h = elim (ℕ_discrete (length xs) capacity) [
    | yes full ↦
        let (e, h') = try_push-full capacity q xs v h full in
        let t : (length xs == capacity) ≡ true = ground arith in
        rw (t, e)
          (ap (λ r. pushed false ∷ r) (answers-expected (try_push capacity q v).1 xs calls h'))
    | no vacant ↦
        let (e, h') = try_push-room capacity q xs v h (omega (arith, h.bound)) in
        let t : (length xs == capacity) ≡ false = ground arith in
        rw (t, e)
          (ap (λ r. pushed true ∷ r)
            (answers-expected (try_push capacity q v).1 (xs ++ v ∷ []) calls h'))
  ]
  answers-expected q [] (pop ∷ calls) h =
      let (e, h') = try_pop-none capacity q h in
      rw e (ap (λ r. popped none ∷ r) (answers-expected (try_pop capacity q).1 [] calls h'))
  answers-expected q (x ∷ xs) (pop ∷ calls) h =
      let (e, h') = try_pop-some capacity q x xs h in
      rw e (ap (λ r. popped (some x) ∷ r) (answers-expected (try_pop capacity q).1 xs calls h'))

  -- From the fresh ring, of a capacity above 0 and below 2^63, every sequence of `try_push` and `try_pop` answers like a list that holds
  -- at most `capacity` values: a push succeeds exactly when there is room, and a pop takes the
  -- oldest value, or nothing when there is none.
  pub answers-fresh_ring :
      0 < capacity
      → capacity < 2 ^ 63
      → (calls : List (Call A)) → answers (fresh_ring capacity) calls ≡ expected [] calls
  answers-fresh_ring h0 h63 calls =
      answers-expected (fresh_ring capacity) [] calls (fresh_ring-Holds capacity h0 h63)
