-- ===== src/Fifo.antt =====
-- What `pipeline` of src/core.cpp relies on in its queue: a FIFO of at most `capacity` values whose
-- operations do not wait. `standard_spsc_queue` implements it (Spsc/Refine.antt); `bengal::spsc_queue`
-- is a third-party queue that documents it, and is taken as a value of this record.
use bengal_market.Base.{
  Bool, List, Option, [], false, length, none, some, true, ℕ, ◌++◌, ◌<◌, ◌∷◌, ◌≡◌, ◌≤◌,
}

pub record Fifo (A : Type 0) (capacity : ℕ) : Type 1 where
  pub Queue : Type 0
  pub fresh : Queue
  pub try_push : Queue → A → Bool × Queue
  pub try_pop : Queue → Option A × Queue
  -- The queue holds these values, the oldest first.
  pub Holds : Queue → List A → Type 0
  pub fresh_holds : Holds fresh []
  pub bounded : (q : Queue) (xs : List A) → Holds q xs → length xs ≤ capacity
  pub push_room :
      (q : Queue) (xs : List A) (v : A)
      → Holds q xs
      → length xs < capacity
      → ((try_push q v).0 ≡ true) × Holds (try_push q v).1 (xs ++ v ∷ [])
  pub push_full :
      (q : Queue) (xs : List A) (v : A)
      → Holds q xs
      → length xs ≡ capacity
      → ((try_push q v).0 ≡ false) × Holds (try_push q v).1 xs
  pub pop_none : (q : Queue) → Holds q [] → ((try_pop q).0 ≡ none) × Holds (try_pop q).1 []
  pub pop_some :
      (q : Queue) (x : A) (xs : List A)
      → Holds q (x ∷ xs)
      → ((try_pop q).0 ≡ some x) × Holds (try_pop q).1 xs
