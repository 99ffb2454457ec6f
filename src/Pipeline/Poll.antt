-- ===== src/Pipeline/Poll.antt =====
-- src/core.cpp `pipeline::consume`: one `try_pop` of the worker, by what the queue holds.
use bengal_market.Base.{List, [], refl, ℕ, ◌∷◌, ◌≡◌}
use bengal_market.Model.{Trade}
use bengal_market.Pipeline.{Engine, State, consume_round, found_empty, process}

module _ (F : Engine) where
  open F use {Queue, Holds}

  pub poll_none :
      (now : ℕ) (s : State Queue)
      → Holds s.queue []
      → ((consume_round F now s).producer_done ≡ s.producer_done)
        × (((consume_round F now s).worker ≡ found_empty) × Holds (consume_round F now s).queue [])
  unfolding consume_round
  poll_none now s h = let (b, h') = F.pop_none s.queue h in rw (consume_round, b) (refl, (refl, h'))

  pub poll_some :
      (now : ℕ) (s : State Queue) (x : Trade) (xs : List Trade)
      → Holds s.queue (x ∷ xs)
      → ((consume_round F now s).producer_done ≡ s.producer_done)
        × (((consume_round F now s).worker ≡ s.worker) × Holds (consume_round F now s).queue xs)
  unfolding consume_round process
  poll_some now s x xs h =
      let (b, h') = F.pop_some s.queue x xs h in rw (consume_round, b) (refl, (refl, h'))
