-- ===== src/AtomicOutput/Destroy.antt =====
-- src/atomic_output.hpp: the destructor leaves the files.
use bengal_market.AtomicOutput.{FileSystem, Output, destroy, in_scope}
use bengal_market.AtomicOutput.Posix.{IsPosix}
use bengal_market.Base.{Bytes, Option, none, refl, some, ◌≡◌}
use bengal_market.Effects.{Action, Hoare, Outcome, Result, out_of_fuel, raised, returned, ◌>>=◌}

module _ {F : FileSystem} (V : IsPosix F) where
  pub destroy-content :
      (q : Bytes) (s : Output F) → V.content q (destroy F s).1.world ≡ V.content q s.world
  unfolding destroy ◌>>=◌
  destroy-content q s = go s.fd refl
    where
      go : (o : Option F.Fd) → s.fd ≡ o → V.content q (destroy F s).1.world ≡ V.content q s.world
      go none e = rw (destroy, ◌>>=◌, e) refl
      go (some fd) e = rw (destroy, ◌>>=◌, e) (V.close_content fd s.world q)

  -- The destructor, where it does not change what is claimed.
  pub in_scope-Hoare :
      {A : Type 0} (m : Action (Output F) A) (pre : Output F → Type 0)
      → (post : A → Output F → Type 0) → (fault : Output F → Type 0)
      → ((a : A) (s : Output F) → post a s → post a (destroy F s).1)
      → ((s : Output F) → fault s → fault (destroy F s).1)
      → Hoare pre m post fault
      → Hoare pre (in_scope F m) post fault
  in_scope-Hoare m pre post fault p q h = record { run = λ s v. go (m s) (h.run s v) }
    where
      go :
          (o : Result _ × Output F)
          → Outcome post fault o
          → Outcome post fault (o.0, (destroy F o.1).1)
      go (returned a, s) v = p a s v
      go (raised e, s) v = q s v
      go (out_of_fuel, s) v = v
