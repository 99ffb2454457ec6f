-- ===== src/AtomicOutput/Meters.antt =====
-- src/atomic_output.hpp, the constructor, `write` and `write_line`: what every call of the system keeps of the world, the
-- loops over such calls keep too.
use bengal_market.AtomicOutput.{
  FileSystem, Output, WriteAnswer, after_write, check_absent, construct, created, interrupted,
  part_of, refused, write, write_line, write_some, wrote,
}
use bengal_market.Base.{
  Bool, Bytes, Option, [], drop, false, none, refl, some, suc, true, zero, ℕ, ◌∷◌, ◌≡◌,
}
use bengal_market.Effects.{
  Action, Fault, Result, continue, out_of_fuel, raised, returned, unless, ◌>>=◌,
}

module _ (F : FileSystem) (R : F.World → F.World → Type 0) where
  module _ (same : (w : F.World) → R w w) (both : (u v w : F.World) → R u v → R v w → R u w) where
    abbrev Since : {A : Type 0} → Output F → Result A × Output F → Type 0
    Since s o = R s.world o.1.world

    continue-Since :
        {A B : Type 0} (s : Output F) (o : Result A × Output F) (f : A → Action (Output F) B)
        → Since s o
        → ((a : A) (s' : Output F) → Since s' (f a s'))
        → Since s (continue o f)
    continue-Since s (returned a, s') f h g = both s.world s'.world (f a s').1.world h (g a s')
    continue-Since s (raised e, s') f h g = h
    continue-Since s (out_of_fuel, s') f h g = h

    record Grows {A : Type 0} (m : Action (Output F) A) : Type 0 where
      run : (s : Output F) → Since s (m s)

    bind-Grows :
        {A B : Type 0} (m : Action (Output F) A) (f : A → Action (Output F) B)
        → Grows m
        → ((a : A) → Grows (f a))
        → Grows (m >>= f)
    unfolding ◌>>=◌
    bind-Grows m f h g = record {
      run = λ s. continue-Since s (m s) f (h.run s) (λ a s'. (g a).run s');
    }

    unless-Grows : (c : Bool) (e : Fault) → Grows (unless c e)
    unless-Grows c e = record { run = λ s. same s.world }

    module _ (step : (p : Bytes) (w : F.World) → R w (F.create p w).1) where
      check_absent-Grows : (p : Bytes) → Grows (check_absent F p)
      unfolding check_absent
      check_absent-Grows p = record { run = λ s. go s (F.exists p s.world) refl }
        where
          go :
              (s : Output F) (o : Option Bool)
              → F.exists p s.world ≡ o
              → Since s (check_absent F p s)
          go s none e = rw (check_absent, e) (same s.world)
          go s (some true) e = rw (check_absent, e) (same s.world)
          go s (some false) e = rw (check_absent, e) (same s.world)

      created-Grows : (fd : Option F.Fd) → Grows (created F fd)
      created-Grows none = record { run = λ s. same s.world }
      created-Grows (some fd) = record { run = λ s. same s.world }

      construct-Grows : (p : Bytes) → Grows (construct F p)
      unfolding construct
      construct-Grows p = bind-Grows _ _ (unless-Grows _ _) (λ u.
          bind-Grows _ _ (check_absent-Grows p) (λ u.
            bind-Grows _ _ (record { run = λ s. step (part_of p) s.world })
              (λ fd. created-Grows fd)))

      pub construct-Since : (p : Bytes) (s : Output F) → Since s (construct F p s)
      construct-Since p = (construct-Grows p).run

    module _ (step : (fd : F.Fd) (text : Bytes) (w : F.World) → R w (F.write fd text w).1) where
      write_some-Since : (text : Bytes) (s : Output F) → Since s (write_some F text s)
      unfolding write_some
      write_some-Since text s = go s.fd refl
        where
          go : (o : Option F.Fd) → s.fd ≡ o → Since s (write_some F text s)
          go none e = rw (write_some, e) (same s.world)
          go (some fd) e = rw (write_some, e) (step fd text s.world)

      write-Since : (fuel : ℕ) (text : Bytes) (s : Output F) → Since s (write F fuel text s)
      unfolding write ◌>>=◌
      write-Since fuel [] s = same s.world
      write-Since zero (c ∷ text) s = same s.world
      write-Since (suc fuel) (c ∷ text) s =
          continue-Since s (write_some F (c ∷ text) s) (after_write F (write F fuel) (c ∷ text))
            (write_some-Since (c ∷ text) s) (after (c ∷ text) (write-Since fuel))
        where
          after :
              (t : Bytes)
              → ((t' : Bytes) (s' : Output F) → Since s' (write F fuel t' s'))
              → (a : WriteAnswer) (s' : Output F) → Since s' (after_write F (write F fuel) t a s')
          after t again (wrote zero) s' = same s'.world
          after t again (wrote (suc n)) s' = again (drop (suc n) t) s'
          after t again interrupted s' = again t s'
          after t again refused s' = same s'.world

      pub write_line-Since :
          (fuel : ℕ) (line : Bytes) (s : Output F) → Since s (write_line F fuel line s)
      unfolding write_line ◌>>=◌
      write_line-Since fuel line s =
          continue-Since s (write F fuel line s) (λ u. write F fuel (10 ∷ []))
            (write-Since fuel line s) (λ u s'. write-Since fuel (10 ∷ []) s')
