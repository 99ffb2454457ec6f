-- ===== src/Effects.antt =====
-- Calls that change a state and may throw, in the parts of the program that talk to the system. The
-- state comes back after a throw too, since what was written stays written.
use bengal_market.Base.{Bool, Bytes, false, if◌then◌else◌, refl, true, ◌≡◌}

-- `capture_stopped` of src/live.cpp, or a `std::exception` with the words that it starts with.
pub data Fault : Type 0 where
  capture_stopped : Fault
  failure : Bytes → Fault

-- `out_of_fuel` is a loop that the model has cut off.
pub data Result {ℓ} (A : Type ℓ) : Type ℓ where
  returned : A → Result A
  raised : Fault → Result A
  out_of_fuel : Result A

abbrev pub Action : Type 0 → Type 0 → Type 0
Action S A = S → Result A × S

abbrev pub Done : Type 0
Done = Unit {0}

module _ {S A : Type 0} where
  abbrev pub pure : A → Action S A
  pure a s = (returned a, s)

  abbrev pub raise : Fault → Action S A
  raise e s = (raised e, s)

abbrev pub cut_off : {S A : Type 0} → Action S A
cut_off s = (out_of_fuel, s)

module _ {S A B : Type 0} where
  abbrev pub continue : Result A × S → (A → Action S B) → Result B × S
  continue (returned a, s) f = f a s
  continue (raised e, s) f = (raised e, s)
  continue (out_of_fuel, s) f = (out_of_fuel, s)

infixl 5 ◌>>=◌ ◌>>◌
unfoldable pub ◌>>=◌ : {S A B : Type 0} → Action S A → (A → Action S B) → Action S B
◌>>=◌ m f s = continue (m s) f

abbrev pub ◌>>◌ : {S B : Type 0} → Action S Done → Action S B → Action S B
m >> k = m >>= λ _. k

abbrev pub unless : {S : Type 0} → Bool → Fault → Action S Done
unless c e s = (if c then returned tt else raised e, s)

-- What a call has come to: `post` where it returns, `fault` where it throws. It is not cut off.
abbrev pub Outcome : {S A : Type 0} → (A → S → Type 0) → (S → Type 0) → Result A × S → Type 0
Outcome post fault (returned a, s) = post a s
Outcome post fault (raised e, s) = fault s
Outcome post fault (out_of_fuel, s) = ⊥

-- From every state with `pre` the call comes to `post` or `fault`.
pub record Hoare {S A : Type 0} (pre : S → Type 0) (m : Action S A) (post : A → S → Type 0)
    (fault : S → Type 0) : Type 0 where
  pub run : (s : S) → pre s → Outcome post fault (m s)

module _ {S A B : Type 0} where
  pub Hoare-bind :
      (pre : S → Type 0) (m : Action S A) (f : A → Action S B) (mid : A → S → Type 0)
      → (post : B → S → Type 0) (fault : S → Type 0) → Hoare pre m mid fault
      → ((a : A) → Hoare (mid a) (f a) post fault)
      → Hoare pre (m >>= f) post fault
  unfolding ◌>>=◌
  Hoare-bind pre m f mid post fault h k = record { run = λ s p. go (m s) (h.run s p) }
    where
      go : (r : Result A × S) → Outcome mid fault r → Outcome post fault (continue r f)
      go (returned a, s) q = (k a).run s q
      go (raised e, s) q = q
      go (out_of_fuel, s) q = absurd q

module _ {S A : Type 0} where
  pub Hoare-weaken :
      (pre pre' : S → Type 0) (m : Action S A) (post post' : A → S → Type 0)
      → (fault fault' : S → Type 0) → Hoare pre m post fault
      → ((s : S) → pre' s → pre s)
      → ((a : A) (s : S) → post a s → post' a s)
      → ((s : S) → fault s → fault' s)
      → Hoare pre' m post' fault'
  Hoare-weaken pre pre' m post post' fault fault' h p q r = record {
    run = λ s x. go (m s) (h.run s (p s x));
  }
    where
      go : (o : Result A × S) → Outcome post fault o → Outcome post' fault' o
      go (returned a, s) x = q a s x
      go (raised e, s) x = r s x
      go (out_of_fuel, s) x = x

  pub Hoare-pure :
      (a : A) (post : A → S → Type 0) (fault : S → Type 0) → Hoare (post a) (pure a) post fault
  Hoare-pure a post fault = record { run = λ s p. p }

  pub Hoare-raise :
      (e : Fault) (post : A → S → Type 0) (fault : S → Type 0) → Hoare fault (raise e) post fault
  Hoare-raise e post fault = record { run = λ s p. p }

module _ {S A B : Type 0} where
  pub Hoare-returned :
      (pre : S → Type 0) (a : A) (f : A → Action S B) (post : B → S → Type 0)
      → (fault : S → Type 0) → Hoare pre (f a) post fault
      → Hoare pre (pure a >>= f) post fault
  unfolding ◌>>=◌
  Hoare-returned pre a f post fault h = record { run = h.run }

  pub Hoare-raised :
      (pre : S → Type 0) (e : Fault) (f : A → Action S B) (post : B → S → Type 0)
      → (fault : S → Type 0) → ((s : S) → pre s → fault s)
      → Hoare pre (raise e >>= f) post fault
  unfolding ◌>>=◌
  Hoare-raised pre e f post fault h = record { run = h }

module _ {S A : Type 0} where
  -- A fact that does not depend on the state stays.
  pub Hoare-frame :
      (P : Type 0) (pre : S → Type 0) (m : Action S A) (post : A → S → Type 0)
      → (fault : S → Type 0) → Hoare pre m post fault
      → Hoare (λ s. pre s × P) m (λ a s. post a s × P) fault
  Hoare-frame P pre m post fault h = record { run = λ s p. go p.1 (m s) (h.run s p.0) }
    where
      go : P → (o : Result A × S) → Outcome post fault o → Outcome (λ a s. post a s × P) fault o
      go x (returned a, s) q = (q, x)
      go x (raised e, s) q = q
      go x (out_of_fuel, s) q = q

pub Hoare-unless :
    {S : Type 0} (c : Bool) (e : Fault) (pre : S → Type 0) (fault : S → Type 0)
    → ((s : S) → pre s → c ≡ false → fault s)
    → Hoare pre (unless c e) (λ u s. pre s × (c ≡ true)) fault
Hoare-unless true e pre fault h = record { run = λ s p. (p, refl) }
Hoare-unless false e pre fault h = record { run = λ s p. h s p refl }

-- The call keeps `P`, whether it returns or throws, and where it returns, `Q` holds of the value.
abbrev pub Guards : {S A : Type 0} → (S → Type 0) → Action S A → (A → Type 0) → Type 0
Guards P m Q = Hoare P m (λ a s. P s × Q a) P

module _ {S : Type 0} {P : S → Type 0} where
  pub Guards-bind :
      {A B : Type 0} {m : Action S A} {f : A → Action S B} {Q : A → Type 0} {R : B → Type 0}
      → Guards P m Q
      → ((a : A) → Q a → Guards P (f a) R)
      → Guards P (m >>= f) R
  Guards-bind h k = Hoare-bind _ _ _ _ _ _ h (λ a. record { run = λ s p. (k a p.1).run s p.0 })

  pub Guards-pure : {A : Type 0} {a : A} {Q : A → Type 0} → Q a → Guards P (pure a) Q
  Guards-pure q = record { run = λ s p. (p, q) }

  pub Guards-raise : {A : Type 0} (e : Fault) {Q : A → Type 0} → Guards P (raise e) Q
  Guards-raise e = record { run = λ s p. p }

  pub Guards-unless : {c : Bool} (e : Fault) → Guards P (unless c e) (λ u. c ≡ true)
  Guards-unless {c} e = Hoare-unless c e P P (λ s p h. p)

  pub Guards-weaken :
      {A : Type 0} {m : Action S A} {Q R : A → Type 0}
      → Guards P m Q
      → ((a : A) → Q a → R a)
      → Guards P m R
  Guards-weaken h k = Hoare-weaken _ _ _ _ _ _ _ h (λ s p. p) (λ a s p. (p.0, k a p.1)) (λ s p. p)

  pub Guards-then :
      {A B : Type 0} {m : Action S A} {f : A → Action S B} {Q : A → Type 0}
      → {post : B → S → Type 0} {fault : S → Type 0} → Guards P m Q
      → ((s : S) → P s → fault s)
      → ((a : A) → Q a → Hoare P (f a) post fault)
      → Hoare P (m >>= f) post fault
  Guards-then h w k =
      Hoare-bind _ _ _ _ _ _ (Hoare-weaken _ _ _ _ _ _ _ h (λ s p. p) (λ a s p. p) w)
        (λ a. record { run = λ s p. (k a p.1).run s p.0 })
