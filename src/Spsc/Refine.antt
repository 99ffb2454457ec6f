-- ===== src/Spsc/Refine.antt =====
-- src/core.cpp `standard_spsc_queue` is a bounded FIFO.
use mathlib.Core.Path.{subst}
use native.Mathlib.Decide.{dec_lt}
use native.Mathlib.Nat.{add-zero, mod-add-mod, mod-eq-sub-mod, mod-eq_of_lt}
use bengal_market.Base.{
  List, Option, [], ap, arith, false, get_or, get_or-set_ne, get_or-set_self, length, length-append,
  length-replicate, length-set, none, refl, set, some, suc, sym, true, ℕ, ◌%◌, ◌++◌, ◌+◌, ◌-◌, ◌<◌,
  ◌==◌, ◌^◌, ◌∙◌, ◌∷◌, ◌≡◌, ◌≢◌, ◌≤◌,
}
use bengal_market.Base.Words.{add_u64}
use bengal_market.Spsc.{Ring, fresh_ring, try_pop, try_push}

-- Fewer than `capacity` steps round the ring do not come back.
round_ne : (capacity at k : ℕ) → at < capacity → 1 ≤ k → k < capacity → (at + k) % capacity ≢ at
round_ne capacity at k ha h0 hk = elim (dec_lt (at + k) capacity) [
  | yes l ↦ omega (arith, mod-eq_of_lt l)
  | no l ↦ omega (
    arith,
    mod-eq-sub-mod {n = at + k} {m = capacity} (omega arith),
    mod-eq_of_lt {n = at + k - capacity} {m = capacity} (omega arith),
  )
]

round_add : (capacity at k : ℕ) → ((at + 1) % capacity + k) % capacity ≡ (at + suc k) % capacity
round_add capacity at k = rw mod-add-mod (ap (λ n. n % capacity) (omega arith))

round_in : (capacity at : ℕ) → at < capacity → (at + 1) % capacity < capacity
round_in capacity at h = omega arith

round_apart :
    (capacity at k n : ℕ)
    → at < capacity
    → k < n
    → n < capacity
    → (at + n) % capacity ≢ (at + k) % capacity
round_apart capacity at k n ha hk hn e =
    round_ne capacity ((at + k) % capacity) (n - k) (omega arith) (omega arith) (omega arith)
      (rw mod-add-mod (ap (λ m. m % capacity) (omega arith)) ∙ e)

no_wrap : (capacity n : ℕ) → n < capacity → capacity < 2 ^ 63 → add_u64 n 1 ≡ n + 1
no_wrap capacity n h s = omega arith

module _ {ℓ} {A : Type ℓ} (capacity : ℕ) where
  -- The slots from `at` on, going round, hold the values `xs`.
  abbrev pub HoldsFrom : List (Option A) → ℕ → List A → Type ℓ
  HoldsFrom slots at [] = Unit
  HoldsFrom slots at (x ∷ xs) =
      (get_or slots at none ≡ some x) × HoldsFrom slots ((at + 1) % capacity) xs

  pub record Holds (q : Ring A) (xs : List A) : Type ℓ where
    pub small : capacity < 2 ^ 63
    pub room : length q.slots ≡ capacity
    pub read_in : q.read < capacity
    pub write_in : q.write < capacity
    pub count : q.size ≡ length xs
    pub bound : length xs ≤ capacity
    pub write_at : q.write ≡ (q.read + length xs) % capacity
    pub values : HoldsFrom q.slots q.read xs

  -- A write to a slot outside the window leaves the values.
  HoldsFrom-set :
      (slots : List (Option A)) (at i : ℕ) (o : Option A) (xs : List A)
      → ((k : ℕ) → k < length xs → i ≢ (at + k) % capacity)
      → at < capacity
      → HoldsFrom slots at xs
      → HoldsFrom (set slots i o) at xs
  HoldsFrom-set slots at i o [] ne ha h = tt
  HoldsFrom-set slots at i o (x ∷ xs) ne ha (h, hs) = (
    get_or-set_ne slots i at o none (λ e.
          ne 0 (omega arith)
            (e ∙ sym (mod-eq_of_lt ha) ∙ ap (λ n. n % capacity) (sym (add-zero at))))
        ∙ h,
    HoldsFrom-set slots ((at + 1) % capacity) i o xs
        (λ k lt e. ne (suc k) (omega arith) (e ∙ round_add capacity at k)) (round_in capacity at ha)
        hs,
  )

  -- A value behind the window makes it longer.
  HoldsFrom-append :
      (slots : List (Option A)) (at : ℕ) (xs : List A) (v : A)
      → at < capacity
      → get_or slots ((at + length xs) % capacity) none ≡ some v
      → HoldsFrom slots at xs
      → HoldsFrom slots at (xs ++ v ∷ [])
  HoldsFrom-append slots at [] v ha e h = (
    ap (λ n. get_or slots n none)
          (sym (mod-eq_of_lt ha) ∙ ap (λ n. n % capacity) (sym (add-zero at)))
        ∙ e,
    tt,
  )
  HoldsFrom-append slots at (x ∷ xs) v ha e (h, hs) = (
    h,
    HoldsFrom-append slots ((at + 1) % capacity) xs v (round_in capacity at ha)
        (ap (λ n. get_or slots n none) (round_add capacity at (length xs)) ∙ e) hs,
  )

  pub fresh_ring-Holds : 0 < capacity → capacity < 2 ^ 63 → Holds (fresh_ring {A = A} capacity) []
  unfolding fresh_ring
  fresh_ring-Holds h0 h63 = record {
    small = h63;
    room = length-replicate capacity none;
    read_in = h0;
    write_in = h0;
    count = refl;
    bound = omega arith;
    write_at = sym (mod-eq_of_lt h0);
    values = tt;
  }

  -- `try_push` adds the value behind the others.
  pub try_push-room :
      (q : Ring A) (xs : List A) (v : A)
      → Holds q xs
      → length xs < capacity
      → ((try_push capacity q v).0 ≡ true) × Holds (try_push capacity q v).1 (xs ++ v ∷ [])
  unfolding try_push
  try_push-room q xs v h lt =
      let t : (q.size == capacity) ≡ false = ground (arith, h.count) in
      let w : q.write < length q.slots = omega (arith, h.write_in, h.room) in
      let away = λ (k : ℕ) (l : k < length xs) (e : q.write ≡ (q.read + k) % capacity).
        round_apart capacity q.read k (length xs) h.read_in l lt (sym h.write_at ∙ e) in
      let next : (q.write + 1) % capacity ≡ (q.read + length (xs ++ v ∷ [])) % capacity =
        rw (h.write_at, mod-add-mod)
          (ap (λ n. n % capacity) (omega (arith, length-append xs (v ∷ [])))) in
      rw t (
        refl,
        record {
          small = h.small;
          room = length-set q.slots q.write (some v) ∙ h.room;
          read_in = h.read_in;
          write_in = omega (arith, h.write_in);
          count = omega (arith, h.count, h.small, length-append xs (v ∷ []));
          bound = omega (arith, length-append xs (v ∷ []));
          write_at = ap (λ n. n % capacity) (no_wrap capacity q.write h.write_in h.small) ∙ next;
          values =
              HoldsFrom-append (set q.slots q.write (some v)) q.read xs v h.read_in
                (ap (λ n. get_or (set q.slots q.write (some v)) n none) (sym h.write_at)
                  ∙ get_or-set_self q.slots q.write (some v) none w)
                (HoldsFrom-set q.slots q.read q.write (some v) xs away h.read_in h.values);
        },
      )

  -- A full ring is left as it is.
  pub try_push-full :
      (q : Ring A) (xs : List A) (v : A)
      → Holds q xs
      → length xs ≡ capacity
      → ((try_push capacity q v).0 ≡ false) × Holds (try_push capacity q v).1 xs
  unfolding try_push
  try_push-full q xs v h e =
      let t : (q.size == capacity) ≡ true = ground (arith, h.count) in rw t (refl, h)

  pub try_pop-none :
      (q : Ring A) → Holds q [] → ((try_pop capacity q).0 ≡ none) × Holds (try_pop capacity q).1 []
  unfolding try_pop
  try_pop-none q h = let t : (q.size == 0) ≡ true = ground (arith, h.count) in rw t (refl, h)

  -- `try_pop` takes the oldest value.
  pub try_pop-some :
      (q : Ring A) (x : A) (xs : List A)
      → Holds q (x ∷ xs)
      → ((try_pop capacity q).0 ≡ some x) × Holds (try_pop capacity q).1 xs
  unfolding try_pop
  try_pop-some q x xs h =
      let t : (q.size == 0) ≡ false = ground (arith, h.count) in
      let one = no_wrap capacity q.read h.read_in h.small in
      let away =
        λ (k : ℕ) (l : k < length xs) (e : q.read ≡ ((q.read + 1) % capacity + k) % capacity).
          round_ne capacity q.read (suc k) h.read_in (omega arith) (omega (arith, h.bound))
            (sym (e ∙ round_add capacity q.read k)) in
      rw t (
        h.values.0,
        record {
          small = h.small;
          room = length-set q.slots q.read none ∙ h.room;
          read_in = omega (arith, h.read_in);
          write_in = h.write_in;
          count = omega (arith, h.count, h.bound, h.small);
          bound = omega (arith, h.bound);
          write_at =
              h.write_at
              ∙ sym (
                  ap (λ n. (n % capacity + length xs) % capacity) one
                  ∙ round_add capacity q.read (length xs));
          values =
              subst (λ n. HoldsFrom (set q.slots q.read none) (n % capacity) xs) (sym one)
                (HoldsFrom-set q.slots ((q.read + 1) % capacity) q.read none xs away
                  (round_in capacity q.read h.read_in) h.values.1);
        },
      )
