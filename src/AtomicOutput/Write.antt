-- ===== src/AtomicOutput/Write.antt =====
-- src/atomic_output.hpp `write`: the bytes arrive behind those that are there, all of them unless it
-- throws, and it comes to an end.
use mathlib.Core.Path.{subst}
use native.Mathlib.Nat.{zero-add}
use bengal_market.AtomicOutput.{
  FileSystem, Output, WriteAnswer, after_write, interrupted, part_of, refused, write, write_some,
  wrote,
}
use bengal_market.AtomicOutput.Posix.{IsPosix}
use bengal_market.Base.{
  Bytes, [], ap, append-nil, append_assoc, arith, codes, drop, eq_text, false, inl, inr, length,
  length-drop, none, refl, some, suc, sym, take, take-append-drop, true, zero, ℕ, ◌++◌, ◌+◌, ◌-◌,
  ◌<◌, ◌∙◌, ◌∷◌, ◌≡◌, ◌≤◌, ◌⊎◌,
}
use bengal_market.Effects.{Hoare, Hoare-bind, Hoare-weaken}

pub eq_text_refl : (s : Bytes) → eq_text s s ≡ true
eq_text_refl [] = refl
eq_text_refl (c ∷ s) = ground (arith, eq_text_refl s)

pub eq_text-append : (s : Bytes) (c : ℕ) (t : Bytes) → eq_text s (s ++ c ∷ t) ≡ false
eq_text-append [] c t = refl
eq_text-append (x ∷ s) c t = ground (arith, eq_text-append s c t)

pub eq_text-append_left : (s : Bytes) (c : ℕ) (t : Bytes) → eq_text (s ++ c ∷ t) s ≡ false
eq_text-append_left [] c t = refl
eq_text-append_left (x ∷ s) c t = ground (arith, eq_text-append_left s c t)

pub take-nil : (n : ℕ) → take {A = ℕ} n [] ≡ []
take-nil zero = refl
take-nil (suc n) = refl

take-take-drop : (n m : ℕ) (s : Bytes) → take n s ++ take m (drop n s) ≡ take (n + m) s
take-take-drop zero m s = rw zero-add refl
take-take-drop (suc n) m [] = rw (take-nil m, take-nil (suc n + m)) refl
take-take-drop (suc n) m (c ∷ s) =
    let e : suc n + m ≡ suc (n + m) = omega arith in rw e (ap (λ r. c ∷ r) (take-take-drop n m s))

pub eq_text-part_left : (d : Bytes) → eq_text (part_of d) d ≡ false
eq_text-part_left d = eq_text-append_left d b'.' (codes "part")

pub eq_text-part : (d : Bytes) → eq_text d (part_of d) ≡ false
eq_text-part d = eq_text-append d b'.' (codes "part")

module _ {F : FileSystem} (V : IsPosix F) (destination : Bytes) where
  -- The object is open for its part file, which holds `body`; nothing has been published, and at
  -- most `k` interruptions are to come.
  pub record IsWriting (k : ℕ) (body : Bytes) (s : Output F) : Type 0 where
    pub file : F.Fd
    pub has_file : s.fd ≡ some file
    pub names : V.opened file s.world ≡ some (part_of destination)
    pub holds_body : V.content (part_of destination) s.world ≡ some body
    pub unpublished : V.content destination s.world ≡ none
    pub uncommitted : s.committed ≡ false
    pub patient : V.patience s.world ≤ k

  IsWriting-weaken :
      (k j : ℕ) (body : Bytes) (s : Output F) → k ≤ j → IsWriting k body s → IsWriting j body s
  IsWriting-weaken k j body s h v = record {
    file = v.file;
    has_file = v.has_file;
    names = v.names;
    holds_body = v.holds_body;
    unpublished = v.unpublished;
    uncommitted = v.uncommitted;
    patient = omega (arith, v.patient, h);
  }

  -- What one call of `::write` leaves, by its answer.
  abbrev Taken : ℕ → Bytes → Bytes → WriteAnswer → Output F → Type 0
  Taken k body text (wrote n) s = (n ≤ length text) × IsWriting k (body ++ take n text) s
  Taken k body text interrupted s = (1 ≤ k) × IsWriting (k - 1) body s
  Taken k body text refused s = IsWriting k body s

  write_some-Taken :
      (k : ℕ) (body text : Bytes) (fault : Output F → Type 0)
      → Hoare (IsWriting k body) (write_some F text) (Taken k body text) fault
  unfolding write_some
  write_some-Taken k body text fault = record {
    run = λ s v. rw (write_some, v.has_file) (go s v (F.write v.file text s.world).0 refl);
  }
    where
      untouched :
          (s : Output F) (v : IsWriting k body s) (j : ℕ)
          → ((F.write v.file text s.world).0 ≡ interrupted)
            ⊎ ((F.write v.file text s.world).0 ≡ refused)
          → V.patience (F.write v.file text s.world).1 ≤ j
          → IsWriting j body (record s { world = (F.write v.file text s.world).1 })
      untouched s v j e h = record {
        file = v.file;
        has_file = v.has_file;
        names = V.write_opened v.file text s.world v.file ∙ v.names;
        holds_body = V.write_nothing v.file text s.world e (part_of destination) ∙ v.holds_body;
        unpublished = V.write_nothing v.file text s.world e destination ∙ v.unpublished;
        uncommitted = v.uncommitted;
        patient = h;
      }

      go :
          (s : Output F) (v : IsWriting k body s) (a : WriteAnswer)
          → (F.write v.file text s.world).0 ≡ a
          → Taken k body text
              (F.write v.file text s.world).0
              (record s { world = (F.write v.file text s.world).1 })
      go s v (wrote n) e = rw e (
        (V.write_taken v.file text s.world n (part_of destination) body v.names v.holds_body e).0,
        record {
          file = v.file;
          has_file = v.has_file;
          names = V.write_opened v.file text s.world v.file ∙ v.names;
          holds_body =
              (V.write_taken v.file text s.world n (part_of destination) body v.names v.holds_body
                  e).1
                (part_of destination)
              ∙ rw (eq_text_refl (part_of destination)) refl;
          unpublished =
              (V.write_taken v.file text s.world n (part_of destination) body v.names v.holds_body
                  e).1
                destination
              ∙ rw (eq_text-part destination) v.unpublished;
          uncommitted = v.uncommitted;
          patient = omega (arith, V.write_patience v.file text s.world, v.patient);
        },
      )
      go s v interrupted e = rw e (
        omega (arith, V.write_interrupted v.file text s.world e, v.patient),
        untouched s v (k - 1) (inl e)
            (omega (arith, V.write_interrupted v.file text s.world e, v.patient)),
      )
      go s v refused e =
          rw e (
            untouched s v k (inr e)
              (omega (arith, V.write_patience v.file text s.world, v.patient)))

  -- A write that threw left some of its bytes behind the body.
  pub record IsTorn (k : ℕ) (body text : Bytes) (s : Output F) : Type 0 where
    pub taken : ℕ
    pub torn : IsWriting k (body ++ take taken text) s

  -- Given fuel for every byte and every interruption to come, `write` ends; where it returns, all the
  -- bytes stand behind the body, and where it throws, some of the first ones do.
  pub write-Appends :
      (fuel : ℕ) (text : Bytes) (k : ℕ) (body : Bytes)
      → length text + k ≤ fuel
      → Hoare
          (IsWriting k body)
          (write F fuel text)
          (λ u. IsWriting k (body ++ text))
          (IsTorn k body text)
  unfolding write
  write-Appends fuel [] k body h = record {
    run = λ s v. subst (λ b. IsWriting k b s) (sym (append-nil body)) v;
  }
  write-Appends zero (c ∷ text) k body h = absurd (omega (arith, h))
  write-Appends (suc fuel) (c ∷ text) k body h =
      Hoare-bind (IsWriting k body) (write_some F (c ∷ text))
        (after_write F (write F fuel) (c ∷ text)) (Taken k body (c ∷ text))
        (λ u. IsWriting k (body ++ c ∷ text)) (IsTorn k body (c ∷ text))
        (write_some-Taken k body (c ∷ text) (IsTorn k body (c ∷ text)))
        (next_round (c ∷ text) (λ t j b h'. write-Appends fuel t j b (omega (arith, h, h'))))
    where
      next_round :
          (t : Bytes)
          → ((t' : Bytes) (j : ℕ) (b : Bytes)
              → length t' + j < length t + k
              → Hoare
                  (IsWriting j b)
                  (write F fuel t')
                  (λ u. IsWriting j (b ++ t'))
                  (IsTorn j b t'))
          → (a : WriteAnswer)
          → Hoare
              (Taken k body t a)
              (after_write F (write F fuel) t a)
              (λ u. IsWriting k (body ++ t))
              (IsTorn k body t)
      next_round t again (wrote zero) = record { run = λ s v. record { taken = 0; torn = v.1 } }
      next_round t again (wrote (suc n)) = record {
        run = λ s v.
            (Hoare-weaken (IsWriting k (body ++ take (suc n) t))
                (IsWriting k (body ++ take (suc n) t)) (write F fuel (drop (suc n) t)) _
                (λ u. IsWriting k (body ++ t)) _ (IsTorn k body t)
                (again (drop (suc n) t) k (body ++ take (suc n) t)
                  (omega (arith, length-drop (suc n) t, v.0)))
                (λ s p. p)
                (λ u s' p.
                  subst (λ b. IsWriting k b s')
                    (append_assoc body (take (suc n) t) (drop (suc n) t)
                      ∙ ap (λ r. body ++ r) (take-append-drop (suc n) t))
                    p)
                (λ s' p. record {
                  taken = suc n + p.taken;
                  torn =
                      subst (λ b. IsWriting k b s')
                        (append_assoc body (take (suc n) t) (take p.taken (drop (suc n) t))
                          ∙ ap (λ r. body ++ r) (take-take-drop (suc n) p.taken t))
                        p.torn;
                })).run
              s v.1;
      }
      next_round t again interrupted = record {
        run = λ s v.
            (Hoare-weaken (IsWriting (k - 1) body) (IsWriting (k - 1) body) (write F fuel t) _
                (λ u. IsWriting k (body ++ t)) _ (IsTorn k body t)
                (again t (k - 1) body (omega (arith, v.0))) (λ s p. p)
                (λ u s' p. IsWriting-weaken (k - 1) k (body ++ t) s' (omega arith) p)
                (λ s' p. record {
                  taken = p.taken;
                  torn =
                      IsWriting-weaken (k - 1) k (body ++ take p.taken t) s' (omega arith) p.torn;
                })).run
              s v.1;
      }
      next_round t again refused = record {
        run = λ s v. record {
          taken = 0;
          torn = subst (λ b. IsWriting k b s) (sym (append-nil body)) v;
        };
      }
