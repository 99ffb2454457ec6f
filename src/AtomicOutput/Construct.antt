-- ===== src/AtomicOutput/Construct.antt =====
-- src/atomic_output.hpp, the constructor: it leaves an open object with an empty part file.
use bengal_market.AtomicOutput.{
  FileSystem, Output, check_absent, construct, created, on_world, part_of,
}
use bengal_market.AtomicOutput.Posix.{IsPosix}
use bengal_market.AtomicOutput.Write.{IsWriting, eq_text-part, eq_text_refl}
use bengal_market.Base.{
  Bool, Bytes, Option, [], ap, arith, false, is_some, none, refl, some, true, ℕ, ◌∙◌, ◌≡◌, ◌≤◌,
}
use bengal_market.Effects.{Hoare, Hoare-bind, Hoare-unless, Hoare-weaken, Outcome, ◌>>=◌}

is_some-none : (o : Option Bytes) → false ≡ is_some o → o ≡ none
is_some-none none e = refl
is_some-none (some a) e = cc e

module _ {F : FileSystem} (V : IsPosix F) (destination : Bytes) where
  -- A new object, before its constructor has run.
  pub record IsNew (k : ℕ) (before : Option Bytes) (s : Output F) : Type 0 where
    pub closed : s.fd ≡ none
    pub unused : s.committed ≡ false
    pub content_before : V.content destination s.world ≡ before
    pub waits : V.patience s.world ≤ k

  abbrev pub Untouched : Option Bytes → Output F → Type 0
  Untouched before s = V.content destination s.world ≡ before

  check_absent-IsNew :
      (k : ℕ) (before : Option Bytes)
      → Hoare
          (IsNew k before)
          (check_absent F destination)
          (λ u s. IsNew k before s × (before ≡ none))
          (Untouched before)
  unfolding check_absent
  check_absent-IsNew k before = record { run = λ s v. go s v (F.exists destination s.world) refl }
    where
      go :
          (s : Output F)
          → IsNew k before s
          → (b : Option Bool) → F.exists destination s.world ≡ b
          → Outcome
              (λ u s. IsNew k before s × (before ≡ none))
              (Untouched before)
              (check_absent F destination s)
      go s v none e = rw (check_absent, e) v.content_before
      go s v (some true) e = rw (check_absent, e) v.content_before
      go s v (some false) e =
          rw (check_absent, e)
            (
              v,
              is_some-none before
                  (V.exists_lem destination s.world false e ∙ ap is_some v.content_before),
            )

  create-IsWriting :
      (k : ℕ) (before : Option Bytes)
      → Hoare
          (λ s. IsNew k before s × (before ≡ none))
          (on_world F (F.create (part_of destination)) >>= created F)
          (λ u s. IsWriting V destination k [] s × (before ≡ none))
          (Untouched before)
  unfolding ◌>>=◌
  create-IsWriting k before = record {
    run = λ s v. go s v (F.create (part_of destination) s.world).0 refl;
  }
    where
      go :
          (s : Output F)
          → IsNew k before s × (before ≡ none)
          → (o : Option F.Fd) → (F.create (part_of destination) s.world).0 ≡ o
          → Outcome
              (λ u s. IsWriting V destination k [] s × (before ≡ none))
              (Untouched before)
              ((on_world F (F.create (part_of destination)) >>= created F) s)
      go s v none e =
          rw (◌>>=◌, e)
            (V.create_refused (part_of destination) s.world e destination ∙ v.0.content_before)
      go s v (some fd) e =
          rw (◌>>=◌, e)
            (let (names, all) = V.create_made (part_of destination) s.world fd e in
              (
                record {
                  file = fd;
                  has_file = refl;
                  names = names;
                  holds_body =
                      all (part_of destination) ∙ rw (eq_text_refl (part_of destination)) refl;
                  unpublished =
                      all destination ∙ rw (eq_text-part destination) (v.0.content_before ∙ v.1);
                  uncommitted = v.0.unused;
                  patient =
                      omega (arith, V.create_patience (part_of destination) s.world, v.0.waits);
                },
                v.1,
              ))

  pub construct-IsWriting :
      (k : ℕ) (before : Option Bytes)
      → Hoare
          (IsNew k before)
          (construct F destination)
          (λ u s. IsWriting V destination k [] s × (before ≡ none))
          (Untouched before)
  unfolding construct
  construct-IsWriting k before =
      Hoare-bind _ _ _ (λ u. IsNew k before) _ _
        (Hoare-weaken _ (IsNew k before) _ _ (λ u. IsNew k before) _ (Untouched before)
          (Hoare-unless _ _ (IsNew k before) (Untouched before) (λ s v e. v.content_before))
          (λ s v. v) (λ u s v. v.0) (λ s v. v))
        (λ u.
          Hoare-bind _ _ _ (λ u s. IsNew k before s × (before ≡ none)) _ _
            (check_absent-IsNew k before) (λ u. create-IsWriting k before))
