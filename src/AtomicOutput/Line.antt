-- ===== src/AtomicOutput/Line.antt =====
-- src/atomic_output.hpp `write_line`: a line arrives whole or is torn.
use mathlib.Core.Path.{subst}
use native.Mathlib.Nat.{zero-add}
use bengal_market.AtomicOutput.{FileSystem, Output, write_line}
use bengal_market.AtomicOutput.Posix.{IsPosix}
use bengal_market.AtomicOutput.Write.{IsTorn, IsWriting, take-nil, write-Appends}
use bengal_market.Base.{
  Bytes, [], ap, append_assoc, arith, length, min, refl, suc, sym, take, zero, ℕ, ◌++◌, ◌+◌, ◌∙◌,
  ◌∷◌, ◌≡◌, ◌≤◌,
}
use bengal_market.Effects.{Hoare, Hoare-bind, Hoare-weaken, Outcome}

take-append_front : (n : ℕ) (s t : Bytes) → take (min n (length s)) (s ++ t) ≡ take n s
take-append_front n [] t = let e : min n 0 ≡ 0 = omega arith in rw (e, take-nil n) refl
take-append_front zero (c ∷ s) t = let e : min 0 (suc (length s)) ≡ 0 = omega arith in rw e refl
take-append_front (suc n) (c ∷ s) t =
    let e : min (suc n) (suc (length s)) ≡ suc (min n (length s)) = omega arith in
    rw e (ap (λ r. c ∷ r) (take-append_front n s t))

take-append_back : (n : ℕ) (s t : Bytes) → take (length s + n) (s ++ t) ≡ s ++ take n t
take-append_back n [] t = rw zero-add refl
take-append_back n (c ∷ s) t =
    let e : length (c ∷ s) + n ≡ suc (length s + n) = omega arith in
    rw e (ap (λ r. c ∷ r) (take-append_back n s t))

module _ {F : FileSystem} (V : IsPosix F) (destination : Bytes) where
  pub write_line-IsWriting :
      (fuel k : ℕ) (line body : Bytes)
      → length line + k ≤ fuel
      → 1 + k ≤ fuel
      → Hoare
          (IsWriting V destination k body)
          (write_line F fuel line)
          (λ u. IsWriting V destination k (body ++ (line ++ 10 ∷ [])))
          (IsTorn V destination k body (line ++ 10 ∷ []))
  unfolding write_line
  write_line-IsWriting fuel k line body h h' =
      Hoare-bind _ _ _ (λ u. IsWriting V destination k (body ++ line)) _ _
        (Hoare-weaken _ (IsWriting V destination k body) _ _
          (λ u. IsWriting V destination k (body ++ line)) _
          (IsTorn V destination k body (line ++ 10 ∷ []))
          (write-Appends V destination fuel line k body h) (λ s v. v) (λ u s v. v)
          (λ s v. record {
            taken = min v.taken (length line);
            torn =
                subst (λ t. IsWriting V destination k (body ++ t) s)
                  (sym (take-append_front v.taken line (10 ∷ []))) v.torn;
          }))
        (λ u.
          Hoare-weaken _ (IsWriting V destination k (body ++ line)) _ _
            (λ u. IsWriting V destination k (body ++ (line ++ 10 ∷ []))) _
            (IsTorn V destination k body (line ++ 10 ∷ []))
            (write-Appends V destination fuel (10 ∷ []) k (body ++ line) h') (λ s v. v)
            (λ u s v.
              subst (λ b. IsWriting V destination k b s) (append_assoc body line (10 ∷ [])) v)
            (λ s v. record {
              taken = length line + v.taken;
              torn =
                  subst (λ b. IsWriting V destination k b s)
                    (append_assoc body line (take v.taken (10 ∷ []))
                      ∙ ap (λ r. body ++ r) (sym (take-append_back v.taken line (10 ∷ []))))
                    v.torn;
            }))

  -- One line given to an open object, with fuel for its bytes and every interruption to come: the call
  -- ends. Where it returns, the part file holds the line and its break behind what it held, and where
  -- it throws, some first bytes of them; the destination is missing in both cases.
  pub write_line-Appends :
      (fuel k : ℕ) (line body : Bytes) (s : Output F)
      → length line + k ≤ fuel
      → 1 + k ≤ fuel
      → IsWriting V destination k body s
      → Outcome
          (λ u. IsWriting V destination k (body ++ (line ++ 10 ∷ [])))
          (IsTorn V destination k body (line ++ 10 ∷ []))
          (write_line F fuel line s)
  write_line-Appends fuel k line body s h h' v =
      (write_line-IsWriting fuel k line body h h').run s v
