-- ===== src/Model/Text.antt =====
-- include/bengal_market/model.hpp `bounded_text`: what `view` shows after `assign`.
use native.Mathlib.Decide.{dec_le}
use native.Mathlib.Numerals.{add-one}
use bengal_market.Base.{
  Bytes, List, [], ap, arith, false, if◌then◌else◌, leb, length, length-set, ltb, refl, set, suc,
  sym, take, true, ℕ, ◌+◌, ◌∙◌, ◌∷◌, ◌≡◌, ◌≤◌,
}
use bengal_market.Model.{BoundedText, assign, copy_from, view}

copy_from-suc :
    (x : ℕ) (chars : List ℕ) (s : Bytes) (i : ℕ)
    → copy_from (x ∷ chars) s (suc i) ≡ x ∷ copy_from chars s i
unfolding copy_from
copy_from-suc x chars [] i = refl
copy_from-suc x chars (c ∷ s) i =
    ap (copy_from (x ∷ set chars i c) s) (add-one (suc i))
    ∙ copy_from-suc x (set chars i c) s (suc i)
    ∙ ap (λ n. x ∷ copy_from (set chars i c) s n) (sym (add-one i))

take-copy_from :
    (chars : List ℕ) (s : Bytes)
    → length s ≤ length chars
    → take (length s) (copy_from chars s 0) ≡ s
unfolding copy_from
take-copy_from chars [] h = refl
take-copy_from [] (c ∷ s) h = elim h [ ]
take-copy_from (x ∷ chars) (c ∷ s) h =
    ap (take (suc (length s))) (copy_from-suc c chars s 0)
    ∙ ap (λ r. c ∷ r) (take-copy_from chars s (omega arith))

length-copy_from :
    (chars : List ℕ) (s : Bytes) (i : ℕ) → length (copy_from chars s i) ≡ length chars
unfolding copy_from
length-copy_from chars [] i = refl
length-copy_from chars (c ∷ s) i = length-copy_from (set chars i c) s (i + 1) ∙ length-set chars i c

-- `assign` succeeds exactly when the text is within the capacity, and then `view` shows that text,
-- whatever stood there; otherwise `view` shows what it did before. The array keeps its size.
pub assign_lem :
    (capacity : ℕ) (t : BoundedText) (value : Bytes)
    → length t.chars ≡ capacity
    → ((assign capacity t value).0 ≡ leb (length value) capacity)
      × (view (assign capacity t value).1 ≡ (if leb (length value) capacity then value else view t))
      × (length (assign capacity t value).1.chars ≡ capacity)
unfolding assign
assign_lem capacity t value h = elim (dec_le (length value) capacity) [
  | yes le ↦
      let n : ltb capacity (length value) ≡ false = ground arith in
      let m : leb (length value) capacity ≡ true = ground arith in
      rw (n, m)
        (refl, take-copy_from t.chars value (omega arith), length-copy_from t.chars value 0 ∙ h)
  | no gt ↦
      let n : ltb capacity (length value) ≡ true = ground arith in
      let m : leb (length value) capacity ≡ false = ground arith in rw (n, m) (refl, refl, h)
]
