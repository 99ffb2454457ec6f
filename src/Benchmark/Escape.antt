-- ===== src/Benchmark/Escape.antt =====
-- src/benchmark.cpp `html_escape`: what it writes, and that HTML reads it back.
use mathlib.Core.Path.{subst}
use native.Mathlib.Decide.{ℕ_discrete}
use bengal_market.Base.{Bytes, [], arith, codes, sym, ℕ, ◌++◌, ◌∷◌, ◌≡◌, ◌≢◌}
use bengal_market.Benchmark.{escape_byte, html_escape}

-- What HTML reads for the four references that are written here, named without their ampersand.
pub data IsReference : ℕ → Bytes → Type 0 where
  ampersand : IsReference b'&' (codes "amp;")
  less_than : IsReference b'<' (codes "lt;")
  greater_than : IsReference b'>' (codes "gt;")
  quotation : IsReference 34 (codes "quot;")

-- A byte that HTML does not read as markup, as the end of an attribute or as a reference.
abbrev pub IsPlain : ℕ → Type 0
IsPlain c = (c ≢ b'<') × (c ≢ b'>') × (c ≢ 34) × (c ≢ b'&')

-- The text of HTML that a text is shown by: plain bytes stand for themselves, and an ampersand
-- stands only before one of the four references.
pub data Displays : Bytes → Bytes → Type 0 where
  shown_end : Displays [] []
  shown_byte : {c : ℕ} {t s : Bytes} → IsPlain c → Displays t s → Displays (c ∷ t) (c ∷ s)
  shown_reference :
      {c : ℕ} {name t s : Bytes}
      → IsReference c name
      → Displays t s
      → Displays (b'&' ∷ name ++ t) (c ∷ s)

escape_byte-Displays : (c : ℕ) (t s : Bytes) → Displays t s → Displays (escape_byte c ++ t) (c ∷ s)
escape_byte-Displays c t s h = elim (ℕ_discrete c b'&') [
  | yes e ↦ at b'&' e (shown_reference ampersand h)
  | no a ↦ elim (ℕ_discrete c b'<') [
    | yes e ↦ at b'<' e (shown_reference less_than h)
    | no l ↦ elim (ℕ_discrete c b'>') [
      | yes e ↦ at b'>' e (shown_reference greater_than h)
      | no g ↦ elim (ℕ_discrete c 34) [
        | yes e ↦ at 34 e (shown_reference quotation h)
        | no q ↦
            let same : escape_byte c ≡ c ∷ [] = ground arith in
            subst (λ u. Displays (u ++ t) (c ∷ s)) (sym same) (shown_byte (l, g, q, a) h)
      ]
    ]
  ]
]
  where
    at :
        (b : ℕ)
        → c ≡ b
        → Displays (escape_byte b ++ t) (b ∷ s)
        → Displays (escape_byte c ++ t) (c ∷ s)
    at b e = subst (λ b. Displays (escape_byte b ++ t) (b ∷ s)) (sym e)

-- The escaped text shows the text: it has no angle bracket and no double quote, an ampersand stands
-- in it only before one of the four references, and what HTML reads in it is the text.
pub html_escape-Displays : (s : Bytes) → Displays (html_escape s) s
unfolding html_escape
html_escape-Displays [] = shown_end
html_escape-Displays (c ∷ s) = escape_byte-Displays c (html_escape s) s (html_escape-Displays s)
