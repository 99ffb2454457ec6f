-- ===== src/Benchmark/Guards.antt =====
-- src/benchmark.cpp: what single calls of Host keep, and where its file names stand.
use bengal_market.Base.{
  Bool, Bytes, Option, [], ap, append_assoc, arith, codes, eq_text, false, if◌then◌else◌, none,
  refl, some, true, ℕ, ◌++◌, ◌==◌, ◌∙◌, ◌∷◌, ◌≡◌,
}
use bengal_market.Benchmark.Host.{Host, answered, carry_out, demand, ignored, query, ◌//◌}
use bengal_market.Benchmark.Laws.{ends_in_slash, lies_under}
use bengal_market.Benchmark.Machine.{starts_with}
use bengal_market.Cli.Program.{call}
use bengal_market.Effects.{Guards, Outcome, Result, failure, raised, returned}

eq_text_longer : (q rest : Bytes) (c : ℕ) → eq_text q (q ++ c ∷ rest) ≡ false
eq_text_longer [] rest c = refl
eq_text_longer (x ∷ q) rest c =
    let e : (x == x) ≡ true = ground arith in rw e (eq_text_longer q rest c)

starts_with_other : (q rest : Bytes) → starts_with (q ++ b'.' ∷ rest) (q ++ b'/' ∷ []) ≡ false
starts_with_other [] rest = refl
starts_with_other (x ∷ q) rest =
    let e : (x == x) ≡ true = ground arith in rw e (starts_with_other q rest)

-- A name beside the output, which does not end in a slash, or below such a name.
pub record IsBeside (q p : Bytes) : Type 0 where
  pub plain : ends_in_slash q ≡ false
  pub rest : Bytes
  pub beside : p ≡ q ++ b'.' ∷ rest

pub IsBeside-lies_under : (q p : Bytes) → IsBeside q p → lies_under q p ≡ false
IsBeside-lies_under q p b =
    rw (b.plain, b.beside) (rw (eq_text_longer q b.rest b'.') (starts_with_other q b.rest))

pub working-IsBeside : (q : Bytes) → ends_in_slash q ≡ false → IsBeside q (q ++ codes ".part")
working-IsBeside q plain = record { plain = plain; rest = codes "part"; beside = refl }

pub below-IsBeside : (q p name : Bytes) → IsBeside q p → IsBeside q (p // name)
below-IsBeside q p name b = record {
  plain = b.plain;
  rest = b.rest ++ b'/' ∷ name;
  beside = ap (λ p. p // name) b.beside ∙ append_assoc q (b'.' ∷ b.rest) (b'/' ∷ name);
}

module _ (H : Host) {P : H.World → Type 0} where
  pub query-Guards :
      {A : Type 0} (call : H.World → Option A) (what : Bytes)
      → Guards P (query H call what) (λ a. (s : H.World) × (P s × (call s ≡ some a)))
  query-Guards {A} call what = record { run = λ s p. go s p (call s) refl }
    where
      go :
          (s : H.World)
          → P s
          → (o : Option A) → call s ≡ o
          → Outcome
              (λ a s. P s × ((s : H.World) × (P s × (call s ≡ some a))))
              P
              (elim o as (λ o. Result A) [ none ↦ raised (failure what) | some a ↦ returned a ], s)
      go s p none e = p
      go s p (some a) e = (p, (s, (p, e)))

  pub demand-Guards :
      {A : Type 0} (o : Option A) (what : Bytes) → Guards P (demand H o what) (λ a. o ≡ some a)
  demand-Guards {A} o what = record { run = λ s p. go s p o refl }
    where
      go :
          (s : H.World)
          → P s
          → (o' : Option A) → o ≡ o'
          → Outcome
              (λ a s. P s × (o ≡ some a))
              P
              (elim o' as (λ o. Result A) [ none ↦ raised (failure what) | some a ↦ returned a ], s)
      go s p none e = p
      go s p (some a) e = (p, e)

  pub answered-Guards :
      (call : H.World → Bool × H.World)
      → ((s : H.World) → P s → P (call s).1)
      → Guards P (answered H call) (λ b. Unit {0})
  answered-Guards call k = record { run = λ s p. (k s p, tt) }

  pub ignored-Guards :
      (call : H.World → Bool × H.World)
      → ((s : H.World) → P s → P (call s).1)
      → Guards P (ignored H call) (λ u. Unit {0})
  ignored-Guards call k = record { run = λ s p. (k s p, tt) }

  pub carry_out-Guards :
      (call : H.World → Bool × H.World) (what : Bytes)
      → ((s : H.World) → P s → P (call s).1)
      → Guards P (carry_out H call what) (λ u. Unit {0})
  carry_out-Guards call what k = record { run = λ s p. go (call s).0 (call s).1 (k s p) }
    where
      go :
          (b : Bool) (s : H.World)
          → P s
          → Outcome (λ u s. P s × Unit {0}) P (if b then returned tt else raised (failure what), s)
      go true s p = (p, tt)
      go false s p = p
