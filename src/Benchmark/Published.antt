-- ===== src/Benchmark/Published.antt =====
-- src/benchmark.cpp `run_benchmark`: the two files of the report, and the name that their directory
-- gets last.
use mathlib.Core.Path.{subst}
use bengal_market.Base.{
  Bool, Bool-cases, Bytes, Option, [], ap, arith, codes, false, if◌then◌else◌, inl, inr, length,
  length-append, refl, some, sym, take, true, ℕ, ◌++◌, ◌∙◌, ◌∷◌, ◌≡◌, ◌≢◌, ◌⊎◌,
}
use bengal_market.Benchmark.Absent.{Absent}
use bengal_market.Benchmark.Guards.{IsBeside, IsBeside-lies_under, below-IsBeside, demand-Guards}
use bengal_market.Benchmark.Host.{Build, Host, carry_out, ◌//◌}
use bengal_market.Benchmark.Laws.{IsHost}
use bengal_market.Benchmark.Manifest.{Facts, manifest_of}
use bengal_market.Benchmark.Page.{html_report}
use bengal_market.Benchmark.Process.{write_text}
use bengal_market.Benchmark.Program.{publish_report}
use bengal_market.Benchmark.Replays.{Place}
use bengal_market.Cli.Program.{call}
use bengal_market.Effects.{
  Done, Hoare, Hoare-bind, Hoare-unless, Hoare-weaken, Outcome, failure, raised, returned,
}
use bengal_market.Json.{JsonLib}
use bengal_market.Json.Value.{JsonValue}

-- A front of a text, which a stream's close left in its file when its flush failed. The code is not
-- told.
pub record IsTorn {H : Host} {fuel : ℕ} (V : IsHost H fuel) (text : Bytes) (file : Option Bytes)
    : Type 0 where
  pub path : Bytes
  pub w : H.World
  pub given : V.pending path w ≡ text
  pub failed : (H.close_stream path w).0 ≡ false
  pub front : ℕ
  pub left : file ≡ some (take front text)

-- What a file holds that a text was written to.
pub IsWritten :
    {H : Host} {fuel : ℕ} (V : IsHost H fuel) (text : Bytes) (file : Option Bytes) → Type 0
IsWritten V text file = (file ≡ some text) ⊎ IsTorn V text file

-- The directory holds the manifest and the page.
pub record IsReport {H : Host} {fuel : ℕ} (V : IsHost H fuel) (J : JsonLib) (build : Build)
    (dump pretty : JsonValue → Option Bytes) (directory : Bytes) (facts : Facts J) (s : H.World)
    : Type 0 where
  pub text : Bytes
  pub printed : pretty (manifest_of J build facts) ≡ some text
  pub manifest : IsWritten V (text ++ 10 ∷ []) (H.content (directory // codes "manifest.json") s)
  pub page : Bytes
  pub shown : html_report dump (manifest_of J build facts) ≡ some page
  pub report : IsWritten V page (H.content (directory // codes "report.html") s)

different :
    (directory : Bytes) → directory // codes "report.html" ≢ directory // codes "manifest.json"
different directory e =
    let l = ap length e in
    let a = length-append directory (b'/' ∷ codes "report.html") in
    let b = length-append directory (b'/' ∷ codes "manifest.json") in
    absurd (omega (arith, l, a, b))

module _ {H : Host} {fuel : ℕ} (V : IsHost H fuel) (q : Bytes) where
  carry_out-Hoare :
      (call : H.World → Bool × H.World) (what : Bytes) (pre post : H.World → Type 0)
      → ((s : H.World) → pre s → (call s).0 ≡ true → post (call s).1)
      → ((s : H.World) → pre s → (call s).0 ≡ false → Absent V q (call s).1)
      → Hoare pre (carry_out H call what) (λ u. post) (Absent V q)
  carry_out-Hoare call what pre post h k = record { run = λ s p. go s p (call s).0 refl }
    where
      go :
          (s : H.World)
          → pre s
          → (b : Bool) → (call s).0 ≡ b
          → Outcome
              (λ u. post)
              (Absent V q)
              (if b then returned tt else raised (failure what), (call s).1)
      go s p true e = h s p e
      go s p false e = k s p e

  close-IsWritten :
      (path value : Bytes) (s : H.World)
      → V.pending path s ≡ value
      → IsWritten V value (H.content path (H.close_stream path s).1)
  unfolding IsWritten
  close-IsWritten path value s given = elim (Bool-cases (H.close_stream path s).0) [
    | inl e ↦ inl (V.closed path s e ∙ ap some given)
    | inr e ↦ inr (record {
      path = path;
      w = s;
      given = given;
      failed = e;
      front = (V.torn path s e).0;
      left = (V.torn path s e).1 ∙ ap (λ t. some (take (V.torn path s e).0 t)) given;
    })
  ]

  -- A file that is written, with what is known of other files.
  write_text-Hoare :
      (path value : Bytes) (other : H.World → Type 0)
      → IsBeside q path
      → ((s : H.World) → other s → other (H.truncate path s).1)
      → ((s : H.World) → other s → other (H.write path value s).1)
      → ((s : H.World) → other s → other (H.close_stream path s).1)
      → Hoare
          (λ s. Absent V q s × other s)
          (write_text H path value)
          (λ u s. (Absent V q s × other s) × IsWritten V value (H.content path s))
          (Absent V q)
  unfolding write_text
  write_text-Hoare path value other b keeps keeps' keeps2 =
      Hoare-bind _ _ _ _ _ _
        (carry_out-Hoare (H.truncate path) _ _
          (λ s. (Absent V q s × other s) × (V.pending path s ≡ []))
          (λ s p e. (
            (V.truncate_absent path q s (IsBeside-lies_under q path b) p.0, keeps s p.1),
            V.truncated path s e,
          ))
          (λ s p e. V.truncate_absent path q s (IsBeside-lies_under q path b) p.0))
        (λ u.
          Hoare-bind _ _ _ Given _ _
            (record {
              run = λ s p. (
                (V.write_absent path value q s p.0.0, keeps' s p.0.1),
                λ e. V.written path value s e ∙ ap (λ t. t ++ value) p.1,
              );
            })
            (λ good.
              Hoare-bind _ _ _ (Closed good) _ _
                (record {
                  run = λ s p. (
                    (V.close_stream_absent path q s p.0.0, keeps2 s p.0.1),
                    λ e. close-IsWritten path value s (p.1 e),
                  );
                })
                (λ u.
                  Hoare-weaken _ _ _ _ _ _ _
                    (Hoare-unless good _ (Closed good u) (Absent V q) (λ s p e. p.0.0)) (λ s p. p)
                    (λ u s p. (p.0.0, p.0.1 p.1)) (λ s p. p))))
    where
      Given : Bool → H.World → Type 0
      Given good s = (Absent V q s × other s) × (good ≡ true → V.pending path s ≡ value)

      Closed : Bool → Done → H.World → Type 0
      Closed good u s =
          (Absent V q s × other s) × (good ≡ true → IsWritten V value (H.content path s))

module _ {H : Host} {fuel : ℕ} (V : IsHost H fuel) (J : JsonLib) (build : Build)
    (dump pretty : JsonValue → Option Bytes) (place : Place)
    (beside : IsBeside place.output place.working) (facts : Facts J) where
  pub publish_report-Hoare :
      Hoare
        (Absent V place.output)
        (publish_report H J build dump pretty fuel place facts)
        (λ u. IsReport V J build dump pretty place.output facts)
        (Absent V place.output)
  unfolding publish_report
  publish_report-Hoare =
      Hoare-bind _ _ _ _ _ _ (demand-Guards H (pretty (manifest_of J build facts)) _) (λ text.
        Hoare-bind _ _ _ _ _ _
          (write_text-Hoare V place.output manifest_path (text ++ 10 ∷ [])
            (λ s. pretty (manifest_of J build facts) ≡ some text) (named (codes "manifest.json"))
            (λ s e. e) (λ s e. e) (λ s e. e))
          (λ u.
            Hoare-bind _ _ _ _ _ _
              (Hoare-weaken _ _ _ _ _ _ _
                (demand-Guards H (html_report dump (manifest_of J build facts)) _) (λ s p. p)
                (λ a s p. p) (λ s p. p.0.0))
              (λ page.
                Hoare-bind _ _ _ _ _ _
                  (Hoare-weaken _ _ _ _ _ _ _
                    (write_text-Hoare V place.output page_path page (Ready text page)
                      (named (codes "report.html"))
                      (λ s r. (
                        r.0,
                        (
                          r.1.0,
                          subst (IsWritten V (text ++ 10 ∷ []))
                              (sym (
                                V.truncate_keeps page_path manifest_path s
                                  (different place.working)))
                              r.1.1,
                        ),
                      ))
                      (λ s r. (
                        r.0,
                        (
                          r.1.0,
                          subst (IsWritten V (text ++ 10 ∷ []))
                              (sym (
                                V.write_keeps page_path page manifest_path s
                                  (different place.working)))
                              r.1.1,
                        ),
                      ))
                      (λ s r. (
                        r.0,
                        (
                          r.1.0,
                          subst (IsWritten V (text ++ 10 ∷ []))
                              (sym (
                                V.close_stream_keeps page_path manifest_path s
                                  (different place.working)))
                              r.1.1,
                        ),
                      )))
                    (λ s p. (p.0.0.0, (p.0.0.1, (p.1, p.0.1)))) (λ u s p. p) (λ s p. p))
                  (λ u.
                    carry_out-Hoare V place.output (H.rename place.working place.output) _ _ _
                      (λ s p e. record {
                        text = text;
                        printed = p.0.1.0;
                        manifest =
                            subst (IsWritten V (text ++ 10 ∷ []))
                              (sym
                                (V.renamed place.working place.output (codes "manifest.json") s e))
                              p.0.1.1.1;
                        page = page;
                        shown = p.0.1.1.0;
                        report =
                            subst (IsWritten V page)
                              (sym (V.renamed place.working place.output (codes "report.html") s e))
                              p.1;
                      })
                      (λ s p e. V.rename_absent place.working place.output s e p.0.0)))))
    where
      manifest_path : Bytes
      manifest_path = place.working // codes "manifest.json"

      page_path : Bytes
      page_path = place.working // codes "report.html"

      named : (name : Bytes) → IsBeside place.output (place.working // name)
      named name = below-IsBeside place.output place.working name beside

      Ready : Bytes → Bytes → H.World → Type 0
      Ready text page s =
          (pretty (manifest_of J build facts) ≡ some text)
          × ((html_report dump (manifest_of J build facts) ≡ some page)
              × IsWritten V (text ++ 10 ∷ []) (H.content manifest_path s))
