-- ===== src/Fixture/Metadata.antt =====
-- src/core.cpp: `read_capture` on the first line that `generate_fixture` writes.
use bengal_market.Base.{
  Bool, Bytes, Option, ap, bind_some, codes, false, guard, is_empty, length, ltb, none, not, refl,
  some, true, ◌&&◌, ◌||◌, ◌∙◌, ◌≡◌,
}
use bengal_market.Capture.{
  all_products, caught, fresh_reader, metadata_fits, read_line, read_record, read_typed,
}
use bengal_market.Fixture.{fixture_metadata}
use bengal_market.Fixture.Frame.{reader_at}
use bengal_market.Fixture.Shown.{guarded, is_empty-ne, only-shown, text_at-shown, thrown_not}
use bengal_market.Json.{JsonLib}
use bengal_market.Json.Laws.{IsJson}
use bengal_market.Json.Value.{JsonValue, json_number, json_string}

module _ {J : JsonLib} {dump : JsonValue → Option Bytes} (V : IsJson J dump) where
  metadata_fits-shown :
      (product_id : Bytes) (j : J.Json)
      → (is_empty product_id || ltb 20 (length product_id)) ≡ false
      → V.shown.Shows j (fixture_metadata product_id)
      → metadata_fits J false j ≡ some tt
  unfolding metadata_fits all_products fixture_metadata
  metadata_fits-shown product_id j fits shown =
      let (format, (found, shown')) =
        V.shown.at_shown j _ (codes "format") (json_string (codes "bengal-market-capture")) shown
          refl in
      let (version, (found', shown'')) =
        V.shown.at_shown j _ (codes "version") (json_number 1) shown refl in
      let (ids, (found'', (is, (one, (single, named))))) =
        only-shown V.shown j _ shown (codes "product_ids") (json_string product_id) refl in
      let name : J.get_string one ≡ some product_id = V.shown.string_shown one product_id named in
      let all : all_products J (J.elements ids) ≡ true =
        ap (all_products J) single
        ∙ ap
            (λ o.
              (elim o as (λ o. Bool) [
                | none ↦ false
                | some product ↦ not (is_empty product || ltb 20 (length product))
              ])
              && true)
            name
        ∙ ap (λ b. not b && true) fits in
      guarded _ _ _ refl (
        bind_some _ _ _ _ found (
          guarded _ _ _ (V.shown.text_equals format _ (codes "bengal-market-capture") shown') (
            bind_some _ _ _ _ found' (
              guarded _ _ _ (V.shown.number_equals version 1 1 shown'') (
                bind_some _ _ _ _
                  (text_at-shown V.shown j _ shown (codes "source")
                    (codes "deterministic-generator") refl)
                  (bind_some _ _ _ _ found''
                    (guarded _ _ _ (rw (is, single) refl) (ap guard all))))))))

  -- So is the first line, as the metadata.
  pub read_line-metadata :
      (product_id line : Bytes)
      → (is_empty product_id || ltb 20 (length product_id)) ≡ false
      → dump (fixture_metadata product_id) ≡ some line
      → read_line J fresh_reader line ≡ reader_at product_id 0
  unfolding read_line read_record read_typed fixture_metadata
  read_line-metadata product_id line fits e =
      let (j, (parsed, shown)) = V.shown.parse_dump (fixture_metadata product_id) line e in
      let full : is_empty line ≡ false = is_empty-ne line (V.dump_line _ line e).1 in
      rw full (
        ap (caught J) (
          thrown_not _ _ _ _ _ parsed (
            thrown_not _ _ _ _ _
              (text_at-shown V.shown j _ shown (codes "type") (codes "metadata") refl)
              (thrown_not _ _ _ _ _ (metadata_fits-shown product_id j fits shown) refl))))
