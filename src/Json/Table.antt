-- ===== src/Json/Table.antt =====
-- A small JSON library for the tests: its values are those that are written, and a table names the
-- text of each.
use mathlib.Core.Option.{some-injective}
use mathlib.Core.Path.{subst}
use bengal_market.Base.{
  Bool, Bytes, Lacks, List, Option, [], ap, append-nil, arith, eq_text, false, if◌then◌else◌,
  is_empty, is_some, leb, length, none, not, refl, some, sym, true, ℕ, ◌&&◌, ◌++◌, ◌==◌, ◌∙◌, ◌∷◌,
  ◌≡◌, ◌≢◌,
}
use bengal_market.Histogram.Inv.{table}
use bengal_market.Json.{JsonLib}
use bengal_market.Json.Laws.{IsJson}
use bengal_market.Json.Same.{and_true, same_value, same_value_sound}
use bengal_market.Json.Value.{
  Items, JsonValue, find_member, json_array, json_item, json_number, json_object, json_string,
  json_weight, no_items,
}

abbrev lookup_text : Bytes → List (Bytes × JsonValue) → Option JsonValue
lookup_text s [] = none
lookup_text s ((t, v) ∷ rest) = if eq_text t s then some v else lookup_text s rest

abbrev unbroken_text : Bytes → Bool
unbroken_text [] = true
unbroken_text (c ∷ s) = not (c == 10) && unbroken_text s

abbrev drop_breaks : Bytes → Bytes
drop_breaks [] = []
drop_breaks (c ∷ s) = if c == 10 then drop_breaks s else c ∷ drop_breaks s

drop_breaks-line : (s rest : Bytes) → Lacks 10 s → drop_breaks (s ++ rest) ≡ s ++ drop_breaks rest
drop_breaks-line [] rest u = refl
drop_breaks-line (c ∷ s) rest u =
    let a : (c == 10) ≡ false = ground (arith, u.0) in
    rw a (ap (λ t. c ∷ t) (drop_breaks-line s rest u.1))

abbrev same_found : Option JsonValue → JsonValue → Bool
same_found none v = false
same_found (some w) v = same_value w v

same_found_sound :
    (o : Option JsonValue) (v : JsonValue)
    → same_found o v ≡ true
    → (w : JsonValue) × ((o ≡ some w) × (w ≡ v))
same_found_sound none v h = absurd (ground (arith, h))
same_found_sound (some w) v h = (w, (refl, same_value_sound w v h))

unbroken_text_sound : (s : Bytes) → unbroken_text s ≡ true → Lacks 10 s
unbroken_text_sound [] h = tt
unbroken_text_sound (c ∷ s) h =
    let (a, b) = and_true (not (c == 10)) (unbroken_text s) h in
    (ground (arith, a), unbroken_text_sound s b)

not_empty : (s : Bytes) → not (is_empty s) ≡ true → s ≢ []
not_empty [] h e = absurd (ground (arith, h))
not_empty (c ∷ s) h e = absurd (ground (arith, e))

-- The text `s` stands for `v`.
abbrev stands_for : Option JsonValue → Bytes → JsonValue → Bool
stands_for found s v =
    (same_found found v && unbroken_text s) && (not (is_empty s) && leb (length s) (json_weight v))

abbrev first_text : List (Bytes × JsonValue) → List (Bytes × JsonValue) → JsonValue → Option Bytes
first_text table [] v = none
first_text table ((s, w) ∷ rest) v =
    if stands_for (lookup_text s table) s v then some s else first_text table rest v

abbrev member_of : JsonValue → Bytes → Option JsonValue
member_of (json_object ms) key = find_member key ms
member_of _ key = none

abbrev items_of : JsonValue → List JsonValue
items_of (json_array vs) = go vs
  where
    go : Items → List JsonValue
    go no_items = []
    go (json_item v vs) = v ∷ go vs
items_of _ = []

abbrev string_of : JsonValue → Option Bytes
string_of (json_string s) = some s
string_of _ = none

abbrev number_of : JsonValue → Option ℕ
number_of (json_number n) = some n
number_of _ = none

abbrev array_like : JsonValue → Bool
array_like (json_array vs) = true
array_like _ = false

abbrev equals_string : Option Bytes → Bytes → Bool
equals_string none t = false
equals_string (some s) t = eq_text s t

abbrev equals_count : Option ℕ → ℕ → Bool
equals_count none m = false
equals_count (some n) m = n == m

module _ (table : List (Bytes × JsonValue)) where
  abbrev pub table_library : JsonLib
  table_library = record {
    Json = JsonValue;
    parse = λ s. lookup_text (drop_breaks s) table;
    at = member_of;
    contains = λ v key. is_some (member_of v key);
    get_string = string_of;
    get_u64 = number_of;
    is_array = array_like;
    elements = items_of;
    equals_text = λ v. equals_string (string_of v);
    equals_number = λ v. equals_count (number_of v);
  }

  abbrev pub table_dump : JsonValue → Option Bytes
  table_dump = first_text table table

  first_text-stands_for :
      (rest : List (Bytes × JsonValue)) (v : JsonValue) (s : Bytes)
      → first_text table rest v ≡ some s
      → stands_for (lookup_text s table) s v ≡ true
  first_text-stands_for [] v s e = absurd (ground (arith, e))
  first_text-stands_for ((t, w) ∷ rest) v s e =
      go (stands_for (lookup_text t table) t v) refl e (first_text-stands_for rest v s)
    where
      go :
          (b : Bool)
          → stands_for (lookup_text t table) t v ≡ b
          → (if b then some t else first_text table rest v) ≡ some s
          → (first_text table rest v ≡ some s → stands_for (lookup_text s table) s v ≡ true)
          → stands_for (lookup_text s table) s v ≡ true
      go true h e k =
          subst (λ s. stands_for (lookup_text s table) s v ≡ true) (some-injective t s e) h
      go false h e k = k e

  parts :
      (v : JsonValue) (s : Bytes)
      → table_dump v ≡ some s
      → ((same_found (lookup_text s table) v ≡ true) × (unbroken_text s ≡ true))
        × ((not (is_empty s) ≡ true) × (leb (length s) (json_weight v) ≡ true))
  parts v s e =
      let (a, b) = and_true _ _ (first_text-stands_for table v s e) in
      (and_true _ _ a, and_true _ _ b)

  parsed :
      (v : JsonValue) (s t : Bytes)
      → table_dump v ≡ some s
      → drop_breaks t ≡ s
      → (w : JsonValue) × ((lookup_text (drop_breaks t) table ≡ some w) × (w ≡ v))
  parsed v s t e same =
      subst (λ t. (w : JsonValue) × ((lookup_text t table ≡ some w) × (w ≡ v))) (sym same)
        (same_found_sound (lookup_text s table) v (parts v s e).0.0)

  pub table_library-IsJson : IsJson table_library table_dump
  table_library-IsJson = record {
    shown = record {
      Shows = λ j v. j ≡ v;
      parse_dump = λ v s e. parsed v s s e (
          ap drop_breaks (sym (append-nil s))
          ∙ drop_breaks-line s [] (unbroken_text_sound s (parts v s e).0.1)
          ∙ append-nil s);
      parse_line = λ v s e.
          parsed v s (s ++ 10 ∷ []) e
            (drop_breaks-line s (10 ∷ []) (unbroken_text_sound s (parts v s e).0.1) ∙ append-nil s);
      at_shown = λ j ms key v e h. (v, (ap (λ j. member_of j key) e ∙ h, refl));
      contains_shown = λ j ms key e. ap (λ j. is_some (member_of j key)) e;
      string_shown = λ j s e. ap string_of e;
      u64_shown = λ j n h e. ap number_of e;
      array_shown = λ j vs e. ap array_like e;
      no_elements = λ j e. ap items_of e;
      one_element = λ j v e. (v, (ap items_of e, refl));
      text_equals = λ j s t e. ap (λ j. equals_string (string_of j) t) e;
      number_equals = λ j n m e. ap (λ j. equals_count (number_of j) m) e;
    };
    dump_line = λ v s e. (unbroken_text_sound s (parts v s e).0.1, not_empty s (parts v s e).1.0);
    dump_length = λ v s e. let h = (parts v s e).1.1 in ground (arith, h);
  }
