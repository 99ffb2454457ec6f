-- ===== src/Json/Laws.antt =====
-- What src/core.cpp relies on in the JSON library where it reads what it wrote: `dump` throws, on
-- texts that are no UTF-8, or makes a text that, once parsed, shows the value again. Without an
-- indent the text is one line.
use bengal_market.Base.{
  Bytes, Lacks, Option, [], eq_text, is_some, length, some, true, ℕ, ◌++◌, ◌<◌, ◌==◌, ◌^◌, ◌∷◌, ◌≡◌,
  ◌≢◌, ◌≤◌,
}
use bengal_market.Json.{JsonLib}
use bengal_market.Json.Value.{
  Items, JsonValue, Members, find_member, json_array, json_item, json_number, json_object,
  json_string, json_weight, no_items,
}

pub record IsShown (J : JsonLib) (dump : JsonValue → Option Bytes) : Type 1 where
  pub Shows : J.Json → JsonValue → Type 0
  pub parse_dump :
      (v : JsonValue) (s : Bytes)
      → dump v ≡ some s
      → (j : J.Json) × ((J.parse s ≡ some j) × Shows j v)
  -- White space behind a value is skipped.
  pub parse_line :
      (v : JsonValue) (s : Bytes)
      → dump v ≡ some s
      → (j : J.Json) × ((J.parse (s ++ 10 ∷ []) ≡ some j) × Shows j v)
  pub at_shown :
      (j : J.Json) (ms : Members) (key : Bytes) (v : JsonValue)
      → Shows j (json_object ms)
      → find_member key ms ≡ some v
      → (j' : J.Json) × ((J.at j key ≡ some j') × Shows j' v)
  pub contains_shown :
      (j : J.Json) (ms : Members) (key : Bytes)
      → Shows j (json_object ms)
      → J.contains j key ≡ is_some (find_member key ms)
  pub string_shown : (j : J.Json) (s : Bytes) → Shows j (json_string s) → J.get_string j ≡ some s
  pub u64_shown : (j : J.Json) (n : ℕ) → n < 2 ^ 64 → Shows j (json_number n) → J.get_u64 j ≡ some n
  pub array_shown : (j : J.Json) (vs : Items) → Shows j (json_array vs) → J.is_array j ≡ true
  pub no_elements : (j : J.Json) → Shows j (json_array no_items) → J.elements j ≡ []
  pub one_element :
      (j : J.Json) (v : JsonValue)
      → Shows j (json_array (json_item v no_items))
      → (j' : J.Json) × ((J.elements j ≡ j' ∷ []) × Shows j' v)
  pub text_equals :
      (j : J.Json) (s t : Bytes) → Shows j (json_string s) → J.equals_text j t ≡ eq_text s t
  pub number_equals :
      (j : J.Json) (n m : ℕ) → Shows j (json_number n) → J.equals_number j m ≡ (n == m)

pub record IsJson (J : JsonLib) (dump : JsonValue → Option Bytes) : Type 1 where
  pub shown : IsShown J dump
  -- A dumped value is one line.
  pub dump_line : (v : JsonValue) (s : Bytes) → dump v ≡ some s → Lacks 10 s × (s ≢ [])
  pub dump_length : (v : JsonValue) (s : Bytes) → dump v ≡ some s → length s ≤ json_weight v
