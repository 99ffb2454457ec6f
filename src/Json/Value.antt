-- ===== src/Json/Value.antt =====
-- The JSON values that src/core.cpp builds from initializer lists and gives to `dump`.
use bengal_market.Base.{
  Bool, Bytes, List, Option, [], eq_text, if◌then◌else◌, length, none, some, ℕ, ◌*◌, ◌+◌, ◌∷◌,
}

mutual
  pub data JsonValue : Type 0 where
    json_string : Bytes → JsonValue
    json_number : ℕ → JsonValue
    json_bool : Bool → JsonValue
    json_array : Items → JsonValue
    json_object : Members → JsonValue

  pub data Items : Type 0 where
    no_items : Items
    json_item : JsonValue → Items → Items

  pub data Members : Type 0 where
    no_members : Members
    json_member : Bytes → JsonValue → Members → Members

abbrev pub find_member : Bytes → Members → Option JsonValue
find_member key no_members = none
find_member key (json_member k v ms) = if eq_text k key then some v else find_member key ms

abbrev pub object_of : List (Bytes × JsonValue) → JsonValue
object_of l = json_object (members l)
  where
    members : List (Bytes × JsonValue) → Members
    members [] = no_members
    members ((k, v) ∷ rest) = json_member k v (members rest)

abbrev pub array_of : List JsonValue → JsonValue
array_of l = json_array (items l)
  where
    items : List JsonValue → Items
    items [] = no_items
    items (v ∷ rest) = json_item v (items rest)

-- `at`, and `get` as a text or a truth value, where they do not throw.
abbrev pub at_value : JsonValue → Bytes → Option JsonValue
at_value (json_object ms) key = find_member key ms
at_value _ key = none

abbrev pub text_of : JsonValue → Option Bytes
text_of (json_string s) = some s
text_of _ = none

abbrev pub bool_of : JsonValue → Option Bool
bool_of (json_bool b) = some b
bool_of _ = none

-- The most bytes that a value takes: six for a byte of a text, and twenty for a `uint64_t`.
unfoldable mutual
  pub json_weight : JsonValue → ℕ
  json_weight (json_string s) = 6 * length s + 2
  json_weight (json_number n) = 20
  json_weight (json_bool b) = 5
  json_weight (json_array vs) = json_weight_items vs + 2
  json_weight (json_object ms) = json_weight_members ms + 2

  pub json_weight_items : Items → ℕ
  json_weight_items no_items = 0
  json_weight_items (json_item v vs) = json_weight v + 1 + json_weight_items vs

  pub json_weight_members : Members → ℕ
  json_weight_members no_members = 0
  json_weight_members (json_member k v ms) =
      6 * length k + 4 + json_weight v + json_weight_members ms
