-- ===== src/Json/Same.antt =====
-- When two of the JSON values that are written are the same.
use bengal_market.Base.{
  Bool, Bytes, [], ap, arith, eq_text, false, if◌then◌else◌, not, refl, sym, true, ◌&&◌, ◌==◌, ◌∷◌,
  ◌≡◌,
}
use bengal_market.Json.Value.{
  Items, JsonValue, Members, json_array, json_bool, json_item, json_member, json_number,
  json_object, json_string, no_items, no_members,
}

unfoldable mutual
  pub same_value : JsonValue → JsonValue → Bool
  same_value (json_string s) (json_string t) = eq_text s t
  same_value (json_number n) (json_number m) = n == m
  same_value (json_bool b) (json_bool c) = if b then c else not c
  same_value (json_array vs) (json_array ws) = same_items vs ws
  same_value (json_object ms) (json_object ns) = same_members ms ns
  same_value _ _ = false

  pub same_items : Items → Items → Bool
  same_items no_items no_items = true
  same_items (json_item v vs) (json_item w ws) = same_value v w && same_items vs ws
  same_items _ _ = false

  pub same_members : Members → Members → Bool
  same_members no_members no_members = true
  same_members (json_member k v ms) (json_member l w ns) =
      eq_text k l && (same_value v w && same_members ms ns)
  same_members _ _ = false

pub and_true : (a b : Bool) → (a && b) ≡ true → (a ≡ true) × (b ≡ true)
and_true true b h = (refl, h)
and_true false b h = absurd (ground (arith, h))

pub eq_text_sound : (s t : Bytes) → eq_text s t ≡ true → s ≡ t
eq_text_sound [] [] h = refl
eq_text_sound [] (y ∷ t) h = absurd (ground (arith, h))
eq_text_sound (x ∷ s) [] h = absurd (ground (arith, h))
eq_text_sound (x ∷ s) (y ∷ t) h =
    let (a, b) = and_true (x == y) (eq_text s t) h in
    let e : x ≡ y = ground (arith, a) in (λ i. e i ∷ eq_text_sound s t b i)

same_bool : (b c : Bool) → (if b then c else not c) ≡ true → b ≡ c
same_bool true c h = sym h
same_bool false false h = refl
same_bool false true h = absurd (ground (arith, h))

mutual
  unfolding same_value

  pub same_value_sound : (v w : JsonValue) → same_value v w ≡ true → v ≡ w
  same_value_sound (json_string s) (json_string t) h = ap json_string (eq_text_sound s t h)
  same_value_sound (json_number n) (json_number m) h = ap json_number (ground (arith, h))
  same_value_sound (json_bool b) (json_bool c) h = ap json_bool (same_bool b c h)
  same_value_sound (json_array vs) (json_array ws) h = ap json_array (same_items_sound vs ws h)
  same_value_sound (json_object ms) (json_object ns) h = ap json_object (same_members_sound ms ns h)
  same_value_sound _ _ h = absurd (ground (arith, h))

  same_items_sound : (vs ws : Items) → same_items vs ws ≡ true → vs ≡ ws
  same_items_sound no_items no_items h = refl
  same_items_sound (json_item v vs) (json_item w ws) h =
      let (a, b) = and_true _ _ h in
      λ i. json_item (same_value_sound v w a i) (same_items_sound vs ws b i)
  same_items_sound _ _ h = absurd (ground (arith, h))

  same_members_sound : (ms ns : Members) → same_members ms ns ≡ true → ms ≡ ns
  same_members_sound no_members no_members h = refl
  same_members_sound (json_member k v ms) (json_member l w ns) h =
      let (a, b) = and_true _ _ h in
      let (c, d) = and_true _ _ b in
      λ i.
        json_member (eq_text_sound k l a i) (same_value_sound v w c i)
          (same_members_sound ms ns d i)
  same_members_sound _ _ h = absurd (ground (arith, h))
