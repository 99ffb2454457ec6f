-- ===== src/Fixture/Shown.antt =====
-- src/core.cpp: the lookups of `read_capture` in a JSON value that shows a written one.
use bengal_market.Base.{
  Bool, Bytes, Option, [], ap, bind_some, false, guard, is_empty, refl, some, true, ℕ, ◌<◌, ◌>>◌,
  ◌^◌, ◌∙◌, ◌∷◌, ◌≡◌, ◌≢◌,
}
use bengal_market.Capture.{Reader, number_at, or_throw, text_at}
use bengal_market.Fixture.{only}
use bengal_market.Json.{JsonLib}
use bengal_market.Json.Laws.{IsShown}
use bengal_market.Json.Value.{
  JsonValue, Members, find_member, json_item, json_number, json_object, json_string, no_items,
}

pub thrown_not :
    {A : Type 0} (r : Reader) (o : Option A) (k : A → Reader × Bool) (a : A) (x : Reader × Bool)
    → o ≡ some a
    → k a ≡ x
    → or_throw r o k ≡ x
thrown_not r o k a x e h = ap (λ o. or_throw r o k) e ∙ h

pub is_empty-ne : (s : Bytes) → s ≢ [] → is_empty s ≡ false
is_empty-ne [] h = absurd (h refl)
is_empty-ne (c ∷ s) h = refl

pub guarded :
    {A : Type 0} (b : Bool) (o : Option A) (r : Option A) → b ≡ true → o ≡ r → (guard b >> o) ≡ r
guarded b o r e h = ap (λ b. guard b >> o) e ∙ h

module _ {J : JsonLib} {dump : JsonValue → Option Bytes} (V : IsShown J dump) where
  module _ (j : J.Json) (ms : Members) (shown : V.Shows j (json_object ms)) where
    pub text_at-shown :
        (key s : Bytes) → find_member key ms ≡ some (json_string s) → text_at J j key ≡ some s
    text_at-shown key s e =
        let (j', (found, shown')) = V.at_shown j ms key (json_string s) shown e in
        bind_some (J.at j key) J.get_string j' (some s) found (V.string_shown j' s shown')

    pub number_at-shown :
        (key : Bytes) (n : ℕ)
        → n < 2 ^ 64
        → find_member key ms ≡ some (json_number n)
        → number_at J j key ≡ some n
    number_at-shown key n h e =
        let (j', (found, shown')) = V.at_shown j ms key (json_number n) shown e in
        bind_some (J.at j key) J.get_u64 j' (some n) found (V.u64_shown j' n h shown')

    -- The one element of an array at a key.
    pub only-shown :
        (key : Bytes) (v : JsonValue)
        → find_member key ms ≡ some (only v)
        → (a : J.Json) × ((J.at j key ≡ some a)
            × ((J.is_array a ≡ true) × ((j' : J.Json) × ((J.elements a ≡ j' ∷ []) × V.Shows j' v))))
    only-shown key v e =
        let (a, (found, shown')) = V.at_shown j ms key (only v) shown e in
        (a, (found, (V.array_shown a (json_item v no_items) shown', V.one_element a v shown')))
