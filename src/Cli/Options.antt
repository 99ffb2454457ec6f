-- ===== src/Cli/Options.antt =====
-- src/main.cpp `parse_arguments` and `unsigned_value`.
use mathlib.Core.Option.{some-injective}
use mathlib.Core.Path.{subst}
use bengal_market.Base.{
  Bool-cases, Bytes, List, [], ap, append-nil, append_assoc, arith, drop, inl, inr, is_some, none,
  not, refl, some, sym, true, ℕ, ◌++◌, ◌||◌, ◌∙◌, ◌∷◌, ◌≡◌, ◌≤◌,
}
use bengal_market.Base.Words.{max_u64}
use bengal_market.Charconv.{parse_uint}
use bengal_market.Charconv.Laws.{parse_uint_complete}
use bengal_market.Charconv.Print.{
  decimal_value-print_uint, print_uint, print_uint-IsDigit, print_uint-ne-nil,
}
use bengal_market.Cli.{
  Arguments, find_option, is_option, parse_arguments, parse_from, unsigned_value, value_or,
}

-- The command line that gives these options.
abbrev pub spell_options : Arguments → List Bytes
spell_options [] = []
spell_options ((name, value) ∷ rest) = (b'-' ∷ b'-' ∷ name) ∷ value ∷ spell_options rest

-- Each name differs from those before it and those in `seen`.
abbrev pub AllNew : Arguments → Arguments → Type 0
AllNew result [] = Unit
AllNew result ((name, value) ∷ rest) =
    (find_option name result ≡ none) × AllNew (result ++ (name, value) ∷ []) rest

parse_from-spell_options :
    (result options : Arguments)
    → AllNew result options
    → parse_from result (spell_options options) ≡ some (result ++ options)
unfolding parse_from
parse_from-spell_options result [] h = ap some (sym (append-nil result))
parse_from-spell_options result ((name, value) ∷ rest) (h, hs) = rw h (
    parse_from-spell_options (result ++ (name, value) ∷ []) rest hs
    ∙ ap some (append_assoc result ((name, value) ∷ []) rest))

is_option-dashes : (s : Bytes) → is_option s ≡ true → b'-' ∷ b'-' ∷ drop 2 s ≡ s
is_option-dashes [] e = cc e
is_option-dashes (a ∷ []) e = cc e
is_option-dashes (a ∷ b ∷ s) e = ground (arith, e)

parse_from_sound :
    (result : Arguments) (argv : List Bytes) (options : Arguments)
    → parse_from result argv ≡ some options
    → (added : Arguments) × (options ≡ result ++ added)
      × (spell_options added ≡ argv)
      × AllNew result added
unfolding parse_from
parse_from_sound result [] options e =
    ([], sym (some-injective _ _ e) ∙ sym (append-nil result), refl, tt)
parse_from_sound result (name ∷ []) options e = cc e
parse_from_sound result (name ∷ value ∷ rest) options e =
    elim (Bool-cases (not (is_option name) || is_some (find_option (drop 2 name) result))) [
      | inl bad ↦ cc (rw bad at e)
      | inr good ↦
          let dashes : is_option name ≡ true = ground (arith, good) in
          let new : find_option (drop 2 name) result ≡ none = ground (arith, good) in
          let (added, o, w, fresh) =
            parse_from_sound (result ++ (drop 2 name, value) ∷ []) rest options (rw good at e) in
          (
            (drop 2 name, value) ∷ added,
            o ∙ append_assoc result ((drop 2 name, value) ∷ []) added,
            rw w (ap (λ n. n ∷ value ∷ rest) (is_option-dashes name dashes)),
            (new, fresh),
          )
    ]

-- A command line that `parse_arguments` accepts is a row of pairs `--name value` with different
-- names, and the options are those pairs, in their order.
pub parse_arguments_sound :
    (argv : List Bytes) (options : Arguments)
    → parse_arguments argv ≡ some options
    → (spell_options options ≡ argv) × AllNew [] options
unfolding parse_arguments
parse_arguments_sound argv options e =
    let (added, o, w, fresh) = parse_from_sound [] argv options e in
    subst (λ x. (spell_options x ≡ argv) × AllNew [] x) (sym o) (w, fresh)

-- Every row of pairs `--name value` with different names is read back.
pub parse_arguments-spell_options :
    (options : Arguments)
    → AllNew [] options
    → parse_arguments (spell_options options) ≡ some options
unfolding parse_arguments
parse_arguments-spell_options options h = parse_from-spell_options [] options h

value_or-none :
    (values : Arguments) (name fallback : Bytes)
    → find_option name values ≡ none
    → value_or values name fallback ≡ fallback
unfolding value_or
value_or-none values name fallback e = ap (λ o. elim o [ none ↦ fallback | some v ↦ v ]) e

-- An option that is not given has its default, for every default that is a `uint64_t`.
pub unsigned_value-default :
    (values : Arguments) (name : Bytes) (fallback : ℕ)
    → find_option name values ≡ none
    → fallback ≤ max_u64
    → unsigned_value values name fallback ≡ some fallback
unfolding unsigned_value
unsigned_value-default values name fallback e h =
    let n = decimal_value-print_uint fallback in
    ap parse_uint (value_or-none values name (print_uint fallback) e)
    ∙ parse_uint_complete (print_uint fallback) (print_uint-ne-nil fallback)
        (print_uint-IsDigit fallback) (omega (arith, n))
    ∙ ap some n
