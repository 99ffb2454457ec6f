-- ===== src/Cli.antt =====
-- src/main.cpp: the command line's options. A thrown `std::invalid_argument` is `none`; the map of
-- the options is a list of pairs.
pub mod Options
pub mod Signals
pub mod Program
mod Tests
use bengal_market.Base.{
  Bool, Bytes, List, Option, [], drop, eq_text, false, if◌then◌else◌, is_empty, is_some, none, not,
  some, true, ℕ, ◌&&◌, ◌++◌, ◌==◌, ◌||◌, ◌∷◌,
}
use bengal_market.Charconv.{parse_uint}
use bengal_market.Charconv.Print.{print_uint}

abbrev pub Arguments : Type 0
Arguments = List (Bytes × Bytes)

-- `values.find(name)`.
abbrev pub find_option : Bytes → Arguments → Option Bytes
find_option name [] = none
find_option name ((n, v) ∷ rest) = if eq_text n name then some v else find_option name rest

-- `std::string_view(argv[index]).find("--") != 0` is its negation.
abbrev pub is_option : Bytes → Bool
is_option (a ∷ b ∷ name) = (a == b'-') && (b == b'-')
is_option _ = false

-- The loop of `parse_arguments`; `result` holds the options read before.
pub parse_from : Arguments → List Bytes → Option Arguments
parse_from result [] = some result
parse_from result (name ∷ []) = none
parse_from result (name ∷ value ∷ rest) =
    let later = parse_from (result ++ (drop 2 name, value) ∷ []) rest in
    if not (is_option name) || is_some (find_option (drop 2 name) result) then none else later

pub parse_arguments : List Bytes → Option Arguments
unfolding parse_from
parse_arguments argv = parse_from [] argv

pub required : Arguments → Bytes → Option Bytes
required values name = elim (find_option name values) [
  | none ↦ none
  | some v ↦ if is_empty v then none else some v
]

unfoldable pub value_or : Arguments → Bytes → Bytes → Bytes
value_or values name fallback = elim (find_option name values) [ none ↦ fallback | some v ↦ v ]

unfoldable pub unsigned_value : Arguments → Bytes → ℕ → Option ℕ
unsigned_value values name fallback = parse_uint (value_or values name (print_uint fallback))

abbrev pub is_known : Bytes → List Bytes → Bool
is_known name [] = false
is_known name (candidate ∷ accepted) = eq_text name candidate || is_known name accepted

-- `true` where `reject_unknown` returns.
unfoldable pub reject_unknown : Arguments → List Bytes → Bool
reject_unknown [] accepted = true
reject_unknown ((name, unused) ∷ rest) accepted =
    is_known name accepted && reject_unknown rest accepted
