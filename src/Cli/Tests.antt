-- ===== src/Cli/Tests.antt =====
-- Tests of the command line's options.
use bengal_market.Base.{[], codes, refl, some, ◌∷◌, ◌≡◌}
use bengal_market.Cli.{Arguments, parse_arguments}
use bengal_market.Cli.Options.{
  AllNew, parse_arguments-spell_options, parse_arguments_sound, spell_options,
}

abbrev given : Arguments
given = (codes "input", codes "a.jsonl") ∷ (codes "engine", codes "standard") ∷ []

parse_arguments-spell_options_example : parse_arguments (spell_options given) ≡ some given
parse_arguments-spell_options_example = parse_arguments-spell_options given (refl, (refl, tt))

parse_arguments_sound_example : (spell_options given ≡ spell_options given) × AllNew [] given
parse_arguments_sound_example =
    parse_arguments_sound (spell_options given) given parse_arguments-spell_options_example
