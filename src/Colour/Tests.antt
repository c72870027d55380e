-- ===== src/Colour/Tests.antt =====
-- colour.go: names with one and with two colours in them.
use go_aioesphomeapi.Base.{◌≡◌, refl, ◌⊎◌, false, none, codes, pos, negsuc}
use go_aioesphomeapi.Wire.Noise.Rejection.{starts}
use go_aioesphomeapi.Conveyor.Texts.{decimal}
use go_aioesphomeapi.Colour.{
  colour_mode_names, name_in, mode_string, replace_all, colour_mode_name, parse_colour_mode,
}
use go_aioesphomeapi.Colour.RoundTrip.{IsKnown, parse_colour_mode-colour_mode_name}

temperature_name : colour_mode_name (pos 11) ≡ codes "COLOUR_MODE_COLOUR_TEMPERATURE"
unfolding colour_mode_name mode_string name_in replace_all starts
temperature_name = refl

unnamed_number : colour_mode_name (negsuc 11) ≡ codes "-12"
unfolding colour_mode_name mode_string name_in replace_all starts decimal
unnamed_number = refl

parse_colour_mode-colour_mode_name_example :
    IsKnown (pos 19)
    ⊎ ((name_in colour_mode_names (pos 19) ≡ none)
        × (parse_colour_mode (colour_mode_name (pos 19)) ≡ (pos 0, false)))
parse_colour_mode-colour_mode_name_example = parse_colour_mode-colour_mode_name (pos 19)
