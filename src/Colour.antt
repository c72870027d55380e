-- ===== src/Colour.antt =====
-- colour.go: the names of the colour modes in the library's spelling, and back.
pub mod RoundTrip
mod Tests
use go_aioesphomeapi.Base.{
  ℕ, suc, ◌-◌, Bool, true, false, ◌&&◌, Option, none, some, List, [], ◌∷◌, ◌++◌, ◌==◌,
  if◌then◌else◌, length, Bytes, codes, bytes_equal, ℤ, pos, negsuc,
}
use go_aioesphomeapi.Wire.Noise.Rejection.{starts}
use go_aioesphomeapi.Conveyor.Texts.{decimal}

-- `ColorMode_name` of the generated code.
abbrev pub colour_mode_names : List (ℤ × Bytes)
colour_mode_names =
    (pos 0, codes "COLOR_MODE_UNKNOWN")
    ∷ (pos 1, codes "COLOR_MODE_ON_OFF")
    ∷ (pos 2, codes "COLOR_MODE_LEGACY_BRIGHTNESS")
    ∷ (pos 3, codes "COLOR_MODE_BRIGHTNESS")
    ∷ (pos 7, codes "COLOR_MODE_WHITE")
    ∷ (pos 11, codes "COLOR_MODE_COLOR_TEMPERATURE")
    ∷ (pos 19, codes "COLOR_MODE_COLD_WARM_WHITE")
    ∷ (pos 35, codes "COLOR_MODE_RGB")
    ∷ (pos 39, codes "COLOR_MODE_RGB_WHITE")
    ∷ (pos 47, codes "COLOR_MODE_RGB_COLOR_TEMPERATURE")
    ∷ (pos 51, codes "COLOR_MODE_RGB_COLD_WARM_WHITE")
    ∷ []

abbrev same_mode : ℤ → ℤ → Bool
same_mode (pos a) (pos b) = a == b
same_mode (negsuc a) (negsuc b) = a == b
same_mode _ _ = false

unfoldable pub name_in : List (ℤ × Bytes) → ℤ → Option Bytes
name_in [] mode = none
name_in ((m, name) ∷ rest) mode =
    let later = name_in rest mode in if same_mode m mode then some name else later

unfoldable pub mode_in : List (ℤ × Bytes) → Bytes → Option ℤ
mode_in [] name = none
mode_in ((m, n) ∷ rest) name =
    let later = mode_in rest name in if bytes_equal n name then some m else later

-- `(ColorMode).String`: the name, or the number of a mode that has none.
unfoldable pub mode_string : ℤ → Bytes
unfolding name_in
mode_string mode = elim (name_in colour_mode_names mode) [
  | some name ↦ name
  | none ↦ elim mode [ pos n ↦ decimal n | negsuc n ↦ codes "-" ++ decimal (suc n) ]
]

-- `strings.ReplaceAll` of a text that is not empty, with the bytes still to skip after an occurrence.
unfoldable pub replace_all : Bytes → Bytes → ℕ → Bytes → Bytes
replace_all old new skip [] = []
replace_all old new skip (b ∷ bs) =
    let hit = skip == 0 && starts old (b ∷ bs) in
    let rest = replace_all old new (if hit then length old - 1 else skip - 1) bs in
    if hit then new ++ rest else if skip == 0 then b ∷ rest else rest

-- `ColourModeName`
unfoldable pub colour_mode_name : ℤ → Bytes
unfolding mode_string replace_all
colour_mode_name mode = replace_all (codes "COLOR") (codes "COLOUR") 0 (mode_string mode)

-- `ParseColourMode`
unfoldable pub parse_colour_mode : Bytes → ℤ × Bool
unfolding mode_in replace_all
parse_colour_mode name =
    elim (mode_in colour_mode_names (replace_all (codes "COLOUR") (codes "COLOR") 0 name)) [
      | none ↦ (pos 0, false)
      | some mode ↦ (mode, true)
    ]
