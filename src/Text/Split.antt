-- ===== src/Text/Split.antt =====
-- `strings.Split` by one character, and `strings.Join`.
use Prim.Native.Char.{Char, code}
use Prim.Native.String
use Prim.Native.String.{String}
use wireguard_ui.Prelude.{ℕ, List, [], ◌∷◌, nat_eq, if◌then◌else◌}

abbrev prefixed : Char → List String → List String
prefixed c [] = String.◌∷◌ c "" ∷ []
prefixed c (w ∷ ws) = String.◌∷◌ c w ∷ ws

unfoldable pub split : ℕ → String → List String
split sep String.[] = "" ∷ []
split sep (String.◌∷◌ c s) =
    let rest = split sep s in if nat_eq (code c) sep then "" ∷ rest else prefixed c rest

unfoldable pub join : String → List String → String
join sep [] = ""
join sep (w ∷ []) = w
join sep (w ∷ v ∷ ws) = String.◌++◌ w (String.◌++◌ sep (join sep (v ∷ ws)))
