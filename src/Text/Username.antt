-- ===== src/Text/Username.antt =====
-- What the username pattern of handler/routes.go keeps out of file names.
use Prim.Native.Char.{code}
use Prim.Native.String.{[], ◌∷◌}
use wireguard_ui.Prelude.{String, ◌≡◌, ◌≢◌, true, arith}
use wireguard_ui.Text.{username_tail, username_matches}

-- No slash, no backslash and no NUL.
abbrev pub IsPlain : String → Type 0
IsPlain [] = Unit
IsPlain (c ∷ s) = (code c ≢ b'/') × (code c ≢ 92) × (code c ≢ 0) × IsPlain s

username_tail-IsPlain : (s : String) → username_tail s ≡ true → IsPlain s
unfolding username_tail
username_tail-IsPlain [] h = tt
username_tail-IsPlain (c ∷ s) h = ground (arith, username_tail-IsPlain s)

-- The file name has no separator and does not begin with a dot.
abbrev pub IsFileStem : String → Type 0
IsFileStem [] = ⊥
IsFileStem (c ∷ s) = (code c ≢ b'.') × IsPlain (c ∷ s)

-- A name that passes the pattern is not empty, holds no slash, backslash or NUL and does not begin
-- with a dot, so `users/<name>.json` stays inside the collection's directory.
pub username_matches-IsFileStem : (s : String) → username_matches s ≡ true → IsFileStem s
unfolding username_matches
username_matches-IsFileStem [] h = ground arith
username_matches-IsFileStem (c ∷ s) h = ground (arith, username_tail-IsPlain s)
