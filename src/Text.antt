-- ===== src/Text.antt =====
-- What the source uses of Go's `strings`, `strconv` and `regexp`: `strings.TrimSpace`,
-- `strings.EqualFold` against a lower-case ASCII word, and `usernameRegexp` of handler/routes.go.
pub mod Username
pub mod Split
pub mod Trim
use Prim.Native.Char.{Char, code}
use Prim.Native.String.{[], ◌∷◌}
use wireguard_ui.Prelude.{
  ℕ, ◌+◌, String, Bool, true, false, ◌&&◌, ◌||◌, ◌==◌, leb, nat_eq, if◌then◌else◌,
}

-- Unicode White_Space.
is_space : ℕ → Bool
is_space c =
    (leb 9 c && leb c 13)
    || nat_eq c 32
    || nat_eq c 0x85
    || nat_eq c 0xa0
    || nat_eq c 0x1680
    || (leb 0x2000 c && leb c 0x200a)
    || nat_eq c 0x2028
    || nat_eq c 0x2029
    || nat_eq c 0x202f
    || nat_eq c 0x205f
    || nat_eq c 0x3000

trim_left : String → String
trim_left [] = []
trim_left (c ∷ s) = let rest = trim_left s in if is_space (code c) then rest else c ∷ s

trim_right : String → String
trim_right [] = []
trim_right (c ∷ s) =
    let rest = trim_right s in if rest == "" && is_space (code c) then [] else c ∷ rest

unfoldable pub trim_space : String → String
unfolding trim_left trim_right is_space
trim_space s = trim_right (trim_left s)

is_newline : ℕ → Bool
is_newline c = nat_eq c 10 || nat_eq c 13

trim_newlines_left : String → String
trim_newlines_left [] = []
trim_newlines_left (c ∷ s) =
    let rest = trim_newlines_left s in if is_newline (code c) then rest else c ∷ s

trim_newlines_right : String → String
trim_newlines_right [] = []
trim_newlines_right (c ∷ s) =
    let rest = trim_newlines_right s in if rest == "" && is_newline (code c) then [] else c ∷ rest

-- `strings.Trim(s, "\r\n")`
unfoldable pub trim_newlines : String → String
unfolding trim_newlines_left trim_newlines_right is_newline
trim_newlines s = trim_newlines_right (trim_newlines_left s)

-- `strings.Trim(s, ";:,")`
is_separator : Char → Bool
is_separator c = nat_eq (code c) b';' || nat_eq (code c) b':' || nat_eq (code c) b','

unfoldable pub trim_separators_left : String → String
unfolding is_separator
trim_separators_left [] = []
trim_separators_left (c ∷ s) =
    let rest = trim_separators_left s in if is_separator c then rest else c ∷ s

unfoldable pub trim_separators_right : String → String
unfolding is_separator
trim_separators_right [] = []
trim_separators_right (c ∷ s) =
    let rest = trim_separators_right s in
    if rest == "" then (if is_separator c then [] else c ∷ []) else c ∷ rest

-- `strings.ReplaceAll(s, "\r\n", "\n")`
unfoldable pub replace_crlf : String → String
replace_crlf [] = []
replace_crlf (c ∷ []) = c ∷ []
replace_crlf (c ∷ d ∷ s) =
    let rest = replace_crlf (d ∷ s) in
    if nat_eq (code c) 13 && nat_eq (code d) 10 then rest else c ∷ rest

lower : ℕ → ℕ
lower c = if leb b'A' c && leb c b'Z' then c + 32 else c

-- Exact where the second text is lower-case ASCII with no `k` and no `s`, whose only case variants
-- are then the ASCII ones.
unfoldable pub equal_fold : String → String → Bool
unfolding lower
equal_fold [] [] = true
equal_fold (c ∷ s) (d ∷ t) = nat_eq (lower (code c)) (code d) && equal_fold s t
equal_fold _ _ = false

-- `strings.HasSuffix`
unfoldable pub has_suffix : String → String → Bool
has_suffix [] t = [] == t
has_suffix (c ∷ s) t = (c ∷ s) == t || has_suffix s t

-- `\w`
unfoldable pub is_word : ℕ → Bool
is_word c =
    (leb b'0' c && leb c b'9')
    || (leb b'A' c && leb c b'Z')
    || nat_eq c b'_'
    || (leb b'a' c && leb c b'z')

-- `[\w\-.]*$`
unfoldable pub username_tail : String → Bool
unfolding is_word
username_tail [] = true
username_tail (c ∷ s) =
    (is_word (code c) || nat_eq (code c) b'-' || nat_eq (code c) b'.') && username_tail s

-- `usernameRegexp.MatchString`: `^\w[\w\-.]*$`
unfoldable pub username_matches : String → Bool
unfolding is_word username_tail
username_matches [] = false
username_matches (c ∷ s) = is_word (code c) && username_tail s

-- `strings.ToLower(s) == t`, for a text `t` of ASCII characters. Beyond ASCII only U+0130 and U+212A
-- have an ASCII letter for their lower case.
lower_of : ℕ → ℕ
lower_of c = if nat_eq c 0x130 then b'i' else if nat_eq c 0x212a then b'k' else lower c

unfoldable pub lowers_to : String → String → Bool
unfolding lower_of lower
lowers_to [] [] = true
lowers_to (c ∷ s) (d ∷ t) = nat_eq (lower_of (code c)) (code d) && lowers_to s t
lowers_to _ _ = false

-- `strings.Contains`, for one character.
unfoldable pub has_character : ℕ → String → Bool
has_character k [] = false
has_character k (c ∷ s) = nat_eq (code c) k || has_character k s
