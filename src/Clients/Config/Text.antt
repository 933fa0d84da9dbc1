-- ===== src/Clients/Config/Text.antt =====
-- Texts of whole lines, and the lines that they have.
use Prim.Native.String
use mathlib.Core.List
use text.Mathlib.TextLemmas.{append_assoc, nil-append, cons-append}
use wireguard_ui.Prelude.{
  ℕ, zero, suc, ◌/◌, ◌%◌, String, false, ◌≡◌, refl, sym, ap, ◌∙◌, List, [], ◌∷◌, ◌++◌, ltb, All,
  subst, if_split, arith,
}
use wireguard_ui.Text.{has_character}
use wireguard_ui.Text.Split.{split, join}
use wireguard_ui.Clients.Config.{digit_in, digits, decimal_from, line}

-- Texts one after the other.
infixr 65 ◌<>◌
abbrev pub ◌<>◌ : String → String → String
s <> t = String.◌++◌ s t

-- A text with no line break in it.
abbrev pub IsOneLine : String → Type 0
IsOneLine s = has_character b'\n' s ≡ false

pub IsOneLine-append : (s t : String) → IsOneLine s → IsOneLine t → IsOneLine (s <> t)
unfolding has_character
IsOneLine-append String.[] t h g = rw (nil-append t) g
IsOneLine-append (String.◌∷◌ c s) t h g =
    rw (cons-append c s t) (ground (arith, IsOneLine-append s t))

-- Before any rest, the text is these lines, each ended by a break.
unfoldable pub IsLines : String → List String → Type 0
IsLines text ls = (rest : String) → split b'\n' (text <> rest) ≡ ls ++ split b'\n' rest

pub newline : (rest : String) → "\n" <> rest ≡ String.◌∷◌ "\n" rest
newline rest = cons-append "\n" "" rest ∙ ap (λ (t : String). String.◌∷◌ "\n" t) (nil-append rest)

pub split-line :
    (s rest : String) → IsOneLine s → split b'\n' (s <> "\n" <> rest) ≡ s ∷ split b'\n' rest
unfolding split has_character
split-line String.[] rest h = rw (nil-append ("\n" <> rest)) (rw (newline rest) refl)
split-line (String.◌∷◌ c s) rest h =
    rw (cons-append c s ("\n" <> rest)) (ground (arith, split-line s rest))

pub line-IsLines : (s : String) → IsOneLine s → IsLines (s <> "\n") (s ∷ [])
unfolding IsLines
line-IsLines s h rest = ap (split b'\n') (append_assoc s "\n" rest) ∙ split-line s rest h

pub empty-IsLines : IsLines "" []
unfolding IsLines
empty-IsLines rest = ap (split b'\n') (nil-append rest)

pub append-IsLines :
    (s t : String) (ls ms : List String) → IsLines s ls → IsLines t ms → IsLines (s <> t) (ls ++ ms)
unfolding IsLines
append-IsLines s t ls ms h g rest =
    ap (split b'\n') (append_assoc s t rest)
    ∙ h (t <> rest)
    ∙ ap (λ (l : List String). ls ++ l) (g rest)
    ∙ sym (List.append_assoc ls ms (split b'\n' rest))

-- A line of a key and its value.
pub key_line :
    (key value : String)
    → IsOneLine key
    → IsOneLine value
    → IsLines (line key value) ((key <> " = " <> value) ∷ [])
unfolding has_character
key_line key value h g =
    let text = key <> " = " <> value in
    let e : line key value ≡ text <> "\n" =
      ap (λ (x : String). key <> x) (sym (append_assoc " = " value "\n"))
      ∙ sym (append_assoc key (" = " <> value) "\n") in
    subst (λ (x : String). IsLines x (text ∷ [])) (sym e)
      (line-IsLines text
        (IsOneLine-append key (" = " <> value) h (IsOneLine-append " = " value refl g)))

IsOneLine-digit_in : (ds : List String) (n : ℕ) → All IsOneLine ds → IsOneLine (digit_in ds n)
unfolding digit_in has_character
IsOneLine-digit_in [] n h = refl
IsOneLine-digit_in (d ∷ ds) zero h = h.0
IsOneLine-digit_in (d ∷ ds) (suc n) h = IsOneLine-digit_in ds n h.1

digits_lem : All IsOneLine digits
unfolding has_character
digits_lem = (refl, (refl, (refl, (refl, (refl, (refl, (refl, (refl, (refl, (refl, tt))))))))))

pub IsOneLine-decimal_from : (fuel n : ℕ) → IsOneLine (decimal_from fuel n)
unfolding decimal_from has_character
IsOneLine-decimal_from zero n = refl
IsOneLine-decimal_from (suc fuel) n =
    let last = IsOneLine-digit_in digits (n % 10) digits_lem in
    if_split IsOneLine (ltb n 10) (λ _. IsOneLine-digit_in digits n digits_lem)
      (λ _.
        IsOneLine-append (decimal_from fuel (n / 10)) (digit_in digits (n % 10))
          (IsOneLine-decimal_from fuel (n / 10)) last)

pub IsOneLine-join : (ws : List String) → All IsOneLine ws → IsOneLine (join "," ws)
unfolding join has_character
IsOneLine-join [] h = refl
IsOneLine-join (w ∷ []) h = h.0
IsOneLine-join (w ∷ v ∷ ws) h =
    IsOneLine-append w ("," <> join "," (v ∷ ws)) h.0
      (IsOneLine-append "," (join "," (v ∷ ws)) refl (IsOneLine-join (v ∷ ws) h.1))
