-- ===== src/Clients/Config/Entries.antt =====
-- The lines of single keys, of the headings and of an endpoint.
use text.Mathlib.TextLemmas.{append_assoc}
use wireguard_ui.Prelude.{
  ℕ, zero, suc, String, Bool, true, false, ◌≡◌, refl, sym, ap, ◌∙◌, List, [], ◌∷◌, ◌==◌, inl, inr,
  Bool-cases, subst, if◌then◌else◌,
}
use wireguard_ui.Text.{has_character}
use wireguard_ui.Clients.Config.{decimal, line, number_line}
use wireguard_ui.Session.Values.{ℤ, pos, negsuc}
use wireguard_ui.Clients.Config.Text.{
  ◌<>◌, IsOneLine, IsOneLine-append, IsLines, line-IsLines, empty-IsLines, append-IsLines, key_line,
  IsOneLine-decimal_from,
}

-- The lines that a configuration should have.
abbrev pub entry : String → String → List String
entry key value = (key <> " = " <> value) ∷ []

abbrev pub number_entry : String → ℤ → List String
number_entry key (pos zero) = []
number_entry key (pos (suc n)) = entry key (decimal (suc n))
number_entry key (negsuc n) = []

pub number_line-IsLines :
    (key : String) (n : ℤ) → IsOneLine key → IsLines (number_line key n) (number_entry key n)
unfolding decimal
number_line-IsLines key (pos zero) h = empty-IsLines
number_line-IsLines key (pos (suc n)) h =
    key_line key (decimal (suc n)) h (IsOneLine-decimal_from (suc (suc n)) (suc n))
number_line-IsLines key (negsuc n) h = empty-IsLines

pub either-IsLines :
    (b : Bool) (key value : String)
    → IsOneLine key
    → (b ≡ true → IsOneLine value)
    → IsLines (if b then line key value else "") (if b then entry key value else [])
either-IsLines true key value h g = key_line key value h (g refl)
either-IsLines false key value h g = empty-IsLines

pub blank : IsOneLine ""
unfolding has_character
blank = refl

pub interface_head : IsLines "[Interface]\n" ("[Interface]" ∷ [])
unfolding has_character
interface_head = line-IsLines "[Interface]" refl

pub peer_head : IsLines "\n[Peer]\n" ("" ∷ "[Peer]" ∷ [])
unfolding has_character
peer_head =
    append-IsLines "\n" "[Peer]\n" ("" ∷ []) ("[Peer]" ∷ []) (line-IsLines "" blank)
      (line-IsLines "[Peer]" refl)

pub preshared :
    (key : String)
    → IsOneLine key
    → IsLines
        (if key == "" then "" else line "PresharedKey" key)
        (if key == "" then [] else entry "PresharedKey" key)
unfolding has_character
preshared key h = elim (Bool-cases (key == "")) [
  | inl e ↦ rw e empty-IsLines
  | inr e ↦ rw e (key_line "PresharedKey" key refl h)
]

pub four :
    (a b c : String) (port : ℕ)
    → IsOneLine a
    → IsOneLine b
    → IsOneLine c
    → IsLines (a <> b <> c <> decimal port <> "\n") ((a <> b <> c <> decimal port) ∷ [])
unfolding decimal
four a b c port ha hb hc =
    let d = decimal port in
    let e : a <> b <> c <> d <> "\n" ≡ (a <> b <> c <> d) <> "\n" =
      ap (λ (x : String). a <> b <> x) (sym (append_assoc c d "\n"))
      ∙ ap (λ (x : String). a <> x) (sym (append_assoc b (c <> d) "\n"))
      ∙ sym (append_assoc a (b <> c <> d) "\n") in
    subst (λ (x : String). IsLines x ((a <> b <> c <> d) ∷ [])) (sym e)
      (line-IsLines (a <> b <> c <> d) (
        IsOneLine-append a (b <> c <> d) ha (
          IsOneLine-append b (c <> d) hb
            (IsOneLine-append c d hc (IsOneLine-decimal_from (suc port) port)))))
