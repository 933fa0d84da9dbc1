-- ===== src/Text/Trim.antt =====
-- A character that a text does not have is not in the trimmed text.
use Prim.Native.Char.{code}
use Prim.Native.String.{[], ◌∷◌}
use wireguard_ui.Prelude.{ℕ, String, false, ◌&&◌, ◌≡◌, refl, ◌==◌, if_split, arith}
use wireguard_ui.Text.{is_space, trim_left, trim_right, trim_space, has_character}

absent-trim_left :
    (k : ℕ) (s : String) → has_character k s ≡ false → has_character k (trim_left s) ≡ false
unfolding trim_left has_character
absent-trim_left k [] h = refl
absent-trim_left k (c ∷ s) h = ground (arith, absent-trim_left k s)

absent-trim_right :
    (k : ℕ) (s : String) → has_character k s ≡ false → has_character k (trim_right s) ≡ false
unfolding trim_right has_character
absent-trim_right k [] h = refl
absent-trim_right k (c ∷ s) h =
    let rest : has_character k (c ∷ trim_right s) ≡ false = ground (arith, absent-trim_right k s) in
    if_split (λ (x : String). has_character k x ≡ false) (trim_right s == "" && is_space (code c))
      (λ _. refl) (λ _. rest)

pub has_character-trim_space :
    (k : ℕ) (s : String) → has_character k s ≡ false → has_character k (trim_space s) ≡ false
unfolding trim_space
has_character-trim_space k s h = absent-trim_right k (trim_left s) (absent-trim_left k s h)
