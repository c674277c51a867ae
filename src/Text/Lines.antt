-- ===== src/Text/Lines.antt =====
-- Splitting a text at a character, after joining parts that do not hold it.
use dst_demo.Prelude.{ℕ, ◌≡◌, refl, ◌∙◌, ap, false, List, [], ◌∷◌, ◌++◌, All, ◌==◌, arith}
use dst_demo.Text.{Text, split, join}

-- The text does not hold the character.
abbrev pub Lacks : ℕ → Text → Type 0
Lacks c = All (λ d. (d == c) ≡ false)

pub split_lacking : (c : ℕ) (w : Text) → Lacks c w → split c w ≡ w ∷ []
unfolding split
split_lacking c [] h = refl
split_lacking c (d ∷ w) h = rw (h.0, split_lacking c w h.1)

-- The first part ends at the first separator.
pub split-append : (c : ℕ) (w s : Text) → Lacks c w → split c (w ++ c ∷ s) ≡ w ∷ split c s
unfolding split
split-append c [] s h = ground arith
split-append c (d ∷ w) s h = rw (h.0, split-append c w s h.1)

-- Splitting what was joined gives the parts back, if there is a part and none holds the separator.
pub split-join :
    (c : ℕ) (w : Text) (ws : List Text)
    → All (Lacks c) (w ∷ ws)
    → split c (join (c ∷ []) (w ∷ ws)) ≡ w ∷ ws
unfolding join
split-join c w [] h = split_lacking c w h.0
split-join c w (v ∷ ws) h =
    split-append c w (join (c ∷ []) (v ∷ ws)) h.0 ∙ ap (λ r. w ∷ r) (split-join c v ws h.1)
