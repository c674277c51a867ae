-- ===== src/Simulator/Http/Texts.antt =====
-- Splitting a text at a string: what the parts are made of.
use dst_demo.Prelude.{
  ℕ, zero, suc, ◌-◌, ◌≡◌, refl, sym, ◌∙◌, ap, arith, some, inl, inr, List, [], ◌∷◌, ◌++◌, length,
  drop, drop-append, Option-cases, ◌==◌, Bool-cases,
}
use dst_demo.Text.{Text, strip_prefix, prepend, join}
use dst_demo.Simulator.Http.{split_from, split_text}

-- A split has a first part.
pub split_from_cons :
    (sep : Text) (k : ℕ) (s : Text) → (w : Text) × (ws : List Text) × (split_from sep k s ≡ w ∷ ws)
unfolding split_from
split_from_cons sep k [] = ([], [], refl)
split_from_cons sep (suc k) (c ∷ s) = split_from_cons sep k s
split_from_cons sep zero (c ∷ s) = elim (Option-cases (strip_prefix sep (c ∷ s))) [
  | inl miss ↦
      let (w, ws, e) = split_from_cons sep 0 s in (c ∷ w, ws, rw (split_from, miss, e) refl)
  | inr (rest, hit) ↦ ([], split_from sep (length sep - 1) s, rw (split_from, hit) refl)
]

pub strip_prefix-some : (sep s rest : Text) → strip_prefix sep s ≡ some rest → s ≡ sep ++ rest
unfolding strip_prefix
strip_prefix-some [] s rest e = ground arith
strip_prefix-some (a ∷ sep) [] rest e = ground arith
strip_prefix-some (a ∷ sep) (b ∷ s) rest e = elim (Bool-cases (a == b)) [
  | inl same ↦ ground (arith, strip_prefix-some sep s rest)
  | inr other ↦ ground arith
]

join-prepend :
    (sep : Text) (c : ℕ) (w : Text) (ws : List Text)
    → join sep (prepend c (w ∷ ws)) ≡ c ∷ join sep (w ∷ ws)
unfolding join
join-prepend sep c w [] = refl
join-prepend sep c w (v ∷ ws) = refl

-- The parts joined by the separator are the text, less what was still to pass over.
join-split_from :
    (d : ℕ) (sep : Text) (k : ℕ) (s : Text) → join (d ∷ sep) (split_from (d ∷ sep) k s) ≡ drop k s
unfolding join split_from
join-split_from d sep zero [] = refl
join-split_from d sep (suc k) [] = refl
join-split_from d sep (suc k) (c ∷ s) = join-split_from d sep k s
join-split_from d sep zero (c ∷ s) = elim (Option-cases (strip_prefix (d ∷ sep) (c ∷ s))) [
  | inl miss ↦
      let (w, ws, e) = split_from_cons (d ∷ sep) 0 s in
      let rest : join (d ∷ sep) (w ∷ ws) ≡ s =
        ap (join (d ∷ sep)) (sym e) ∙ join-split_from d sep 0 s in
      rw (split_from, miss, e) (join-prepend (d ∷ sep) c w ws ∙ ap (λ r. c ∷ r) rest)
  | inr (rest, hit) ↦
      let passed : length (d ∷ sep) - 1 ≡ length sep = omega arith in
      let (w, ws, e) = split_from_cons (d ∷ sep) (length (d ∷ sep) - 1) s in
      let whole : c ∷ s ≡ d ∷ (sep ++ rest) = strip_prefix-some (d ∷ sep) (c ∷ s) rest hit in
      let tail : s ≡ sep ++ rest = ground arith in
      let later : join (d ∷ sep) (w ∷ ws) ≡ rest =
        ap (join (d ∷ sep)) (sym e)
        ∙ (join-split_from d sep (length (d ∷ sep) - 1) s
            ∙ (ap (λ n. drop n s) passed ∙ ap (drop (length sep)) tail ∙ drop-append sep rest)) in
      rw (split_from, hit, e) (ap (λ r. d ∷ (sep ++ r)) later ∙ sym whole)
]

-- Joining the parts of a split gives the text back.
pub join-split_text : (d : ℕ) (sep s : Text) → join (d ∷ sep) (split_text (d ∷ sep) s) ≡ s
join-split_text d sep s = join-split_from d sep 0 s
