-- ===== src/Bank/Torn/Lines.antt =====
-- The only line of a file's end, as `LocalBank::new` of `server/src/bank.rs` splits it.
use dst_demo.Prelude.{
  ℕ, zero, suc, ◌≤◌, ◌≡◌, ◌≢◌, refl, ◌∙◌, ap, arith, [], ◌∷◌, ◌++◌, take, length, ◌⊎◌, inl, inr,
}
use dst_demo.Text.{Text, split}
use dst_demo.Text.Lines.{Lacks, split_lacking, split-append}
use dst_demo.Bank.Open.{non_empty}

-- All of a line, with or without the end of the line.
pub take_line :
    (n : ℕ) (w : Text) (c : ℕ)
    → length w ≤ n
    → (take n (w ++ c ∷ []) ≡ w) ⊎ (take n (w ++ c ∷ []) ≡ w ++ c ∷ [])
take_line zero [] c h = inl refl
take_line (suc zero) [] c h = inr refl
take_line (suc (suc n)) [] c h = inr refl
take_line zero (x ∷ w) c h = absurd (omega arith)
take_line (suc n) (x ∷ w) c h = elim (take_line n w c (omega arith)) [
  | inl e ↦ inl (ap (λ r. x ∷ r) e)
  | inr e ↦ inr (ap (λ r. x ∷ r) e)
]

non_empty_one : (w : Text) → w ≢ [] → non_empty (w ∷ []) ≡ w ∷ []
unfolding non_empty
non_empty_one [] h = absurd (h refl)
non_empty_one (c ∷ w) h = refl

-- A text of one line, with or without its end, has one line.
pub one_line : (w : Text) → w ≢ [] → Lacks b'\n' w → non_empty (split b'\n' w) ≡ w ∷ []
one_line w ne h = ap non_empty (split_lacking b'\n' w h) ∙ non_empty_one w ne

pub ended_line :
    (w : Text) → w ≢ [] → Lacks b'\n' w → non_empty (split b'\n' (w ++ b'\n' ∷ [])) ≡ w ∷ []
unfolding split non_empty
ended_line [] ne h = absurd (ne refl)
ended_line (c ∷ w) ne h = ap non_empty (split-append b'\n' (c ∷ w) [] h)
