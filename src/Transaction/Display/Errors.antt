-- ===== src/Transaction/Display/Errors.antt =====
-- The ways in which `Transaction::from_str` fails.

use dst_demo.Prelude.{ℕ, ◌≡◌, ◌≤◌, ◌<◌, All-append, ap, ◌∙◌, none, [], ◌∷◌, ◌++◌, arith}
use dst_demo.Prelude.Id.{ℤ, InI32}
use dst_demo.Text.{Text, codes, split, split_at, byte_len}
use dst_demo.Text.Split.{split_at_past_end}
use dst_demo.Text.Lines.{Lacks, split-append, split_lacking}
use dst_demo.Text.Number.{show_ℤ, show_ℕ, u64_max}
use dst_demo.Text.Number.RoundTrip.{parse_i32-show, parse_unsigned-show}
use dst_demo.Outcome.{err, panic}
use dst_demo.Platform.{Platform}
use dst_demo.Transaction.Display.RoundTrip.{show_ℤ-Lacks, show_ℕ-Lacks}
use dst_demo.Transaction.Display.{missing_created_at, from_components, from_str}

module _ {D : Type 0} (p : Platform D) where
  components :
      (id : ℤ) (created_at : ℕ)
      → split b' ' (codes "id=" ++ (show_ℤ id ++ (codes " created_at=" ++ show_ℕ created_at)))
        ≡ (codes "id=" ++ show_ℤ id) ∷ (codes "created_at=" ++ show_ℕ created_at) ∷ []
  components id created_at =
      split-append b' ' (codes "id=" ++ show_ℤ id) (codes "created_at=" ++ show_ℕ created_at)
        (All-append _ (codes "id=") (show_ℤ id) (ground arith) (show_ℤ-Lacks b' ' id (omega arith)))
      ∙ ap (λ r. (codes "id=" ++ show_ℤ id) ∷ r)
          (split_lacking b' ' (codes "created_at=" ++ show_ℕ created_at) (
            All-append _ (codes "created_at=") (show_ℕ created_at) (ground arith)
              (show_ℕ-Lacks b' ' created_at (omega arith))))

  fails :
      (id : ℤ) (created_at : ℕ)
      → InI32 id
      → created_at ≤ u64_max
      → (from_components p
          ((codes "id=" ++ show_ℤ id) ∷ (codes "created_at=" ++ show_ℕ created_at) ∷ [])).0
        ≡ err missing_created_at
  unfolding from_components split_at
  fails id created_at h k = rw (parse_i32-show id h, parse_unsigned-show u64_max created_at k)

  -- A text that has an identifier and a time, which fit their machine integers, and no amount is
  -- refused as one whose time is missing.
  pub from_str_no_amount :
      (id : ℤ) (created_at : ℕ)
      → InI32 id
      → created_at ≤ u64_max
      → from_str p (codes "id=" ++ (show_ℤ id ++ (codes " created_at=" ++ show_ℕ created_at)))
        ≡ err missing_created_at
  unfolding from_str
  from_str_no_amount id created_at h k =
      ap (λ ws. (from_components p ws).0) (components id created_at) ∙ fails id created_at h k

  panics : (s : Text) → split_at 3 s ≡ none → (from_components p (s ∷ [])).0 ≡ panic
  unfolding from_components
  panics s e = rw e

  -- A text of one word that has fewer bytes than "id=" makes `from_str` panic.
  pub from_str_short : (s : Text) → Lacks b' ' s → byte_len s < 3 → from_str p s ≡ panic
  unfolding from_str
  from_str_short s l h =
      ap (λ ws. (from_components p ws).0) (split_lacking b' ' s l)
      ∙ panics s (split_at_past_end 3 s h)
