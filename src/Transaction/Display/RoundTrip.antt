-- ===== src/Transaction/Display/RoundTrip.antt =====
-- Reading back what was shown.

use dst_demo.Prelude.{refl, ℕ, suc, ◌≡◌, ◌≤◌, ◌<◌, ap, ◌∙◌, [], ◌∷◌, ◌++◌, arith, All, All-append}
use dst_demo.Prelude.Id.{ℤ, pos, negsuc, InI32}
use dst_demo.Text.{Text, codes, split, split_at}
use dst_demo.Text.Lines.{Lacks, split-append, split_lacking}
use dst_demo.Text.Number.{show_ℕ, show_ℤ, u64_max}
use dst_demo.Text.Number.RoundTrip.{IsDigit, show_ℕ-IsDigit, parse_i32-show, parse_unsigned-show}
use dst_demo.Outcome.{ok}
use dst_demo.Transaction.{Transaction}
use dst_demo.Platform.{Platform}
use dst_demo.Platform.Laws.{CentsLaws}
use dst_demo.Transaction.Display.{from_components, show_transaction, from_str}

-- What a 64-bit build can hold.
abbrev pub Fits : {D : Type 0} → Transaction D → Type 0
Fits t = InI32 t.id × (t.created_at ≤ u64_max)

-- Digits and the sign are none of the separators.
digits-Lacks : (c : ℕ) (s : Text) → c < 48 → All IsDigit s → Lacks c s
digits-Lacks c [] h a = tt
digits-Lacks c (d ∷ s) h a = (ground arith, digits-Lacks c s h a.1)

pub show_ℤ-Lacks : (c : ℕ) (z : ℤ) → c < 45 → Lacks c (show_ℤ z)
unfolding show_ℤ
show_ℤ-Lacks c (pos n) h = digits-Lacks c (show_ℕ n) (omega arith) (show_ℕ-IsDigit n)
show_ℤ-Lacks c (negsuc n) h =
    (ground arith, digits-Lacks c (show_ℕ (suc n)) (omega arith) (show_ℕ-IsDigit (suc n)))

pub show_ℕ-Lacks : (c n : ℕ) → c < 45 → Lacks c (show_ℕ n)
show_ℕ-Lacks c n h = digits-Lacks c (show_ℕ n) (omega arith) (show_ℕ-IsDigit n)

module _ {D : Type 0} (p : Platform D) (laws : CentsLaws p) where
  word-Lacks : (c : ℕ) (s : Text) → c ≤ 32 → All (λ d. (32 < d) × (d < 128)) s → Lacks c s
  word-Lacks c [] h a = tt
  word-Lacks c (d ∷ s) h a = (ground arith, word-Lacks c s h a.1)

  pub cents-Lacks : (c : ℕ) (a : D) → c ≤ 32 → Lacks c (p.show_cents a)
  cents-Lacks c a h = word-Lacks c (p.show_cents a) h (laws.ascii a)

  -- The three components of a shown transaction.
  split-show :
      (t : Transaction D)
      → split b' ' (show_transaction p t)
        ≡ (codes "id=" ++ show_ℤ t.id)
          ∷ (codes "created_at=" ++ show_ℕ t.created_at)
          ∷ (codes "amount=$" ++ p.show_cents t.amount)
          ∷ []
  unfolding show_transaction
  split-show t =
      split-append b' ' (codes "id=" ++ show_ℤ t.id) _ (
        All-append _ (codes "id=") (show_ℤ t.id) (ground arith)
          (show_ℤ-Lacks b' ' t.id (omega arith)))
      ∙ ap (λ r. (codes "id=" ++ show_ℤ t.id) ∷ r)
          (split-append b' ' (codes "created_at=" ++ show_ℕ t.created_at) _ (
              All-append _ (codes "created_at=") (show_ℕ t.created_at) (ground arith)
                (show_ℕ-Lacks b' ' t.created_at (omega arith)))
            ∙ ap (λ r. (codes "created_at=" ++ show_ℕ t.created_at) ∷ r)
                (split_lacking b' ' (codes "amount=$" ++ p.show_cents t.amount) (
                  All-append _ (codes "amount=$") (p.show_cents t.amount) (ground arith)
                    (cents-Lacks b' ' t.amount (omega arith)))))

  read_components :
      (t : Transaction D)
      → Fits t
      → (from_components p (
          (codes "id=" ++ show_ℤ t.id)
          ∷ (codes "created_at=" ++ show_ℕ t.created_at)
          ∷ (codes "amount=$" ++ p.show_cents t.amount)
          ∷ [])).0
        ≡ ok (record t { amount = laws.round t.amount })
  unfolding from_components split_at
  read_components t (id, created) = rw (
    parse_i32-show t.id id,
    parse_unsigned-show u64_max t.created_at created,
    laws.reads t.amount,
  )

  -- A shown transaction is read back, with the amount that the text of its amount is read as, if
  -- its identifier and time fit their machine integers and that text is one ASCII word.
  pub from_str-show :
      (t : Transaction D)
      → Fits t
      → from_str p (show_transaction p t) ≡ ok (record t { amount = laws.round t.amount })
  unfolding from_str
  from_str-show t fits = ap (λ ws. (from_components p ws).0) (split-show t) ∙ read_components t fits

  -- The text of a transaction is read back as a transaction of the same identifier and time, which
  -- is shown as the same text, if the identifier and the time fit their machine integers, and an
  -- amount shown with two places is one ASCII word that is read back as an amount which is shown
  -- the same with two places.
  pub show_transaction-from_str :
      (t : Transaction D)
      → ((a : D) → p.show_cents (laws.round a) ≡ p.show_cents a)
      → Fits t
      → (t' : Transaction D) × (from_str p (show_transaction p t) ≡ ok t')
        × (t'.id ≡ t.id)
        × (t'.created_at ≡ t.created_at)
        × (show_transaction p t' ≡ show_transaction p t)
  unfolding show_transaction
  show_transaction-from_str t rounded fits = (
    record t { amount = laws.round t.amount },
    from_str-show t fits,
    refl,
    refl,
    rw (rounded t.amount) refl,
  )
