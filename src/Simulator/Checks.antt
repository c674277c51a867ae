-- ===== src/Simulator/Checks.antt =====
-- What the banker asserts of a reply: `simulator/src/client/banker/mod.rs`. An assertion that fails
-- and a panic inside it both end the banker.
use dst_demo.Prelude.{
  ◌≡◌, refl, arith, Bool, true, false, some, inl, inr, List, [], ◌∷◌, All, ◌||◌, Option-cases,
  Bool-cases,
}
use dst_demo.Prelude.Id.{ℤ, eq_ℤ}
use mathlib.Core.Path.{subst}
use dst_demo.Text.{Text, text_eq}
use dst_demo.Outcome.{Outcome, ok, err, panic}
use dst_demo.Transaction.{Transaction}
use dst_demo.Transaction.Display.{FromStrError, from_str}
use dst_demo.Transaction.Display.RoundTrip.{Fits, from_str-show}
use dst_demo.Platform.{Platform}
use dst_demo.Platform.Laws.{CentsLaws}
use dst_demo.Bank.{find}
use dst_demo.Server.Handlers.{not_found, shown_or_not_found}

find-All :
    {D : Type 0} (P : Transaction D → Type 0) (id : ℤ) (ts : List (Transaction D))
    (t : Transaction D)
    → All P ts
    → find id ts ≡ some t
    → P t × (eq_ℤ t.id id ≡ true)
unfolding find
find-All P id [] t h e = absurd (ground arith)
find-All P id (u ∷ ts) t (h, hs) e = elim (Bool-cases (eq_ℤ u.id id)) [
  | inl hit ↦
      let here : u ≡ t = ground arith in (subst P here h, subst (λ x. eq_ℤ x.id id ≡ true) here hit)
  | inr miss ↦ find-All P id ts t hs (ground arith)
]

module _ {D : Type 0} (p : Platform D) where
  -- `is_ok_and(|x| x.id == id)`
  abbrev pub is_ok_with : ℤ → Outcome FromStrError (Transaction D) → Bool
  is_ok_with id (ok t) = eq_ℤ t.id id
  is_ok_with id (err e) = false
  is_ok_with id panic = false

  -- The assertion on the reply to `GET_TRANSACTION`.
  unfoldable pub accepts_transaction : ℤ → Text → Bool
  accepts_transaction id m = text_eq m not_found || is_ok_with id (from_str p m)

  or-true : (a : Bool) → (a || true) ≡ true
  or-true true = refl
  or-true false = refl

  -- The server's reply to a lookup of an identifier passes the banker's assertion on it, as long as
  -- the identifiers and times of the log fit their machine integers and the text of an amount is
  -- one ASCII word that is read back.
  pub shown_or_not_found-accepts :
      (laws : CentsLaws p) (id : ℤ) (ts : List (Transaction D))
      → All Fits ts
      → accepts_transaction id (shown_or_not_found p (find id ts)) ≡ true
  unfolding accepts_transaction
  shown_or_not_found-accepts laws id ts h = elim (Option-cases (find id ts)) [
    | inl missing ↦ rw (missing, accepts_transaction) refl
    | inr (t, found) ↦
        let (fits, same) = find-All Fits id ts t h found in
        rw (found, accepts_transaction, from_str-show p laws t fits, same) (or-true _)
  ]
