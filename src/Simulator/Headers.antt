-- ===== src/Simulator/Headers.antt =====
-- The comparison of HTTP headers: `headers_contains_in_order` of `simulator/src/http.rs`. A
-- `BTreeMap` is walked as the list of its entries, ordered by their keys.
use dst_demo.Prelude.{
  ◌≡◌, refl, sym, arith, Bool, true, false, Option, none, some, inl, inr, ◌↔◌, List, [], ◌∷◌,
  if◌then◌else◌, ◌&&◌, Option-cases, Bool-cases, Sublist, Sublist-rest,
}
use mathlib.Core.Path.{subst}
use dst_demo.Text.{Text, text_eq}
use dst_demo.Text.Split.{text_eq_refl, eq_of_text_eq}

abbrev pub Header : Type 0
Header = Text × Text

abbrev pub same : Header → Header → Bool
same expected actual = text_eq expected.0 actual.0 && text_eq expected.1 actual.1

-- The inner `loop`: what the iterator has left behind the first entry that is the expected one.
unfoldable pub find_next : Header → List Header → Option (List Header)
find_next expected [] = none
find_next expected (actual ∷ iter) =
    let rest = find_next expected iter in if same expected actual then some iter else rest

unfoldable pub headers_contains_in_order : List Header → List Header → Bool
headers_contains_in_order [] iter = true
headers_contains_in_order (e ∷ expected) iter = elim (find_next e iter) [
  | none ↦ false
  | some rest ↦ headers_contains_in_order expected rest
]

and-true : (a b : Bool) → (a && b) ≡ true → (a ≡ true) × (b ≡ true)
and-true true true h = (refl, refl)
and-true true false h = ground arith
and-true false b h = ground arith

eq_of_same : (x y : Header) → same x y ≡ true → x ≡ y
eq_of_same (k, v) (k', v') h =
    let (keys, values) = and-true (text_eq k k') (text_eq v v') h in
    rw (eq_of_text_eq k k' keys, eq_of_text_eq v v' values) refl

same_refl : (x : Header) → same x x ≡ true
same_refl (k, v) = rw (text_eq_refl k, text_eq_refl v) refl

find_next-Sublist :
    (e : Header) (es iter rest : List Header)
    → find_next e iter ≡ some rest
    → Sublist es rest
    → Sublist (e ∷ es) iter
unfolding find_next
find_next-Sublist e es [] rest h s = absurd (ground arith)
find_next-Sublist e es (a ∷ iter) rest h s = elim (Bool-cases (same e a)) [
  | inl hit ↦
      let here : iter ≡ rest = ground arith in
      inl (eq_of_same e a hit, subst (Sublist es) (sym here) s)
  | inr miss ↦ inr (find_next-Sublist e es iter rest (ground arith) s)
]

-- The entry that is looked for is the first of the list only if the two are the same.
missed :
    (e a : Header) (es iter : List Header)
    → same e a ≡ false
    → Sublist (e ∷ es) (a ∷ iter)
    → Sublist (e ∷ es) iter
missed e a es iter miss (inl (eq, _)) =
    let hit : same e a ≡ true = subst (λ x. same e x ≡ true) eq (same_refl e) in
    absurd (ground arith)
missed e a es iter miss (inr later) = later

Sublist-find_next :
    (e : Header) (es iter : List Header)
    → Sublist (e ∷ es) iter
    → (rest : List Header) × (find_next e iter ≡ some rest) × Sublist es rest
unfolding find_next
Sublist-find_next e es [] h = absurd h
Sublist-find_next e es (a ∷ iter) h = elim (Bool-cases (same e a)) [
  | inl hit ↦
      (iter, rw (hit, find_next) refl, elim h [ inl (_, s) ↦ s | inr s ↦ Sublist-rest e es iter s ])
  | inr miss ↦
      let (rest, found, s) = Sublist-find_next e es iter (missed e a es iter miss h) in
      (rest, rw (miss, find_next) found, s)
]

-- The greedy walk finds the expected headers exactly if they are the actual ones with some left
-- out, in the same order.
pub headers_contains_in_order_iff :
    (expected actual : List Header)
    → (headers_contains_in_order expected actual ≡ true) ↔ Sublist expected actual
unfolding headers_contains_in_order
headers_contains_in_order_iff [] actual = (λ _. tt, λ _. refl)
headers_contains_in_order_iff (e ∷ es) actual = elim (Option-cases (find_next e actual)) [
  | inl gone ↦ (
    λ h. absurd (ground arith),
    λ s. let (rest, found, _) = Sublist-find_next e es actual s in absurd (ground arith),
  )
  | inr (rest, found) ↦ (
    λ h.
        find_next-Sublist e es actual rest found
          ((headers_contains_in_order_iff es rest).0 (ground arith)),
    λ s.
        let (rest', found', s') = Sublist-find_next e es actual s in
        rw (found', headers_contains_in_order) ((headers_contains_in_order_iff es rest').1 s'),
  )
]
