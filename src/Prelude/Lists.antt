-- ===== src/Prelude/Lists.antt =====
-- Lists measured by native numbers, predicates on all elements, and the last element.
use mathlib.Core.Logic.{◌≢◌}
use Prim.Native.Nat.{ℕ, zero, suc, ◌+◌, ◌≤◌, ◌<◌}
use mathlib.Core.Path.{◌≡◌, refl, ap}
use mathlib.Core.Logic.{◌⊎◌, inl, inr}
use mathlib.Core.List.{List, [], ◌∷◌, ◌++◌, map}
use mathlib.Core.Option.{some-injective}
use mathlib.Core.Option.{Option, none, some}
use native.Mathlib.Omega.{arith}

module _ {ℓ} {A : Type ℓ} where
  abbrev pub length : List A → ℕ
  length [] = 0
  length (x ∷ xs) = suc (length xs)

  abbrev pub get_elem? : List A → ℕ → Option A
  get_elem? [] i = none
  get_elem? (x ∷ xs) zero = some x
  get_elem? (x ∷ xs) (suc i) = get_elem? xs i

  abbrev pub take : ℕ → List A → List A
  take zero xs = []
  take (suc n) [] = []
  take (suc n) (x ∷ xs) = x ∷ take n xs

  abbrev pub drop : ℕ → List A → List A
  drop zero xs = xs
  drop (suc n) [] = []
  drop (suc n) (x ∷ xs) = drop n xs

  abbrev pub get_last? : List A → Option A
  get_last? [] = none
  get_last? (x ∷ []) = some x
  get_last? (x ∷ y ∷ xs) = get_last? (y ∷ xs)

  pub length-append : (xs ys : List A) → length (xs ++ ys) ≡ length xs + length ys
  length-append [] ys = omega arith
  length-append (x ∷ xs) ys = omega (arith, length-append xs ys)

  pub cons_of_length :
      (n : ℕ) (xs : List A) → length xs ≡ suc n → (y : A) × (ys : List A) × (xs ≡ y ∷ ys)
  cons_of_length n [] h = absurd (omega arith)
  cons_of_length n (x ∷ xs) h = (x, xs, refl)

  pub take-append_left : (n : ℕ) (xs ys : List A) → n ≤ length xs → take n (xs ++ ys) ≡ take n xs
  take-append_left zero xs ys h = refl
  take-append_left (suc n) [] ys h = absurd (omega arith)
  take-append_left (suc n) (x ∷ xs) ys h = ap (λ r. x ∷ r) (take-append_left n xs ys (omega arith))

  pub take-ne : (n : ℕ) (xs : List A) → 0 < n → n < length xs → take n xs ≢ []
  take-ne zero xs h k e = absurd (omega arith)
  take-ne (suc n) [] h k e = absurd (omega arith)
  take-ne (suc n) (x ∷ xs) h k e = absurd (ground arith)

  pub get_elem?-length : (n : ℕ) (xs : List A) (x : A) → get_elem? xs n ≡ some x → n < length xs
  get_elem?-length n [] x e = absurd (ground arith)
  get_elem?-length zero (y ∷ ys) x e = omega arith
  get_elem?-length (suc n) (y ∷ ys) x e = omega (arith, get_elem?-length n ys x e)

  pub drop-append : (xs ys : List A) → drop (length xs) (xs ++ ys) ≡ ys
  drop-append [] ys = refl
  drop-append (x ∷ xs) ys = drop-append xs ys

  pub get_last?-snoc : (xs : List A) (x : A) → get_last? (xs ++ x ∷ []) ≡ some x
  get_last?-snoc [] x = refl
  get_last?-snoc (y ∷ []) x = refl
  get_last?-snoc (y ∷ z ∷ xs) x = get_last?-snoc (z ∷ xs) x

module _ {ℓ κ} {A : Type ℓ} (P : A → Type κ) where
  -- Every element satisfies `P`.
  abbrev pub All : List A → Type κ
  All [] = Unit
  All (x ∷ xs) = P x × All xs

  pub All-append : (xs ys : List A) → All xs → All ys → All (xs ++ ys)
  All-append [] ys hx hy = hy
  All-append (x ∷ xs) ys hx hy = (hx.0, All-append xs ys hx.1 hy)

  pub All-take : (n : ℕ) (xs : List A) → All xs → All (take n xs)
  All-take zero xs h = tt
  All-take (suc n) [] h = tt
  All-take (suc n) (x ∷ xs) h = (h.0, All-take n xs h.1)

  pub All-append_left : (xs ys : List A) → All (xs ++ ys) → All xs
  All-append_left [] ys h = tt
  All-append_left (x ∷ xs) ys h = (h.0, All-append_left xs ys h.1)

  pub All-append_right : (xs ys : List A) → All (xs ++ ys) → All ys
  All-append_right [] ys h = h
  All-append_right (x ∷ xs) ys h = All-append_right xs ys h.1

module _ {A : Type 0} where
  -- The first list is the second with entries left out.
  abbrev pub Sublist : List A → List A → Type 0
  Sublist [] ys = Unit
  Sublist (x ∷ xs) [] = ⊥
  Sublist (x ∷ xs) (y ∷ ys) = ((x ≡ y) × Sublist xs ys) ⊎ Sublist (x ∷ xs) ys

  pub Sublist-cons : (xs : List A) (y : A) (ys : List A) → Sublist xs ys → Sublist xs (y ∷ ys)
  Sublist-cons [] y ys h = tt
  Sublist-cons (x ∷ xs) y ys h = inr h

  pub Sublist-rest : (x : A) (xs ys : List A) → Sublist (x ∷ xs) ys → Sublist xs ys
  Sublist-rest x xs [] h = absurd h
  Sublist-rest x xs (y ∷ ys) (inl (_, h)) = Sublist-cons xs y ys h
  Sublist-rest x xs (y ∷ ys) (inr h) = Sublist-cons xs y ys (Sublist-rest x xs ys h)

  pub Sublist-length : (xs ys : List A) → Sublist xs ys → length xs ≤ length ys
  Sublist-length [] ys h = omega arith
  Sublist-length (x ∷ xs) [] h = absurd h
  Sublist-length (x ∷ xs) (y ∷ ys) (inl (_, h)) = omega (arith, Sublist-length xs ys h)
  Sublist-length (x ∷ xs) (y ∷ ys) (inr h) = omega (arith, Sublist-length (x ∷ xs) ys h)

  pub Sublist-append_right : (xs ys zs : List A) → Sublist xs ys → Sublist xs (ys ++ zs)
  Sublist-append_right [] ys zs h = tt
  Sublist-append_right (x ∷ xs) [] zs h = absurd h
  Sublist-append_right (x ∷ xs) (y ∷ ys) zs (inl (e, h)) = inl (e, Sublist-append_right xs ys zs h)
  Sublist-append_right (x ∷ xs) (y ∷ ys) zs (inr h) = inr (Sublist-append_right (x ∷ xs) ys zs h)

  Sublist-last : (ys : List A) (a : A) → Sublist (a ∷ []) (ys ++ a ∷ [])
  Sublist-last [] a = inl (refl, tt)
  Sublist-last (y ∷ ys) a = inr (Sublist-last ys a)

  pub Sublist-snoc :
      (xs ys : List A) (a : A) → Sublist xs ys → Sublist (xs ++ a ∷ []) (ys ++ a ∷ [])
  Sublist-snoc [] ys a h = Sublist-last ys a
  Sublist-snoc (x ∷ xs) [] a h = absurd h
  Sublist-snoc (x ∷ xs) (y ∷ ys) a (inl (e, h)) = inl (e, Sublist-snoc xs ys a h)
  Sublist-snoc (x ∷ xs) (y ∷ ys) a (inr h) = inr (Sublist-snoc (x ∷ xs) ys a h)

  pub take-suc :
      (n : ℕ) (xs : List A) (x : A)
      → get_elem? xs n ≡ some x
      → take (suc n) xs ≡ take n xs ++ x ∷ []
  take-suc n [] x e = absurd (ground arith)
  take-suc zero (y ∷ ys) x e = ap (λ v. v ∷ []) (some-injective _ _ e)
  take-suc (suc n) (y ∷ ys) x e = ap (λ r. y ∷ r) (take-suc n ys x e)

module _ {A B : Type 0} where
  pub map-append : (f : A → B) (xs ys : List A) → map f (xs ++ ys) ≡ map f xs ++ map f ys
  map-append f [] ys = refl
  map-append f (x ∷ xs) ys = ap (λ r. f x ∷ r) (map-append f xs ys)
