-- ===== src/Outcome/Laws.antt =====
-- Taking a chain of calls apart.
use dst_demo.Prelude.{◌⊎◌, inl, inr, ◌≡◌, refl, ap, arith}
use dst_demo.Outcome.{Outcome, ok, err, panic, Action, ◌>>=◌}

module _ {S E A B : Type 0} where
  from_first :
      (o : Outcome E A × S) (f : A → Action S E B) (s : S) {b : B} {s' : S}
      → ((λ (_ : S). o) >>= f) s ≡ (ok b, s')
      → (a : A) × (s₁ : S) × (o ≡ (ok a, s₁)) × (f a s₁ ≡ (ok b, s'))
  from_first (ok a, s₁) f s e = (a, s₁, refl, e)
  from_first (err x, s₁) f s e = absurd (ground arith)
  from_first (panic, s₁) f s e = absurd (ground arith)

  -- A chain that returned has returned from its first call.
  pub >>=-ok :
      (m : Action S E A) (f : A → Action S E B) (s : S) {b : B} {s' : S}
      → (m >>= f) s ≡ (ok b, s')
      → (a : A) × (s₁ : S) × (m s ≡ (ok a, s₁)) × (f a s₁ ≡ (ok b, s'))
  >>=-ok m f s e = from_first (m s) f s e

  from_error :
      (o : Outcome E A × S) (f : A → Action S E B) (s : S) {e : E} {s' : S}
      → ((λ (_ : S). o) >>= f) s ≡ (err e, s')
      → (o ≡ (err e, s')) ⊎ ((a : A) × (s₁ : S) × (o ≡ (ok a, s₁)) × (f a s₁ ≡ (err e, s')))
  from_error (ok a, s₁) f s h = inr (a, s₁, refl, h)
  from_error (err x, s₁) f s h = inl (ground arith)
  from_error (panic, s₁) f s h = absurd (ground arith)

  -- A chain that fails has failed at its first call or behind it.
  pub >>=-err :
      (m : Action S E A) (f : A → Action S E B) (s : S) {e : E} {s' : S}
      → (m >>= f) s ≡ (err e, s')
      → (m s ≡ (err e, s')) ⊎ ((a : A) × (s₁ : S) × (m s ≡ (ok a, s₁)) × (f a s₁ ≡ (err e, s')))
  >>=-err m f s h = from_error (m s) f s h

  -- A chain whose first call returns goes on with the next.
  pub >>=-returns :
      (m : Action S E A) (f : A → Action S E B) (s : S) {a : A} {s₁ : S}
      → m s ≡ (ok a, s₁)
      → (m >>= f) s ≡ f a s₁
  >>=-returns m f s e = ap (λ o. ((λ (_ : S). o) >>= f) s) e

  keeps_first :
      {X : Type 0} (g : S → X) (o : Outcome E A × S) (f : A → Action S E B) (s : S)
      → ((a : A) (s' : S) → g (f a s').1 ≡ g s')
      → g (((λ (_ : S). o) >>= f) s).1 ≡ g o.1
  keeps_first g (ok a, s₁) f s h = h a s₁
  keeps_first g (err e, s₁) f s h = refl
  keeps_first g (panic, s₁) f s h = refl

  -- What no later call changes is as the first call left it.
  pub >>=-keeps :
      {X : Type 0} (g : S → X) (m : Action S E A) (f : A → Action S E B) (s : S)
      → ((a : A) (s' : S) → g (f a s').1 ≡ g s')
      → g ((m >>= f) s).1 ≡ g (m s).1
  >>=-keeps g m f s h = keeps_first g (m s) f s h

  panics_first :
      (o : Outcome E A × S) (f : A → Action S E B) (s : S)
      → o.0 ≡ panic
      → (((λ (_ : S). o) >>= f) s).0 ≡ panic
  panics_first (ok a, s₁) f s h = absurd (ground arith)
  panics_first (err e, s₁) f s h = absurd (ground arith)
  panics_first (panic, s₁) f s h = refl

  -- A chain panics with its first call.
  pub >>=-panics :
      (m : Action S E A) (f : A → Action S E B) (s : S) → (m s).0 ≡ panic → ((m >>= f) s).0 ≡ panic
  >>=-panics m f s h = panics_first (m s) f s h

  pub >>=-stops :
      (m : Action S E A) (f : A → Action S E B) (s : S) {s₁ : S}
      → m s ≡ (panic, s₁)
      → (m >>= f) s ≡ (panic, s₁)
  >>=-stops m f s e = ap (λ o. ((λ (_ : S). o) >>= f) s) e

  -- A chain fails with its first call.
  pub >>=-fails :
      (m : Action S E A) (f : A → Action S E B) (s : S) {e : E} {s₁ : S}
      → m s ≡ (err e, s₁)
      → (m >>= f) s ≡ (err e, s₁)
  >>=-fails m f s h = ap (λ o. ((λ (_ : S). o) >>= f) s) h

  related_first :
      (R : S → S → Type 0) (o : Outcome E A × S) (f : A → Action S E B) (s : S)
      → ((a b c : S) → R a b → R b c → R a c)
      → R s o.1
      → ((a : A) (s' : S) → R s' (f a s').1)
      → R s (((λ (_ : S). o) >>= f) s).1
  related_first R (ok a, s₁) f s trans h k = trans s s₁ (f a s₁).1 h (k a s₁)
  related_first R (err e, s₁) f s trans h k = h
  related_first R (panic, s₁) f s trans h k = h

  -- A transitive relation that each call keeps is kept by the chain.
  pub >>=-related :
      (R : S → S → Type 0) (m : Action S E A) (f : A → Action S E B) (s : S)
      → ((a b c : S) → R a b → R b c → R a c)
      → R s (m s).1
      → ((a : A) (s' : S) → R s' (f a s').1)
      → R s ((m >>= f) s).1
  >>=-related R m f s trans h k = related_first R (m s) f s trans h k

  same_first :
      (o : Outcome E A × S) (f g : A → Action S E B) (s : S)
      → ((a : A) (s' : S) → f a s' ≡ g a s')
      → ((λ (_ : S). o) >>= f) s ≡ ((λ (_ : S). o) >>= g) s
  same_first (ok a, s₁) f g s h = h a s₁
  same_first (err e, s₁) f g s h = refl
  same_first (panic, s₁) f g s h = refl

  -- Chains whose later calls agree.
  pub >>=-ext :
      (m : Action S E A) (f g : A → Action S E B) (s : S)
      → ((a : A) (s' : S) → f a s' ≡ g a s')
      → (m >>= f) s ≡ (m >>= g) s
  >>=-ext m f g s h = same_first (m s) f g s h

module _ {S E A B C : Type 0} where
  regrouped :
      (o : Outcome E A × S) (f : A → Action S E B) (g : B → Action S E C) (s : S)
      → (((λ (_ : S). o) >>= f) >>= g) s ≡ ((λ (_ : S). o) >>= λ a. f a >>= g) s
  regrouped (ok a, s₁) f g s = refl
  regrouped (err e, s₁) f g s = refl
  regrouped (panic, s₁) f g s = refl

  pub >>=_assoc :
      (m : Action S E A) (f : A → Action S E B) (g : B → Action S E C) (s : S)
      → ((m >>= f) >>= g) s ≡ (m >>= λ a. f a >>= g) s
  >>=_assoc m f g s = regrouped (m s) f g s
