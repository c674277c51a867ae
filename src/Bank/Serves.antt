-- ===== src/Bank/Serves.antt =====
-- A bank that came from another by calls of the trait `Bank`, one after the other.
use dst_demo.Prelude.{◌≡◌, refl, sym, ◌∙◌, ap, List, [], ◌∷◌, ◌++◌}
use dst_demo.Platform.{Platform}
use dst_demo.Bank.{Bank}
use dst_demo.Bank.Sound.{Command, after, run}

module _ {D : Type 0} (p : Platform D) where
  run-append : (cs ds : List (Command D)) (b : Bank D) → run p (cs ++ ds) b ≡ run p ds (run p cs b)
  unfolding run
  run-append [] ds b = refl
  run-append (c ∷ cs) ds b = run-append cs ds (after p c b)

  -- The second bank is the first after some calls.
  unfoldable pub Serves : Bank D → Bank D → Type 0
  Serves b b' = (cs : List (Command D)) × (b' ≡ run p cs b)

  pub Serves-refl : (b : Bank D) → Serves b b
  unfolding Serves run
  Serves-refl b = ([], refl)

  pub Serves-trans : (a b c : Bank D) → Serves a b → Serves b c → Serves a c
  unfolding Serves
  Serves-trans a b c (cs, e) (ds, f) = (cs ++ ds, f ∙ (ap (run p ds) e ∙ sym (run-append cs ds a)))

  pub Serves-call : (c : Command D) (b b' : Bank D) → b' ≡ after p c b → Serves b b'
  unfolding Serves run
  Serves-call c b b' e = (c ∷ [], e)
