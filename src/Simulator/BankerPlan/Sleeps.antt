-- ===== src/Simulator/BankerPlan/Sleeps.antt =====
-- How long the sleeps of a banker's plan are.
use dst_demo.Prelude.{
  ℕ, zero, suc, ◌<◌, ◌≡◌, refl, ap, arith, true, Option, none, some, inl, inr, [], ◌∷◌, All,
  All-append, Option-cases,
}
use mathlib.Core.Path.{subst}
use mathlib.Core.Option.{some-injective}
use dst_demo.Simulator.BankerPlan.{
  InteractionPlanContext, Interaction, sleep, list_transactions, get_transaction,
  create_transaction, void_transaction, get_balance, InteractionType, Random, BankerInteractionPlan,
  note, added, amount_interaction, add_generated, with_generator, add_interaction, generate,
  gen_one, gen_interactions,
}

module _ {D : Type 0} where
  -- A sleep is shorter than 100 seconds.
  abbrev pub IsShort : Interaction D → Type 0
  IsShort (sleep duration) = duration < 100_000
  IsShort list_transactions = Unit
  IsShort (get_transaction _) = Unit
  IsShort (create_transaction _) = Unit
  IsShort (void_transaction _) = Unit
  IsShort get_balance = Unit

  added-IsShort :
      (i : Interaction D) (s s' : BankerInteractionPlan D) (o : Option (InteractionPlanContext D))
      → IsShort i
      → All IsShort s.plan
      → added i s o ≡ some s'
      → All IsShort s'.plan
  added-IsShort i s s' none short h e = absurd (ground arith)
  added-IsShort i s s' (some c) short h e =
      subst (λ (v : BankerInteractionPlan D). All IsShort v.plan) (some-injective _ _ e)
        (All-append IsShort s.plan (i ∷ []) h (short, tt))

module _ {D G : Type 0} (random : Random D G)
    (millis : (g : G) → (random.gen_millis g).0 < 100_000) where
  with_generator-IsShort :
      (i : Interaction D) (s : BankerInteractionPlan D) (g : G)
      (o : Option (BankerInteractionPlan D)) {s' : BankerInteractionPlan D} {g' : G}
      → ((v : BankerInteractionPlan D) → o ≡ some v → All IsShort v.plan)
      → with_generator true random g o ≡ some (s', g')
      → All IsShort s'.plan
  with_generator-IsShort i s g none h e = absurd (ground arith)
  with_generator-IsShort i s g (some v) h e =
      subst (λ (v : BankerInteractionPlan D). All IsShort v.plan)
        (ap (λ (r : BankerInteractionPlan D × G). r.0) (some-injective _ _ e)) (h v refl)

  abbrev MadeShort : Option (Interaction D × G) → Type 0
  MadeShort none = Unit
  MadeShort (some (i, g)) = IsShort i

  amount-MadeShort : (o : Option D × G) → MadeShort (amount_interaction true random o)
  amount-MadeShort (none, g) = tt
  amount-MadeShort (some a, g) = tt

  generate-MadeShort :
      (kind : InteractionType) (c : InteractionPlanContext D) (g : G)
      → MadeShort (generate true random kind c g)
  unfolding generate
  generate-MadeShort InteractionType.sleep c g = millis g
  generate-MadeShort InteractionType.list_transactions c g = tt
  generate-MadeShort InteractionType.get_transaction c g = tt
  generate-MadeShort InteractionType.create_transaction c g = amount-MadeShort (random.gen_amount g)
  generate-MadeShort InteractionType.void_transaction c g = tt
  generate-MadeShort InteractionType.get_balance c g = tt

  add_generated-IsShort :
      (s : BankerInteractionPlan D) (o : Option (Interaction D × G)) {s' : BankerInteractionPlan D}
      {g' : G}
      → MadeShort o
      → All IsShort s.plan
      → add_generated true random s o ≡ some (s', g')
      → All IsShort s'.plan
  unfolding add_interaction
  add_generated-IsShort s none short h e = absurd (ground arith)
  add_generated-IsShort s (some (i, g)) short h e =
      with_generator-IsShort i s g (add_interaction true i s)
        (λ v f. added-IsShort i s v (note true i s.context) short h f) e

  -- Generating more of a plan whose sleeps are short keeps them so.
  pub gen_interactions-IsShort :
      (count : ℕ) (s : BankerInteractionPlan D) (g : G) (s' : BankerInteractionPlan D) (g' : G)
      → All IsShort s.plan
      → gen_interactions true random count s g ≡ some (s', g')
      → All IsShort s'.plan
  unfolding gen_interactions gen_one
  gen_interactions-IsShort zero s g s' g' h e =
      subst (λ (v : BankerInteractionPlan D). All IsShort v.plan)
        (ap (λ (r : BankerInteractionPlan D × G). r.0) (some-injective _ _ e)) h
  gen_interactions-IsShort (suc count) s g s' g' h e =
      elim (Option-cases (gen_one true random s g)) [
        | inl stop ↦ absurd (ground arith)
        | inr ((v, k), one) ↦
            let (kind, g₀) = random.interaction_type g in
            gen_interactions-IsShort count v k s' g'
              (add_generated-IsShort s _ (generate-MadeShort kind s.context g₀) h one)
              (ground arith)
      ]
