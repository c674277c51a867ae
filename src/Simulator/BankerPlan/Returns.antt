-- ===== src/Simulator/BankerPlan/Returns.antt =====
-- Generating a banker's plan does not panic before the identifiers run out.
use dst_demo.Prelude.{
  ℕ, zero, suc, ◌+◌, ◌<◌, ◌≤◌, ◌≡◌, ◌≢◌, refl, ◌∙◌, ap, arith, true, Option, none, some, [], ◌∷◌,
  length, length-append,
}
use dst_demo.Prelude.Id.{pos, i32_max, add_one}
use dst_demo.Transaction.{Transaction}
use dst_demo.Bank.{find}
use dst_demo.Simulator.BankerPlan.{
  InteractionPlanContext, Interaction, sleep, list_transactions, get_transaction,
  create_transaction, void_transaction, get_balance, InteractionType, Random, BankerInteractionPlan,
  expect_with, expect, expect_void, note, added, amount_interaction, add_generated, with_generator,
  add_interaction, generate, gen_one, gen_interactions,
}
use dst_demo.Simulator.BankerPlan.Numbered.{IsContext, Grown, gen_interactions-Grown}

add_one-below : (n : ℕ) → n < i32_max → add_one true (pos n) ≡ some (pos (suc n))
add_one-below n h = ground arith

module _ {D : Type 0} where
  -- A context that came about by at most one more transaction.
  abbrev Noted : InteractionPlanContext D → Option (InteractionPlanContext D) → Type 0
  Noted c o =
      (c' : InteractionPlanContext D) × (o ≡ some c')
      × (length c'.transactions ≤ suc (length c.transactions))

  expect-Noted :
      (amount : D) (c : InteractionPlanContext D)
      → IsContext c
      → suc (length c.transactions) < i32_max
      → Noted c (expect true amount c)
  expect-Noted amount c h room =
      let t : Transaction D = record { id = c.curr_id; amount = amount; created_at = 0 } in
      let fits = ap (add_one true) h.next ∙ add_one-below (suc (length c.transactions)) room in
      (_, ap (expect_with amount c) fits, omega (arith, length-append c.transactions (t ∷ [])))

  expect_void-Noted :
      (found : Option (Transaction D)) (c : InteractionPlanContext D)
      → IsContext c
      → suc (length c.transactions) < i32_max
      → Noted c (expect_void true found c)
  expect_void-Noted none c h room = (c, refl, omega arith)
  expect_void-Noted (some t) c h room = expect-Noted t.amount c h room

  note-Noted :
      (i : Interaction D) (c : InteractionPlanContext D)
      → IsContext c
      → suc (length c.transactions) < i32_max
      → Noted c (note true i c)
  unfolding note
  note-Noted (sleep _) c h room = (c, refl, omega arith)
  note-Noted list_transactions c h room = (c, refl, omega arith)
  note-Noted get_balance c h room = (c, refl, omega arith)
  note-Noted (get_transaction _) c h room = (c, refl, omega arith)
  note-Noted (create_transaction amount) c h room = expect-Noted amount c h room
  note-Noted (void_transaction id) c h room = expect_void-Noted (find id c.transactions) c h room

module _ {D G : Type 0} (random : Random D G)
    (decimal : (g : G) → (random.gen_amount g).0 ≢ none) where
  amount-returns :
      (o : Option D × G)
      → o.0 ≢ none
      → (i : Interaction D) × (g : G) × (amount_interaction true random o ≡ some (i, g))
  amount-returns (none, g) h = absurd (h refl)
  amount-returns (some a, g) h = (create_transaction a, g, refl)

  generate-returns :
      (kind : InteractionType) (c : InteractionPlanContext D) (g : G)
      → (i : Interaction D) × (g' : G) × (generate true random kind c g ≡ some (i, g'))
  unfolding generate
  generate-returns InteractionType.sleep c g = (_, _, refl)
  generate-returns InteractionType.list_transactions c g = (_, _, refl)
  generate-returns InteractionType.get_transaction c g = (_, _, refl)
  generate-returns InteractionType.create_transaction c g =
      amount-returns (random.gen_amount g) (decimal g)
  generate-returns InteractionType.void_transaction c g = (_, _, refl)
  generate-returns InteractionType.get_balance c g = (_, _, refl)

  gen_one-returns :
      (s : BankerInteractionPlan D) (g : G)
      → IsContext s.context
      → suc (length s.context.transactions) < i32_max
      → (s' : BankerInteractionPlan D) × (g' : G) × (gen_one true random s g ≡ some (s', g'))
        × (length s'.context.transactions ≤ suc (length s.context.transactions))
  unfolding gen_one add_interaction
  gen_one-returns s g h room =
      let (kind, g₀) = random.interaction_type g in
      let (i, g₁, made) = generate-returns kind s.context g₀ in
      let (c, noted, grown) = note-Noted i s.context h room in
      (
        _,
        _,
        ap (add_generated true random s) made
            ∙ ap (λ o. with_generator true random g₁ (added i s o)) noted,
        grown,
      )

  -- Each interaction adds at most one transaction to those that the context expects.
  pub returns_from :
      (count : ℕ) (s : BankerInteractionPlan D) (g : G)
      → IsContext s.context
      → length s.context.transactions + count < i32_max
      → (s' : BankerInteractionPlan D) × (g' : G) × (gen_interactions true random count s g
          ≡ some (s', g'))
        × (length s'.context.transactions ≤ length s.context.transactions + count)
  unfolding gen_interactions
  returns_from zero s g h room = (s, g, refl, omega arith)
  returns_from (suc count) s g h room =
      let (v, k, one, grown) = gen_one-returns s g h (omega arith) in
      let first = gen_interactions-Grown random 1 s g v k h (rw (one, gen_interactions) refl) in
      let (s', g', rest, more) = returns_from count v k first.context (omega arith) in
      (s', g', rw (one, gen_interactions) rest, omega arith)

  -- In a build that checks overflow, if every drawn amount is a decimal and there is room for
  -- `count` more identifiers, then generating `count` interactions returns: the plan has grown by
  -- as many behind those that it had and is performed as far as before, and the transactions that
  -- its context expects are numbered 1, 2, and so on, with `curr_id` the next number, as they were
  -- before.
  pub gen_interactions-has_room :
      (count : ℕ) (s : BankerInteractionPlan D) (g : G)
      → IsContext s.context
      → length s.context.transactions + count < i32_max
      → (s' : BankerInteractionPlan D) × (g' : G) × (gen_interactions true random count s g
          ≡ some (s', g'))
        × Grown count s s'
  unfolding gen_interactions
  gen_interactions-has_room count s g h room =
      let (s', g', e, _) = returns_from count s g h room in
      (s', g', e, gen_interactions-Grown random count s g s' g' h e)
