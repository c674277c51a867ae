-- ===== src/Simulator/BankerPlan/Numbered.antt =====
-- What a banker's plan expects of the identifiers.
use dst_demo.Prelude.{
  ℕ, zero, suc, ◌+◌, ◌≡◌, refl, sym, ◌∙◌, ap, arith, true, Option, none, some, inl, inr, List, [],
  ◌∷◌, ◌++◌, length, length-append, append_assoc, append-nil, Option-cases,
}
use dst_demo.Prelude.Id.{ℤ, pos, add_one, suc_ℤ, add_one-eq}
use mathlib.Core.Path.{subst}
use mathlib.Core.Option.{some-injective}
use dst_demo.Transaction.{Transaction}
use dst_demo.Bank.{find}
use dst_demo.Simulator.BankerPlan.{
  InteractionPlanContext, Interaction, sleep, list_transactions, get_transaction,
  create_transaction, void_transaction, get_balance, Random, BankerInteractionPlan, expect_with,
  expect, expect_void, note, added, with_generator, add_interaction, add_generated, gen_one,
  gen_interactions,
}

module _ {D : Type 0} where
  -- The identifiers are counted up from `n`.
  abbrev pub Numbered : ℕ → List (Transaction D) → Type 0
  Numbered n [] = Unit
  Numbered n (t ∷ ts) = (t.id ≡ pos n) × Numbered (suc n) ts

  -- The expected transactions have the identifiers 1, 2, and so on, and `curr_id` is the next one.
  pub record IsContext (c : InteractionPlanContext D) : Type 0 where
    pub numbered : Numbered 1 c.transactions
    pub next : c.curr_id ≡ pos (suc (length c.transactions))

  Numbered-snoc :
      (n : ℕ) (ts : List (Transaction D)) (t : Transaction D)
      → Numbered n ts
      → t.id ≡ pos (n + length ts)
      → Numbered n (ts ++ t ∷ [])
  Numbered-snoc n [] t h e = let start : n + 0 ≡ n = omega arith in (e ∙ ap pos start, tt)
  Numbered-snoc n (u ∷ ts) t h e =
      let shift : n + suc (length ts) ≡ suc n + length ts = omega arith in
      (h.0, Numbered-snoc (suc n) ts t h.1 (e ∙ ap pos shift))

  expect_with-IsContext :
      (amount : D) (c c' : InteractionPlanContext D) (o : Option ℤ)
      → IsContext c
      → ((id : ℤ) → o ≡ some id → id ≡ pos (suc (suc (length c.transactions))))
      → expect_with amount c o ≡ some c'
      → IsContext c'
  expect_with-IsContext amount c c' none h k e = absurd (ground arith)
  expect_with-IsContext amount c c' (some id) h k e =
      let t : Transaction D = record { id = c.curr_id; amount = amount; created_at = 0 } in
      let place : suc (length c.transactions) ≡ 1 + length c.transactions = omega arith in
      let grown : length (c.transactions ++ t ∷ []) ≡ suc (length c.transactions) =
        omega (arith, length-append c.transactions (t ∷ [])) in
      subst IsContext (some-injective _ _ e) (record {
        numbered = Numbered-snoc 1 c.transactions t h.numbered (h.next ∙ ap pos place);
        next = k id refl ∙ sym (ap (λ n. pos (suc n)) grown);
      })

  expect-IsContext :
      (amount : D) (c c' : InteractionPlanContext D)
      → IsContext c
      → expect true amount c ≡ some c'
      → IsContext c'
  expect-IsContext amount c c' h e =
      expect_with-IsContext amount c c' (add_one true c.curr_id) h
        (λ id fits. add_one-eq c.curr_id id fits ∙ ap suc_ℤ h.next) e

  expect_void-IsContext :
      (found : Option (Transaction D)) (c c' : InteractionPlanContext D)
      → IsContext c
      → expect_void true found c ≡ some c'
      → IsContext c'
  expect_void-IsContext none c c' h e = subst IsContext (some-injective _ _ e) h
  expect_void-IsContext (some t) c c' h e = expect-IsContext t.amount c c' h e

  note-IsContext :
      (i : Interaction D) (c c' : InteractionPlanContext D)
      → IsContext c
      → note true i c ≡ some c'
      → IsContext c'
  unfolding note
  note-IsContext (sleep _) c c' h e = subst IsContext (some-injective _ _ e) h
  note-IsContext list_transactions c c' h e = subst IsContext (some-injective _ _ e) h
  note-IsContext get_balance c c' h e = subst IsContext (some-injective _ _ e) h
  note-IsContext (get_transaction _) c c' h e = subst IsContext (some-injective _ _ e) h
  note-IsContext (create_transaction amount) c c' h e = expect-IsContext amount c c' h e
  note-IsContext (void_transaction id) c c' h e =
      expect_void-IsContext (find id c.transactions) c c' h e

  -- A plan that has grown by `n` interactions, behind those that it had, and is performed as far.
  pub record Grown (n : ℕ) (s s' : BankerInteractionPlan D) : Type 0 where
    pub context : IsContext s'.context
    pub new : List (Interaction D)
    pub behind : s'.plan ≡ s.plan ++ new
    pub count : length new ≡ n
    pub step : s'.step ≡ s.step

  added-Grown :
      (i : Interaction D) (s s' : BankerInteractionPlan D) (o : Option (InteractionPlanContext D))
      → ((c : InteractionPlanContext D) → o ≡ some c → IsContext c)
      → added i s o ≡ some s'
      → Grown 1 s s'
  added-Grown i s s' none h e = absurd (ground arith)
  added-Grown i s s' (some c) h e =
      subst (Grown 1 s) (some-injective _ _ e)
        (record { context = h c refl; new = i ∷ []; behind = refl; count = refl; step = refl })

module _ {D G : Type 0} (random : Random D G) where
  with_generator-Grown :
      (s : BankerInteractionPlan D) (g : G) (o : Option (BankerInteractionPlan D))
      {s' : BankerInteractionPlan D} {g' : G}
      → ((v : BankerInteractionPlan D) → o ≡ some v → Grown 1 s v)
      → with_generator true random g o ≡ some (s', g')
      → Grown 1 s s'
  with_generator-Grown s g none h e = absurd (ground arith)
  with_generator-Grown s g (some v) h e =
      subst (Grown 1 s) (ap (λ (r : BankerInteractionPlan D × G). r.0) (some-injective _ _ e))
        (h v refl)

  add_generated-Grown :
      (s : BankerInteractionPlan D) (o : Option (Interaction D × G)) {s' : BankerInteractionPlan D}
      {g' : G}
      → IsContext s.context
      → add_generated true random s o ≡ some (s', g')
      → Grown 1 s s'
  unfolding add_interaction
  add_generated-Grown s none h e = absurd (ground arith)
  add_generated-Grown s (some (i, g)) h e =
      with_generator-Grown s g (add_interaction true i s)
        (λ v f. added-Grown i s v (note true i s.context) (λ c. note-IsContext i s.context c h) f) e

  Grown-trans :
      (n : ℕ) (a b c : BankerInteractionPlan D) → Grown 1 a b → Grown n b c → Grown (suc n) a c
  Grown-trans n a b c h k = record {
    context = k.context;
    new = h.new ++ k.new;
    behind = k.behind ∙ (ap (λ xs. xs ++ k.new) h.behind ∙ append_assoc a.plan h.new k.new);
    count = omega (arith, length-append h.new k.new, h.count, k.count);
    step = k.step ∙ h.step;
  }

  -- Generating more interactions, in a build that checks overflow: the plan grows by `count`
  -- interactions behind those that it had and is performed as far as before; and the transactions
  -- that its context expects are numbered 1, 2, and so on, with `curr_id` the next number, as they
  -- were before.
  pub gen_interactions-Grown :
      (count : ℕ) (s : BankerInteractionPlan D) (g : G) (s' : BankerInteractionPlan D) (g' : G)
      → IsContext s.context
      → gen_interactions true random count s g ≡ some (s', g')
      → Grown count s s'
  unfolding gen_interactions gen_one
  gen_interactions-Grown zero s g s' g' h e =
      subst (Grown 0 s) (ap (λ (r : BankerInteractionPlan D × G). r.0) (some-injective _ _ e))
        (record {
          context = h;
          new = [];
          behind = sym (append-nil s.plan);
          count = refl;
          step = refl;
        })
  gen_interactions-Grown (suc count) s g s' g' h e = elim (Option-cases (gen_one true random s g)) [
    | inl stop ↦ absurd (ground arith)
    | inr ((v, k), one) ↦
        let first = add_generated-Grown s _ h one in
        Grown-trans count s v s' first
          (gen_interactions-Grown count v k s' g' first.context (ground arith))
  ]
