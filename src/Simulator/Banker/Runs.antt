-- ===== src/Simulator/Banker/Runs.antt =====
-- A banker and the bank in the course of a simulation: the interactions of the loop of
-- `simulator/src/client/banker/mod.rs`, the further generation of its plan, and the calls of other
-- clients, in any order.
mod Tests
use dst_demo.Prelude.{
  Sublist, ℕ, suc, ◌<◌, ◌≤◌, ◌≡◌, refl, sym, ◌∙◌, ap, arith, Option, true, some, none, List, [],
  ◌∷◌, ◌++◌, All, length, length-append, get_elem?, get_elem?-length, take, take-append_left,
}
use mathlib.Core.Path.{subst}
use mathlib.Core.Option.{some-injective}
use dst_demo.Outcome.{ok}
use dst_demo.Platform.{Platform}
use dst_demo.Transaction.{Transaction}
use dst_demo.Bank
use dst_demo.Bank.{Bank}
use dst_demo.Bank.Serves.{Serves, Serves-refl, Serves-call}
use dst_demo.Bank.Sound.{Linked, create, after}
use dst_demo.Simulator.Plan.{next, advance}
use dst_demo.Simulator.BankerPlan.{
  Interaction, sleep, list_transactions, get_transaction, create_transaction, void_transaction,
  get_balance, Random, BankerInteractionPlan, step, new, gen_interactions,
}
use dst_demo.Simulator.BankerPlan.Numbered.{IsContext, Grown, gen_interactions-Grown}
use dst_demo.Simulator.Banker.{created_amounts}
use dst_demo.Simulator.Banker.Recorded.{
  amounts, IsRecorded, IsPerformed, IsSoundLog, served, grown, step-IsRecorded,
}

module _ {D G : Type 0} (p : Platform D) (random : Random D G) where
  -- What a banker's plan and the bank come to.
  pub data Reach (start : BankerInteractionPlan D) (opened : Bank D)
      : BankerInteractionPlan D → Bank D → Type 0 where
    here : Reach start opened start opened
    others :
        {plan : BankerInteractionPlan D} {b b' : Bank D}
        → Reach start opened plan b
        → Serves p b b'
        → Reach start opened plan b'
    performs :
        {plan plan' : BankerInteractionPlan D} {b b' : Bank D} (i : Interaction D)
        → Reach start opened plan b
        → step plan ≡ (some i, plan')
        → IsPerformed p i b b'
        → Reach start opened plan' b'
    generates :
        {plan plan' : BankerInteractionPlan D} {b : Bank D} (count : ℕ) (g g' : G)
        → Reach start opened plan b
        → gen_interactions true random count plan g ≡ some (plan', g')
        → Reach start opened plan' b

  -- The log has all that the plan has had created, and the plan is performed within its bounds.
  record IsInStep (plan : BankerInteractionPlan D) (b : Bank D) : Type 0 where
    pub recorded : IsRecorded plan b
    pub log : IsSoundLog p b
    pub within : plan.step ≤ length plan.plan
    pub context : IsContext plan.context

  performed-Serves : (i : Interaction D) (b b' : Bank D) → IsPerformed p i b b' → Serves p b b'
  unfolding IsPerformed after
  performed-Serves (create_transaction amount) b b' (t, e) =
      Serves-call p (create amount) b b' (sym (ap (λ o. o.1) e))
  performed-Serves (sleep _) b b' h = h
  performed-Serves list_transactions b b' h = h
  performed-Serves (get_transaction _) b b' h = h
  performed-Serves (void_transaction _) b b' h = h
  performed-Serves get_balance b b' h = h

  served-IsSoundLog : (b b' : Bank D) → Serves p b b' → IsSoundLog p b → IsSoundLog p b'
  served-IsSoundLog b b' serves log =
      let sound = served p b b' serves log in (sound.linked, sound.dated)

  moved :
      (i : Interaction D) (plan plan' : BankerInteractionPlan D) (o : Option (Interaction D))
      → get_elem? plan.plan plan.step ≡ o
      → advance o plan ≡ (some i, plan')
      → (plan'.step ≤ length plan'.plan) × (plan'.context ≡ plan.context)
  moved i plan plan' none at e = absurd (ground arith)
  moved i plan plan' (some j) at e =
      subst (λ (v : BankerInteractionPlan D). (v.step ≤ length v.plan) × (v.context ≡ plan.context))
        (ap (λ (r : Option (Interaction D) × BankerInteractionPlan D). r.1) e)
        (omega (arith, get_elem?-length plan.step plan.plan j at), refl)

  performs-IsInStep :
      (i : Interaction D) (plan plan' : BankerInteractionPlan D) (b b' : Bank D)
      → IsInStep plan b
      → step plan ≡ (some i, plan')
      → IsPerformed p i b b'
      → IsInStep plan' b'
  unfolding next
  performs-IsInStep i plan plan' b b' h e done =
      let (within, same) = moved i plan plan' (get_elem? plan.plan plan.step) refl e in
      record {
        recorded =
            step-IsRecorded p i plan plan' b b b' h.recorded h.log.0 h.log.1 e (Serves-refl p b)
              done;
        log = served-IsSoundLog b b' (performed-Serves i b b' done) h.log;
        within = within;
        context = subst IsContext (sym same) h.context;
      }

  generates-IsInStep :
      (count : ℕ) (plan plan' : BankerInteractionPlan D) (b : Bank D)
      → IsInStep plan b
      → Grown count plan plan'
      → IsInStep plan' b
  generates-IsInStep count plan plan' b h more =
      let same : take plan'.step plan'.plan ≡ take plan.step plan.plan =
        ap (λ n. take n plan'.plan) more.step
        ∙ ap (take plan.step) more.behind
        ∙ take-append_left plan.step plan.plan more.new h.within in
      record {
        recorded = subst (λ is. Sublist (created_amounts is) (amounts b)) (sym same) h.recorded;
        log = h.log;
        within =
            omega
              (arith, more.step, ap length more.behind, length-append plan.plan more.new, h.within);
        context = more.context;
      }

  Reach-IsInStep :
      {start : BankerInteractionPlan D} {opened : Bank D} {plan : BankerInteractionPlan D}
      {b : Bank D}
      → IsInStep start opened
      → Reach start opened plan b
      → IsInStep plan b
  Reach-IsInStep h here = h
  Reach-IsInStep h (others {b = b} {b' = b'} r serves) =
      let k = Reach-IsInStep h r in
      record {
        recorded = grown p _ b b' serves k.log k.recorded;
        log = served-IsSoundLog b b' serves k.log;
        within = k.within;
        context = k.context;
      }
  Reach-IsInStep h (performs i r e done) = performs-IsInStep i _ _ _ _ (Reach-IsInStep h r) e done
  Reach-IsInStep h (generates {plan = plan} {plan' = plan'} count g g' r e) =
      let k = Reach-IsInStep h r in
      generates-IsInStep count _ _ _ k
        (gen_interactions-Grown random count plan g plan' g' k.context e)

  -- From a new plan and a bank whose log is linked and dated: however a banker performs its plan
  -- and has more of it generated, in a build that checks overflow, and whatever calls of other
  -- clients come in between, where each of its creations has returned and any other interaction
  -- comes with any calls of the bank, the log holds at all times, in their order, the amounts that
  -- the plan has had created, and is linked and dated.
  pub Reach-IsRecorded :
      (opened : Bank D) (plan : BankerInteractionPlan D) (b : Bank D)
      → Linked p opened.transactions
      → All (λ t. 0 < t.created_at) opened.transactions
      → Reach new opened plan b
      → IsRecorded plan b × Linked p b.transactions × All (λ t. 0 < t.created_at) b.transactions
  unfolding created_amounts
  Reach-IsRecorded opened plan b linked dated r =
      let k =
        Reach-IsInStep
          (record {
            recorded = tt;
            log = (linked, dated);
            within = omega arith;
            context = record { numbered = tt; next = refl };
          })
          r in
      (k.recorded, k.log.0, k.log.1)
