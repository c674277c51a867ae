-- ===== src/Simulator/Faults/Start.antt =====
-- The fault injector as it is started, beside the steps of the simulation: `start` of
-- `simulator/src/client/fault_injector/mod.rs`, and `on_step` of `simulator/src/main.rs`.
use dst_demo.Prelude.{
  ℕ, ◌≡◌, refl, sym, ◌∙◌, ap, inl, inr, Bool, true, false, Option, none, some, List, [], ◌∷◌, ◌++◌,
  length, cons_of_length, if◌then◌else◌,
}
use mathlib.Core.Path.{subst}
use dst_demo.Text.{Text}
use dst_demo.Simulator.FaultPlan
use dst_demo.Simulator.FaultPlan.{
  Interaction, sleep, bounce, Random, FaultContext, FaultInjectionInteractionPlan, Settles,
  IsInRange, gen_interactions, gen_interactions-returns,
}
use dst_demo.Simulator.Actions.{Action, handle_each, handle_actions, handle_each-append, bounces}
use dst_demo.Simulator.Faults.{perform_interaction, hosts}
use dst_demo.Simulator.Loop.{
  End, done, performing, not_generated, Ran, upcoming, perform_upcoming, client_loop,
}
use dst_demo.Simulator.Loop.Follows.{Generates, GoesOn, client_loop-Follows}

module _ {Sim G : Type 0} (sim_bounce : Text → Sim → Sim) (checked : Bool) (random : Random G)
    (host : Text) (fuel : ℕ) where
  -- The queue of actions, and the simulation.
  abbrev pub Queued : Type 0
  Queued = List Action × Sim

  abbrev pub on_step : Queued → Queued
  on_step (actions, sim) = handle_actions sim_bounce actions sim

  abbrev pub queue : Interaction → Queued → End × Queued
  queue i (actions, sim) = (done, (perform_interaction i actions, sim))

  -- A round of the inner loop, and whether the simulation takes a step before it. No interaction
  -- fails.
  unfoldable pub perform_stepped :
      Bool → Interaction → FaultInjectionInteractionPlan → Queued → End × Queued
  perform_stepped stepped i plan q = queue i (if stepped then on_step q else q)

  abbrev pub injector_loop :
      List Bool → FaultInjectionInteractionPlan → G → Queued → Ran FaultContext Interaction G Queued
  injector_loop steps plan g q =
      client_loop (gen_interactions checked random host fuel 1000) perform_stepped steps plan g q

  abbrev pub started :
      List Bool
      → G
      → Queued
      → Option (FaultInjectionInteractionPlan × G)
      → Ran FaultContext Interaction G Queued
  started steps g q none = record {
    performed = [];
    halt = not_generated;
    plan = FaultPlan.new;
    random = g;
    state = q;
  }
  started steps g q (some (plan, g')) = injector_loop steps plan g' q

  -- `start`: the first plan, and the loop; each inner loop of the generation has the fuel.
  unfoldable pub run_fault_injector : List Bool → G → Queued → Ran FaultContext Interaction G Queued
  run_fault_injector steps g q =
      started steps g q (gen_interactions checked random host fuel 1000 FaultPlan.new g)

  -- The simulation once the queue has been handled.
  abbrev handled : Queued → Sim
  handled (actions, sim) = handle_each sim_bounce actions sim

  queue-handled :
      (i : Interaction) (is : List Interaction) (q : Queued)
      → bounces sim_bounce (hosts is) (handled (queue i q).1)
        ≡ bounces sim_bounce (hosts (i ∷ is)) (handled q)
  unfolding perform_interaction hosts bounces handle_each
  queue-handled (sleep _) is q = refl
  queue-handled (bounce h) is (actions, sim) =
      ap (bounces sim_bounce (hosts is)) (handle_each-append sim_bounce actions _ sim)

  on_step-handled :
      (stepped : Bool) (q : Queued) → handled (if stepped then on_step q else q) ≡ handled q
  unfolding handle_actions handle_each
  on_step-handled true q = refl
  on_step-handled false q = refl

  -- What has been performed is what the simulation has seen, or will see from the queue.
  abbrev Injects : Queued → Ran FaultContext Interaction G Queued → Type 0
  Injects q r = handled r.state ≡ bounces sim_bounce (hosts r.performed) (handled q)

  upcoming-Injects :
      (stepped : Bool) (steps : List Bool) (plan : FaultInjectionInteractionPlan) (g : G)
      (q : Queued) (o : Option (Option Interaction × FaultInjectionInteractionPlan × G))
      → ((plan : FaultInjectionInteractionPlan) (g : G) (q : Queued)
          → Injects q (injector_loop steps plan g q))
      → Injects q (
          perform_upcoming
            (gen_interactions checked random host fuel 1000)
            perform_stepped
            stepped
            plan
            g
            q
            (injector_loop steps)
            o)
  unfolding perform_stepped hosts bounces
  upcoming-Injects stepped steps plan g q none later = refl
  upcoming-Injects stepped steps plan g q (some (none, plan', g')) later = refl
  upcoming-Injects stepped steps plan g q (some (some i, plan', g')) later =
      let q' : Queued = if stepped then on_step q else q in
      let r = injector_loop steps plan' g' (queue i q').1 in
      later plan' g' (queue i q').1
      ∙ queue-handled i r.performed q'
      ∙ ap (bounces sim_bounce (hosts (i ∷ r.performed))) (on_step-handled stepped q)

  loop-Injects :
      (steps : List Bool) (plan : FaultInjectionInteractionPlan) (g : G) (q : Queued)
      → Injects q (injector_loop steps plan g q)
  unfolding client_loop hosts bounces
  loop-Injects [] plan g q = refl
  loop-Injects (b ∷ steps) plan g q =
      upcoming-Injects b steps plan g q
        (upcoming (gen_interactions checked random host fuel 1000) perform_stepped plan g)
        (loop-Injects steps)

  -- An interaction for each event, those of the plan from its beginning; and a further step of the
  -- simulation has all of their bounces behind it.
  abbrev pub InjectsPlan : List Bool → Sim → Ran FaultContext Interaction G Queued → Type 0
  InjectsPlan steps sim r =
      (r.halt ≡ performing)
      × (length r.performed ≡ length steps)
      × ((ahead : List Interaction) × (r.plan.plan ≡ r.performed ++ ahead))
      × (on_step r.state ≡ ([], bounces sim_bounce (hosts r.performed) sim))

  module _ (range : IsInRange checked random host)
      (settles : (g : G) → Settles checked random host fuel g) where
    fuel-Generates :
        Generates (gen_interactions checked random host fuel 1000) perform_stepped (λ _ _. Unit {0})
    fuel-Generates = record {
      grows = λ n plan g _.
          let (new, g', made, count) =
            gen_interactions-returns checked random host fuel 1000 plan g range settles in
          let (i, is, some_new) = cons_of_length 999 new count in
          (
            record plan { plan = plan.plan ++ new },
            g',
            i,
            is,
            made,
            ap (λ xs. plan.plan ++ xs) some_new,
            refl,
            tt,
          );
      fewer = λ n plan _. tt;
      steps = λ n plan _. tt;
    }

    GoesOn-performing :
        (steps : List Bool) (r : Ran FaultContext Interaction G Queued)
        → GoesOn (gen_interactions checked random host fuel 1000) perform_stepped steps r
        → (r.halt ≡ performing) × (length r.performed ≡ length steps)
    unfolding perform_stepped
    GoesOn-performing steps r (inl h) = h
    GoesOn-performing steps r (inr (_, _, w, _, i, s, _, _, _, bad, _)) = absurd (bad refl)

    -- If no generator skips more than `fuel` bounces in a row, and every time that can be drawn, as
    -- often as `step_multiplier` says, fits a u64: the fault injector that is started never stops, but performs its plan from the beginning, in order, however often more of it is
    -- generated; and whenever the simulation takes its steps in between, after one more step it has
    -- seen the bounces that were performed, each once and in their order, and the queue is empty.
    pub run_fault_injector-InjectsPlan :
        (steps : List Bool) (g : G) (sim : Sim)
        → InjectsPlan steps sim (run_fault_injector steps g ([], sim))
    unfolding run_fault_injector handle_actions handle_each
    run_fault_injector-InjectsPlan steps g sim =
        let (new, g', made, _) =
          gen_interactions-returns checked random host fuel 1000 FaultPlan.new g range settles in
        let plan : FaultInjectionInteractionPlan = record FaultPlan.new { plan = [] ++ new } in
        let (follows, goes_on, _) =
          client_loop-Follows (gen_interactions checked random host fuel 1000) perform_stepped
            fuel-Generates steps [] new plan g' ([], sim) tt refl refl in
        let r = injector_loop steps plan g' ([], sim) in
        let (halt, count) = GoesOn-performing steps r goes_on in
        subst (λ o. InjectsPlan steps sim (started steps g ([], sim) o)) (sym made)
          (
            halt,
            count,
            (follows.ahead, follows.in_order),
            ap (λ v. ([], v)) (loop-Injects steps plan g' ([], sim)),
          )
