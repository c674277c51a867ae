-- ===== src/Simulator/Banker/Start/Performs.antt =====
-- What a banker that is started performs, and how it ends.
use dst_demo.Prelude.{
  ℕ, suc, ◌+◌, ◌*◌, ◌<◌, ◌≤◌, ◌≡◌, ◌≢◌, ◌⊎◌, inl, inr, refl, sym, ◌∙◌, ap, arith, Bool, true, none,
  List, [], ◌∷◌, ◌++◌, length, cons_of_length, All, All-append_left, All-append_right,
}
use mathlib.Core.Path.{subst}
use dst_demo.Prelude.Id.{i32_max}
use dst_demo.Text.Number.{u64_max}
use dst_demo.Platform.{Platform}
use dst_demo.Server.Actions.{ActionNames}
use dst_demo.Simulator.BankerPlan
use dst_demo.Simulator.BankerPlan.{
  InteractionPlanContext, Interaction, sleep, list_transactions, get_transaction,
  create_transaction, void_transaction, get_balance, Random, BankerInteractionPlan,
  gen_interactions,
}
use dst_demo.Simulator.BankerPlan.Numbered.{IsContext, gen_interactions-Grown}
use dst_demo.Simulator.BankerPlan.Returns.{returns_from}
use dst_demo.Simulator.BankerPlan.Sleeps.{IsShort, gen_interactions-IsShort}
use dst_demo.Simulator.Banker.Retries.{perform_interaction}
use dst_demo.Simulator.TimeLimit.{Encounter, pause-same}
use dst_demo.Simulator.Loop.{done, performing, ended_by, Ran}
use dst_demo.Simulator.Loop.Follows.{Generates, GoesOn, client_loop-Follows}
use dst_demo.Simulator.Banker.Start.{
  limited, perform_timed, interaction_timeout, banker_loop, started, run_banker,
}

module _ {D : Type 0} where
  -- An interaction that connects to the server.
  abbrev pub IsRequest : Interaction D → Type 0
  IsRequest (sleep _) = ⊥
  IsRequest list_transactions = Unit
  IsRequest (get_transaction _) = Unit
  IsRequest (create_transaction _) = Unit
  IsRequest (void_transaction _) = Unit
  IsRequest get_balance = Unit

module _ {D G : Type 0} (p : Platform D) (names : ActionNames) (random : Random D G)
    (step_multiplier : ℕ) (first : Bool) where
  -- A sleep is never cut short by the time limit.
  perform_timed-sleep :
      (x : Encounter) (duration : ℕ) (plan : BankerInteractionPlan D)
      → 10 * 1000 + duration + step_multiplier * 1000 ≤ u64_max
      → (perform_timed p names random step_multiplier first true x (sleep duration) plan tt).0
        ≡ done
  unfolding perform_timed interaction_timeout perform_interaction
  perform_timed-sleep x duration plan fits =
      let whole : limited p names random step_multiplier first true x (sleep duration) plan ≡ done =
        ground arith in
      pause-same true step_multiplier _ (omega (arith, fits)) ∙ whole

  -- There is room for so many more calls of `gen_interactions`, and the sleeps are short.
  abbrev HasRoom : ℕ → BankerInteractionPlan D → Type 0
  HasRoom n plan =
      IsContext plan.context
      × (length plan.context.transactions + n * 1000 < i32_max)
      × All IsShort plan.plan

  -- The last interaction, after one for each earlier event, is a request that is not done within
  -- its time.
  abbrev pub EndsLate :
      List Encounter → Ran (InteractionPlanContext D) (Interaction D) G (Unit {0}) → Type 0
  EndsLate xs r =
      (earlier later : List Encounter) × (x : Encounter) × (items : List (Interaction D))
      × (i : Interaction D) × (xs ≡ earlier ++ x ∷ later)
      × (r.performed ≡ items ++ i ∷ [])
      × (length items ≡ length earlier)
      × IsRequest i
      × ((perform_timed p names random step_multiplier first true x i r.plan tt).0 ≢ done)
      × (r.halt
          ≡ ended_by (perform_timed p names random step_multiplier first true x i r.plan tt).0)

  -- What is performed is the plan from its beginning, with an interaction for each event, or up to
  -- one that ends late.
  abbrev pub PerformsPlan :
      List Encounter → Ran (InteractionPlanContext D) (Interaction D) G (Unit {0}) → Type 0
  PerformsPlan xs r =
      ((ahead : List (Interaction D)) × (r.plan.plan ≡ r.performed ++ ahead))
      × (r.plan.step ≡ length r.performed)
      × (((r.halt ≡ performing) × (length r.performed ≡ length xs)) ⊎ EndsLate xs r)

  late-IsRequest :
      (i : Interaction D) (x : Encounter) (plan : BankerInteractionPlan D)
      → 10 * 1000 + 100_000 + step_multiplier * 1000 ≤ u64_max
      → IsShort i
      → (perform_timed p names random step_multiplier first true x i plan tt).0 ≢ done
      → IsRequest i
  late-IsRequest (sleep d) x plan fits short late =
      late (perform_timed-sleep x d plan (omega arith))
  late-IsRequest list_transactions x plan fits short late = tt
  late-IsRequest (get_transaction _) x plan fits short late = tt
  late-IsRequest (create_transaction _) x plan fits short late = tt
  late-IsRequest (void_transaction _) x plan fits short late = tt
  late-IsRequest get_balance x plan fits short late = tt

  last-IsShort :
      (items ahead plan : List (Interaction D)) (i : Interaction D)
      (performed : List (Interaction D))
      → plan ≡ performed ++ ahead
      → performed ≡ items ++ i ∷ []
      → All IsShort plan
      → IsShort i
  last-IsShort items ahead plan i performed whole last h =
      let ours : All IsShort (items ++ i ∷ []) =
        subst (All IsShort) last
          (All-append_left IsShort performed ahead (subst (All IsShort) whole h)) in
      (All-append_right IsShort items (i ∷ []) ours).0

  ends_late :
      (xs : List Encounter) (r : Ran (InteractionPlanContext D) (Interaction D) G (Unit {0}))
      (ahead : List (Interaction D))
      → 10 * 1000 + 100_000 + step_multiplier * 1000 ≤ u64_max
      → r.plan.plan ≡ r.performed ++ ahead
      → All IsShort r.plan.plan
      → GoesOn
          (gen_interactions true random 1000)
          (perform_timed p names random step_multiplier first true)
          xs
          r
      → ((r.halt ≡ performing) × (length r.performed ≡ length xs)) ⊎ EndsLate xs r
  ends_late xs r ahead fits whole short (inl h) = inl h
  ends_late xs r ahead fits whole short
        (inr (earlier, later, x, items, i, s, all, last, count, late, halt)) =
      let short' = last-IsShort items ahead r.plan.plan i r.performed whole last short in
      inr (
        earlier,
        later,
        x,
        items,
        i,
        all,
        last,
        count,
        late-IsRequest i x r.plan fits short' late,
        late,
        halt,
      )

  module _ (decimal : (g : G) → (random.gen_amount g).0 ≢ none)
      (millis : (g : G) → (random.gen_millis g).0 < 100_000) where
    HasRoom-Generates :
        Generates
          (gen_interactions true random 1000)
          (perform_timed p names random step_multiplier first true)
          HasRoom
    HasRoom-Generates = record {
      grows = λ n plan g (context, room, short).
          let (plan', g', made, more) =
            returns_from random decimal 1000 plan g context (omega arith) in
          let grown = gen_interactions-Grown random 1000 plan g plan' g' context made in
          let (i, is, some_new) = cons_of_length 999 grown.new grown.count in
          (
            plan',
            g',
            i,
            is,
            made,
            grown.behind ∙ ap (λ xs. plan.plan ++ xs) some_new,
            grown.step,
            (
              grown.context,
              omega arith,
              gen_interactions-IsShort random millis 1000 plan g plan' g' short made,
            ),
          );
      fewer = λ n plan (context, room, short). (context, omega arith, short);
      steps = λ n plan (context, room, short). (context, room, short);
    }

    -- In a build that checks overflow, if every drawn amount is a decimal, every drawn sleep is
    -- shorter than 100 seconds, the time limits fit a u64 and the identifiers suffice for so many
    -- interactions: a banker that is started performs its plan from the beginning, in order and each
    -- interaction once, however often more of the plan is generated; it does not stop by itself, but
    -- performs an interaction for each event, or ends with a request that is not done within its
    -- time.
    pub run_banker-PerformsPlan :
        (xs : List Encounter) (g : G)
        → 10 * 1000 + 100_000 + step_multiplier * 1000 ≤ u64_max
        → suc (length xs) * 1000 < i32_max
        → PerformsPlan xs (run_banker p names random step_multiplier first true xs g)
    unfolding run_banker
    run_banker-PerformsPlan xs g fits room =
        let start : BankerInteractionPlan D = BankerPlan.new in
        let empty : IsContext start.context = record { numbered = tt; next = refl } in
        let (plan, g', made, more) = returns_from random decimal 1000 start g empty (omega arith) in
        let grown = gen_interactions-Grown random 1000 start g plan g' empty made in
        let short = gen_interactions-IsShort random millis 1000 start g plan g' tt made in
        let (follows, goes_on, (_, _, short')) =
          client_loop-Follows (gen_interactions true random 1000)
            (perform_timed p names random step_multiplier first true) HasRoom-Generates xs []
            plan.plan plan g' tt (grown.context, omega arith, short) refl grown.step in
        subst (λ o. PerformsPlan xs (started p names random step_multiplier first true xs g o))
          (sym made)
          (
            (follows.ahead, follows.in_order),
            omega (arith, follows.place),
            ends_late xs (banker_loop p names random step_multiplier first true xs plan g')
                follows.ahead fits follows.in_order short' goes_on,
          )
