-- ===== src/Simulator/Banker/Start.antt =====
-- A banker as it is started: `start` of `simulator/src/client/banker/mod.rs`, with the time limit
-- around each interaction. Durations are in milliseconds.
pub mod Performs
use dst_demo.Prelude.{
  ℕ, suc, ◌+◌, ◌*◌, ◌%◌, ◌<◌, ◌≤◌, ◌≡◌, ◌≢◌, refl, sym, ◌∙◌, ap, arith, Bool, true, Option, none,
  some, cons_of_length, List, [], ◌++◌, length,
}
use mathlib.Core.Path.{subst}
use dst_demo.Prelude.Id.{i32_max}
use dst_demo.Text.Number.{u64_max}
use dst_demo.Platform.{Platform}
use dst_demo.Server.Actions.{ActionNames}
use dst_demo.Simulator.BankerPlan
use dst_demo.Simulator.BankerPlan.{
  InteractionPlanContext, Interaction, sleep, Random, BankerInteractionPlan, gen_interactions,
}
use dst_demo.Simulator.BankerPlan.Numbered.{IsContext, gen_interactions-Grown}
use dst_demo.Simulator.BankerPlan.Returns.{returns_from}
use dst_demo.Simulator.Connection.{Performed}
use dst_demo.Simulator.Banker.Retries.{perform_interaction}
use dst_demo.Simulator.TimeLimit.{Encounter, fit_u64, in_time, responded, pause}
use dst_demo.Simulator.Loop.{End, done, not_generated, Ran, client_loop}
use dst_demo.Simulator.Loop.Follows.{Generates, GoesOn, client_loop-Follows}

module _ {D : Type 0} where
  -- `if let Interaction::Sleep(duration)`: `as_millis() as u64`.
  abbrev pub sleep_millis : Interaction D → ℕ
  sleep_millis (sleep duration) = duration % 0x1_0000_0000_0000_0000
  sleep_millis _ = 0

  -- `TIMEOUT * 1000 + … + step_multiplier() * 1000`
  unfoldable pub interaction_timeout : Bool → ℕ → Interaction D → Option ℕ
  interaction_timeout checked step_multiplier i =
      fit_u64 checked (10 * 1000 + sleep_millis i + step_multiplier * 1000)

  abbrev pub time_taken : Interaction D → ℕ → ℕ
  time_taken (sleep duration) elapsed = duration
  time_taken _ elapsed = elapsed

-- `step_multiplier()`, and the choice of `select!`.
module _ {D G : Type 0} (p : Platform D) (names : ActionNames) (random : Random D G)
    (step_multiplier : ℕ) (first : Bool) where
  abbrev pub select : Interaction D → ℕ → Performed → Option ℕ → End
  select i elapsed (progress, _) none = End.crashed
  select i elapsed (progress, _) (some timeout) =
      responded progress (in_time first (time_taken i elapsed) timeout)

  abbrev pub limited : Bool → Encounter → Interaction D → BankerInteractionPlan D → End
  limited checked x i plan =
      select i x.elapsed (perform_interaction p names plan i x.attempts)
        (interaction_timeout checked step_multiplier i)

  -- One round of the inner loop, with the pause behind an interaction that is done.
  unfoldable pub perform_timed :
      Bool → Encounter → Interaction D → BankerInteractionPlan D → Unit {0} → End × Unit {0}
  perform_timed checked x i plan s = (pause checked step_multiplier (limited checked x i plan), s)

  -- The loop with its plans, of which 1000 interactions are generated at a time.
  abbrev pub banker_loop :
      Bool
      → List Encounter
      → BankerInteractionPlan D
      → G
      → Ran (InteractionPlanContext D) (Interaction D) G (Unit {0})
  banker_loop checked xs plan g =
      client_loop (gen_interactions checked random 1000) (perform_timed checked) xs plan g tt

  abbrev pub started :
      Bool
      → List Encounter
      → G
      → Option (BankerInteractionPlan D × G)
      → Ran (InteractionPlanContext D) (Interaction D) G (Unit {0})
  started checked xs g none = record {
    performed = [];
    halt = not_generated;
    plan = BankerPlan.new;
    random = g;
    state = tt;
  }
  started checked xs g (some (plan, g')) = banker_loop checked xs plan g'

  -- `start`: the first plan, and the loop.
  unfoldable pub run_banker :
      Bool → List Encounter → G → Ran (InteractionPlanContext D) (Interaction D) G (Unit {0})
  run_banker checked xs g =
      started checked xs g (gen_interactions checked random 1000 BankerPlan.new g)
