-- ===== src/Simulator/Health/Start.antt =====
-- The health checker as it is started: `start` and `health_check` of
-- `simulator/src/client/health_checker/mod.rs`. Times are in milliseconds.
use dst_demo.Prelude.{ℕ, ◌*◌, ◌≢◌, ◌⊎◌, [], ◌∷◌, ◌≡◌, Bool, Option, none, some, List, ◌++◌, length}
use dst_demo.Text.{Text}
use dst_demo.Simulator.HealthPlan
use dst_demo.Simulator.HealthPlan.{
  Interaction, sleep, health_check, HealthContext, HealthCheckInteractionPlan, gen_interactions,
  pattern,
}
use dst_demo.Simulator.Connection.{Performed}
use dst_demo.Simulator.Health.{perform_interaction}
use dst_demo.Simulator.TimeLimit.{Encounter, fit_u64, in_time, responded, pause}
use dst_demo.Simulator.Loop.{End, done, crashed, performing, ended_by, Ran, client_loop}

-- `step_multiplier()`, the choice of `select!` where both come at once, and the address.
module _ (step_multiplier : ℕ) (first : Bool) (address : Text) where
  abbrev pub select : ℕ → Performed → Option ℕ → End
  select elapsed (progress, _) none = crashed
  select elapsed (progress, _) (some timeout) =
      responded progress (in_time first elapsed (timeout * 1000))

  -- `health_check`, with its limit of `10 * step_multiplier()` seconds; a sleep has none.
  abbrev pub limited : Bool → Encounter → Interaction → End
  limited checked x (sleep _) = done
  limited checked x (health_check host) =
      select x.elapsed (perform_interaction (health_check host) x.attempts)
        (fit_u64 checked (10 * step_multiplier))

  -- The body of the loop: an interaction, and the pause behind it if it is done.
  unfoldable pub perform_timed :
      Bool → Encounter → Interaction → HealthCheckInteractionPlan → Unit {0} → End × Unit {0}
  perform_timed checked x i plan s = (pause checked step_multiplier (limited checked x i), s)

  -- The generation draws nothing and does not panic.
  abbrev pub generated :
      HealthCheckInteractionPlan → Unit {0} → Option (HealthCheckInteractionPlan × Unit {0})
  generated plan g = some (gen_interactions address 1000 plan, g)

  -- `start`: the first plan, and the loop.
  unfoldable pub run_health_checker :
      Bool → List Encounter → Ran HealthContext Interaction (Unit {0}) (Unit {0})
  run_health_checker checked xs =
      client_loop generated (perform_timed checked) xs
        (gen_interactions address 1000 HealthPlan.new) tt tt

  -- A plan of the form that generation gives.
  abbrev IsPattern : ℕ → HealthCheckInteractionPlan → Type 0
  IsPattern n plan = plan.plan ≡ pattern address 1 (length plan.plan)

  -- How the health check of a host ends, if its limit is a u64.
  abbrev pub checked_in_time : Encounter → Text → End
  checked_in_time x host =
      responded (perform_interaction (health_check host) x.attempts).0
        (in_time first x.elapsed (10 * step_multiplier * 1000))

  -- Still performing, with an interaction for each event; or ended by a health check that is not
  -- done within its time.
  abbrev pub EndsAtCheck :
      List Encounter → Ran HealthContext Interaction (Unit {0}) (Unit {0}) → Type 0
  EndsAtCheck xs r =
      ((r.halt ≡ performing) × (length r.performed ≡ length xs))
      ⊎ ((earlier later : List Encounter) × (x : Encounter) × (items : List Interaction)
          × (host : Text) × (xs ≡ earlier ++ x ∷ later)
          × (r.performed ≡ items ++ health_check host ∷ [])
          × (length items ≡ length earlier)
          × (checked_in_time x host ≢ done)
          × (r.halt ≡ ended_by (checked_in_time x host)))
