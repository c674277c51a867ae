-- ===== src/Simulator/Faults.antt =====
-- What the fault injector does: `simulator/src/client/fault_injector/mod.rs`. Sleeping is a
-- library's.
pub mod Start
use dst_demo.Prelude.{◌≡◌, refl, ◌∙◌, ap, List, [], ◌∷◌}
use dst_demo.Text.{Text}
use dst_demo.Simulator.FaultPlan.{Interaction, sleep, bounce}
use dst_demo.Simulator.Actions.{
  Action, queue_bounce, queue_all, handle_each, handle_actions, queued, bounces,
}

unfoldable pub perform_interaction : Interaction → List Action → List Action
perform_interaction (sleep _) actions = actions
perform_interaction (bounce host) actions = queue_bounce host actions

-- Interactions one after the other.
unfoldable pub perform_each : List Interaction → List Action → List Action
perform_each [] actions = actions
perform_each (i ∷ is) actions = perform_each is (perform_interaction i actions)

unfoldable pub hosts : List Interaction → List Text
hosts [] = []
hosts (sleep _ ∷ is) = hosts is
hosts (bounce host ∷ is) = host ∷ hosts is

perform_each-queue_all :
    (is : List Interaction) (actions : List Action)
    → perform_each is actions ≡ queue_all (hosts is) actions
unfolding perform_each perform_interaction hosts queue_all
perform_each-queue_all [] actions = refl
perform_each-queue_all (sleep _ ∷ is) actions = perform_each-queue_all is actions
perform_each-queue_all (bounce host ∷ is) actions =
    perform_each-queue_all is (queue_bounce host actions)

-- The interactions that the fault injector performs are, after the next step of the simulation, the
-- bounces of their hosts, in order, and the queue is empty.
pub handle_actions-perform_each :
    {Sim : Type 0} (sim_bounce : Text → Sim → Sim) (is : List Interaction) (sim : Sim)
    → handle_actions sim_bounce (perform_each is []) sim ≡ ([], bounces sim_bounce (hosts is) sim)
unfolding handle_actions handle_each queue_all bounces
handle_actions-perform_each sim_bounce is sim =
    ap (λ q. handle_actions sim_bounce q sim) (perform_each-queue_all is [])
    ∙ ap (λ v. ([], v)) (queued sim_bounce (hosts is) [] sim)
