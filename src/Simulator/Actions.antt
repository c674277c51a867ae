-- ===== src/Simulator/Actions.antt =====
-- The queue of actions: `simulator/src/lib.rs`. The static behind its lock is an explicit state.
use dst_demo.Prelude.{◌≡◌, refl, sym, ◌∙◌, ap, List, [], ◌∷◌, ◌++◌}
use dst_demo.Text.{Text}

pub data Action : Type 0 where
  bounce : Text → Action

abbrev pub queue_bounce : Text → List Action → List Action
queue_bounce host actions = actions ++ bounce host ∷ []

-- What the fault injector does in a while.
unfoldable pub queue_all : List Text → List Action → List Action
queue_all [] actions = actions
queue_all (h ∷ hosts) actions = queue_all hosts (queue_bounce h actions)

-- `sim.bounce`, of the library.
module _ {Sim : Type 0} (sim_bounce : Text → Sim → Sim) where
  abbrev pub handle : Action → Sim → Sim
  handle (bounce host) sim = sim_bounce host sim

  unfoldable pub handle_each : List Action → Sim → Sim
  handle_each [] sim = sim
  handle_each (a ∷ actions) sim = handle_each actions (handle a sim)

  -- The queue is emptied first; then each action is handled.
  unfoldable pub handle_actions : List Action → Sim → List Action × Sim
  handle_actions actions sim = ([], handle_each actions sim)

  -- Bounces one after the other.
  unfoldable pub bounces : List Text → Sim → Sim
  bounces [] sim = sim
  bounces (h ∷ hosts) sim = bounces hosts (sim_bounce h sim)

  pub handle_each-append :
      (xs ys : List Action) (sim : Sim)
      → handle_each (xs ++ ys) sim ≡ handle_each ys (handle_each xs sim)
  unfolding handle_each
  handle_each-append [] ys sim = refl
  handle_each-append (x ∷ xs) ys sim = handle_each-append xs ys (handle x sim)

  pub queued :
      (hosts : List Text) (actions : List Action) (sim : Sim)
      → handle_each (queue_all hosts actions) sim ≡ bounces hosts (handle_each actions sim)
  unfolding queue_all bounces handle_each
  queued [] actions sim = refl
  queued (h ∷ hosts) actions sim =
      queued hosts (queue_bounce h actions) sim
      ∙ ap (bounces hosts) (handle_each-append actions (bounce h ∷ []) sim)

  bounces-append :
      (xs ys : List Text) (sim : Sim) → bounces (xs ++ ys) sim ≡ bounces ys (bounces xs sim)
  unfolding bounces
  bounces-append [] ys sim = refl
  bounces-append (x ∷ xs) ys sim = bounces-append xs ys (sim_bounce x sim)

  -- Hosts queued in two portions, with `handle_actions` after each, are bounced just as if they had
  -- been queued together: each once, in the order in which they were queued; and the queue is
  -- empty.
  pub handle_actions-queue_all :
      (first later : List Text) (sim : Sim)
      → (let (q, sim') = handle_actions (queue_all first []) sim in
          handle_actions (queue_all later q) sim')
        ≡ ([], bounces (first ++ later) sim)
  unfolding handle_actions handle_each
  handle_actions-queue_all first later sim =
      ap (λ v. ([], v))
        (queued later [] _
          ∙ ap (bounces later) (queued first [] sim)
          ∙ sym (bounces-append first later sim))
