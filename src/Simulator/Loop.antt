-- ===== src/Simulator/Loop.antt =====
-- What the `start`s of the clients share: `loop { while let Some(interaction) = plan.step() { … }
-- plan.gen_interactions(1000); }` of `simulator/src/client/*/mod.rs`. Each interaction that is
-- performed meets one event of the simulation, chosen beforehand; where the events end, the client
-- is still performing.
pub mod Follows
use dst_demo.Prelude.{ℕ, Option, none, some, List, [], ◌∷◌}
use dst_demo.Simulator.Plan.{Plan, next}

-- How `perform_interaction` ends: `Ok`, an error that the client returns, or a panic.
pub data End : Type 0 where
  done failed crashed : End

-- Where a client is: performing, ended by an interaction, ended by a panic of the generation, or in
-- a loop that performs nothing, since nothing is generated.
pub data Halt : Type 0 where
  performing : Halt
  ended_by : End → Halt
  not_generated : Halt
  spinning : Halt

-- `S` is what the interactions change, `G` the generator, `W` the events.
pub record Ran (C I G S : Type 0) : Type 0 where
  pub performed : List I
  pub halt : Halt
  pub plan : Plan C I
  pub random : G
  pub state : S

module _ {C I G S W : Type 0} (gen : Plan C I → G → Option (Plan C I × G))
    (perform : W → I → Plan C I → S → End × S) where
  abbrev pub after_gen : Option (Plan C I × G) → Option (Option I × Plan C I × G)
  after_gen none = none
  after_gen (some (plan, g)) = let (item, plan') = next plan in some (item, plan', g)

  abbrev pub or_gen : Option I × Plan C I → G → Option (Option I × Plan C I × G)
  or_gen (some i, plan) g = some (some i, plan, g)
  or_gen (none, plan) g = after_gen (gen plan g)

  -- The next interaction, after more have been generated if the plan is at its end.
  unfoldable pub upcoming : Plan C I → G → Option (Option I × Plan C I × G)
  upcoming plan g = or_gen (next plan) g

  abbrev pub halted : Halt → List I → Plan C I → G → S → Ran C I G S
  halted h items plan g s = record {
    performed = items;
    halt = h;
    plan = plan;
    random = g;
    state = s;
  }

  abbrev pub performed_first : I → Ran C I G S → Ran C I G S
  performed_first i r = record r { performed = i ∷ r.performed }

  abbrev pub resume : I → Plan C I → G → (Plan C I → G → S → Ran C I G S) → End × S → Ran C I G S
  resume i plan g rest (done, s) = performed_first i (rest plan g s)
  resume i plan g rest (failed, s) = halted (ended_by failed) (i ∷ []) plan g s
  resume i plan g rest (crashed, s) = halted (ended_by crashed) (i ∷ []) plan g s

  abbrev pub perform_upcoming :
      W
      → Plan C I
      → G
      → S
      → (Plan C I → G → S → Ran C I G S)
      → Option (Option I × Plan C I × G)
      → Ran C I G S
  perform_upcoming w plan g s rest none = halted not_generated [] plan g s
  perform_upcoming w plan g s rest (some (none, plan', g')) = halted spinning [] plan' g' s
  perform_upcoming w plan g s rest (some (some i, plan', g')) =
      resume i plan' g' rest (perform w i plan' s)

  -- The loop, as far as the events go.
  unfoldable pub client_loop : List W → Plan C I → G → S → Ran C I G S
  client_loop [] plan g s = halted performing [] plan g s
  client_loop (w ∷ ws) plan g s = perform_upcoming w plan g s (client_loop ws) (upcoming plan g)
