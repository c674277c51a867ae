-- ===== src/Simulator/Tests.antt =====
-- The simulator's definitions at concrete inputs.
use dst_demo.Prelude.{
  ◌%◌, ◌<◌, ℕ, suc, ◌==◌, ◌≡◌, ◌≢◌, none, ◌↔◌, refl, arith, Bool, true, false, not, if◌then◌else◌,
  some, inl, inr, List, [], ◌∷◌, ◌++◌, length, Sublist,
}
use dst_demo.Prelude.Id.{ℤ, pos}
use dst_demo.Text.{Text, codes}
use dst_demo.Framing.{bytes, Reader, message, frame}
use dst_demo.Bank.{find}
use dst_demo.Simulator.HealthPlan
use dst_demo.Simulator.HealthPlan.{HealthCheckInteractionPlan, gen_interactions-pattern}
use dst_demo.Sample.{sample}
use dst_demo.Sample.Names.{sample_names}
use dst_demo.Simulator.Connection.{refused}
use dst_demo.Simulator.TimeLimit.{Encounter}
use dst_demo.Simulator.Faults.Start.{
  InjectsPlan, run_fault_injector, run_fault_injector-InjectsPlan,
}
use dst_demo.Simulator.Banker.Start.{run_banker}
use dst_demo.Simulator.Banker.Start.Performs.{PerformsPlan, run_banker-PerformsPlan}
use dst_demo.Simulator.FaultPlan
use dst_demo.Simulator.FaultPlan.{FaultInjectionInteractionPlan, gen_interactions-returns}
use dst_demo.Simulator.BankerPlan
use dst_demo.Simulator.BankerPlan.{BankerInteractionPlan, InteractionType}
use dst_demo.Simulator.BankerPlan.Numbered.{Grown}
use dst_demo.Simulator.BankerPlan.Returns.{gen_interactions-has_room}
use dst_demo.Simulator.Reply.{read_fresh, read_fresh_loses}
use dst_demo.Transaction.{Transaction}
use dst_demo.Simulator.Headers.{Header, headers_contains_in_order, headers_contains_in_order_iff}

abbrev address : Text
address = codes "server:3000"

abbrev two_checks : HealthCheckInteractionPlan
two_checks = record HealthPlan.new {
  plan = HealthPlan.health_check address ∷ HealthPlan.sleep 1000 ∷ [];
}

-- A check that takes three seconds, a sleep, and a check that is refused.
abbrev encounters : List Encounter
encounters =
    record { attempts = []; elapsed = 3000 }
    ∷ record { attempts = []; elapsed = 0 }
    ∷ record { attempts = refused ∷ []; elapsed = 10000 }
    ∷ []

-- Every interaction is a bounce, and every other bounce is skipped.
abbrev faults : FaultPlan.Random Bool
faults = record {
  interaction_type = λ g. (FaultPlan.InteractionType.bounce, g);
  gen_millis = λ g. (7, g);
  gen_bool = λ g. (g, not g);
  step_multiplier = 10;
}

faults_settle : (g : Bool) → FaultPlan.Settles true faults (codes "server") 2 g
unfolding FaultPlan.draw
faults_settle false = inl (λ e. ground arith)
faults_settle true = inr (inl (λ e. ground arith))

gen_interactions-returns_example :
    (new : List FaultPlan.Interaction) × (g' : Bool) × (FaultPlan.gen_interactions true faults
        (codes "server")
        2
        3
        FaultPlan.new
        true
      ≡ some (record FaultPlan.new { plan = [] ++ new }, g'))
    × (length new ≡ 3)
gen_interactions-returns_example =
    gen_interactions-returns true faults (codes "server") 2 3 FaultPlan.new true (λ g. omega arith)
      faults_settle

-- The simulation is the list of what it has bounced.
run_fault_injector-InjectsPlan_example :
    InjectsPlan
      (λ h (sim : List Text). sim ++ h ∷ [])
      true
      faults
      (codes "server")
      2
      (true ∷ false ∷ true ∷ [])
      []
      (run_fault_injector
        (λ h (sim : List Text). sim ++ h ∷ [])
        true
        faults
        (codes "server")
        2
        (true ∷ false ∷ true ∷ [])
        true
        ([], []))
run_fault_injector-InjectsPlan_example =
    run_fault_injector-InjectsPlan (λ h (sim : List Text). sim ++ h ∷ []) true faults
      (codes "server") 2 (λ g. omega arith) faults_settle (true ∷ false ∷ true ∷ []) true []

abbrev draws : BankerPlan.Random ℤ ℕ
draws = record {
  interaction_type = λ g. (
    if g == 0 then InteractionType.create_transaction else InteractionType.void_transaction,
    suc g,
  );
  choose = λ n g. (0, suc g);
  gen_id = λ g. (pos g, suc g);
  gen_millis = λ g. (g % 100_000, suc g);
  gen_amount = λ g. (some (pos g), suc g);
}

decimal_amounts : (g : ℕ) → (draws.gen_amount g).0 ≢ none
decimal_amounts g e = ground arith

short_sleeps : (g : ℕ) → (draws.gen_millis g).0 < 100_000
short_sleeps g = omega arith

run_banker-PerformsPlan_example :
    PerformsPlan sample sample_names draws 1 true encounters
      (run_banker sample sample_names draws 1 true true encounters 0)
run_banker-PerformsPlan_example =
    run_banker-PerformsPlan sample sample_names draws 1 true decimal_amounts short_sleeps encounters
      0 (omega arith) (omega arith)

abbrev planned : BankerInteractionPlan ℤ
planned = record {
  context = record {
    curr_id = pos 3;
    transactions =
        record { id = pos 1; amount = pos 1; created_at = 0 }
        ∷ record { id = pos 2; amount = pos 1; created_at = 0 }
        ∷ [];
  };
  step = 0;
  plan = BankerPlan.create_transaction (pos 1) ∷ BankerPlan.void_transaction (pos 1) ∷ [];
}

planning : Unit {0}
unfolding BankerPlan.gen_interactions BankerPlan.gen_one BankerPlan.generate BankerPlan.random_id
    BankerPlan.add_interaction BankerPlan.note find
planning = tt

planned_two : BankerPlan.gen_interactions true draws 2 BankerPlan.new 0 ≡ some (planned, 4)
unfolding planning
planned_two = refl

gen_interactions-has_room_example :
    (s : BankerInteractionPlan ℤ) × (g : ℕ) × (BankerPlan.gen_interactions true draws 2
        BankerPlan.new 0
      ≡ some (s, g))
    × Grown 2 BankerPlan.new s
gen_interactions-has_room_example =
    gen_interactions-has_room draws (λ g e. ground arith) 2 BankerPlan.new 0
      (record { numbered = tt; next = refl }) (omega arith)

abbrev reply : Reader
reply = bytes (codes "heal") ∷ bytes (codes "thy" ++ 0 ∷ []) ∷ []

abbrev sent : List Header
sent = (codes "Accept", codes "1") ∷ (codes "Host", codes "2") ∷ (codes "Via", codes "3") ∷ []

headers_contains_in_order_iff_example :
    (headers_contains_in_order ((codes "Host", codes "2") ∷ []) sent ≡ true)
    ↔ Sublist ((codes "Host", codes "2") ∷ []) sent
headers_contains_in_order_iff_example =
    headers_contains_in_order_iff ((codes "Host", codes "2") ∷ []) sent

read_fresh_loses_example :
    read_fresh (bytes (frame (codes "one") ++ frame (codes "two")) ∷ [])
    ≡ (message (codes "one"), codes "two" ++ 0 ∷ [], [])
read_fresh_loses_example =
    read_fresh_loses (codes "one") (codes "two") [] (omega arith, ground arith)
      (omega arith, ground arith)

abbrev log : List (Transaction ℤ)
log = record { id = pos 1; amount = pos 250; created_at = 1000 } ∷ []
