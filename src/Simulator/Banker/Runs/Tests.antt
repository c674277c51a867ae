-- ===== src/Simulator/Banker/Runs/Tests.antt =====
-- A banker that creates a transaction between calls of another client.
use dst_demo.Prelude.{ℕ, suc, ◌==◌, refl, some, [], ◌∷◌, All, ◌<◌, if◌then◌else◌}
use dst_demo.Prelude.Id.{ℤ, pos}
use dst_demo.Sample.{sample}
use dst_demo.Bank
use dst_demo.Bank.{Bank}
use dst_demo.Bank.Serves.{Serves-call}
use dst_demo.Bank.Sound.{Linked, create, after}
use dst_demo.Simulator.BankerPlan
use dst_demo.Simulator.BankerPlan.{BankerInteractionPlan, InteractionType}
use dst_demo.Simulator.Plan.{next}
use dst_demo.Simulator.Banker.Recorded.{IsRecorded, IsPerformed}
use dst_demo.Simulator.Banker.Runs.{Reach, here, others, performs, generates, Reach-IsRecorded}

-- A creation of $1, and then lookups.
abbrev draws : BankerPlan.Random ℤ ℕ
draws = record {
  interaction_type = λ g. (
    if g == 0 then InteractionType.create_transaction else InteractionType.list_transactions,
    suc g,
  );
  choose = λ n g. (0, suc g);
  gen_id = λ g. (pos g, suc g);
  gen_millis = λ g. (g, suc g);
  gen_amount = λ g. (some (pos g), suc g);
}

abbrev opened : Bank ℤ
opened = record {
  file = record { content = []; fates = [] };
  transactions = [];
  current_id = pos 1;
  balance = pos 0;
  ticks = 0;
}

abbrev at_first : BankerInteractionPlan ℤ
at_first = record {
  context = record {
    curr_id = pos 2;
    transactions = record { id = pos 1; amount = pos 1; created_at = 0 } ∷ [];
  };
  step = 0;
  plan = BankerPlan.create_transaction (pos 1) ∷ BankerPlan.list_transactions ∷ [];
}

abbrev first : Bank ℤ
first = (Bank.create_transaction sample (pos 9) opened).1

abbrev second : Bank ℤ
second = (Bank.create_transaction sample (pos 1) first).1

calls : Unit {0}
unfolding BankerPlan.gen_interactions BankerPlan.gen_one BankerPlan.generate
    BankerPlan.add_interaction BankerPlan.note next after IsPerformed Bank.create_transaction
    Bank.prepare_transaction Bank.take_id Bank.check_and_persist Bank.assert_follows Bank.persist
    Bank.record_transaction
calls = tt

course : Reach sample draws BankerPlan.new opened (record at_first { step = 1 }) second
unfolding calls
course =
    performs (BankerPlan.create_transaction (pos 1))
      (others (generates 2 0 3 here refl) (Serves-call sample (create (pos 9)) opened first refl))
      refl (_, refl)

Reach-IsRecorded_example :
    IsRecorded (record at_first { step = 1 }) second
    × Linked sample second.transactions
    × All (λ t. 0 < t.created_at) second.transactions
Reach-IsRecorded_example =
    Reach-IsRecorded sample draws opened (record at_first { step = 1 }) second tt tt course
