-- ===== src/Server/Run/Tests.antt =====
-- A server that is started again on a file with one transaction, for two clients.
use dst_demo.Prelude.{◌⊎◌, ◌≡◌, refl, true, some, List, [], ◌∷◌, ◌++◌, arith}
use dst_demo.Prelude.Id.{ℤ, pos}
use dst_demo.Text.{codes}
use dst_demo.Text.Number.{show_ℤ}
use dst_demo.Text.Utf8.{into_bytes}
use dst_demo.Outcome.{ok, Sink}
use dst_demo.Framing.{bytes, Reader}
use dst_demo.Sample.{sample, write_fields}
use dst_demo.Sample.Laws.{sample-JsonLaws, sample-ClockLaws, sample-TotalLaws}
use dst_demo.Sample.Names.{sample_names}
use dst_demo.Bank.{Bank}
use dst_demo.Bank.Healthy.{IsHealthy}
use dst_demo.Server.Restarts.{Survives, Overflows, restarts-Survives}
use dst_demo.Bank.Open.{next_id}
use dst_demo.Bank.Recovery.{journal, IsStored}
use dst_demo.Bank.Sound.{IsSound}
use dst_demo.Server.Clients.{Server, Step, accept, turn}
use dst_demo.Server.Run.{run, run-new-IsSound}

abbrev stored : Bank ℤ
stored = record {
  file = record { content = codes "1,1000,250\n"; fates = [] };
  transactions = record { id = pos 1; amount = pos 250; created_at = 1000 } ∷ [];
  current_id = pos 2;
  balance = pos 250;
  ticks = 1;
}

stored-IsStored : IsStored sample stored
unfolding journal next_id write_fields show_ℤ into_bytes
stored-IsStored = record {
  text = codes "1,1000,250\n";
  journaled = refl;
  file = refl;
  in_step = refl;
}

abbrev conversation : Reader
conversation = bytes (codes "CREATE_TRANSACTION" ++ 0 ∷ codes "7" ++ 0 ∷ []) ∷ []

abbrev silent : Sink
silent = record { content = []; fates = [] }

abbrev visits : List Step
visits = accept conversation silent ∷ accept conversation silent ∷ turn 1 ∷ turn 0 ∷ []

run-new-IsSound_example :
    (s : Server ℤ) × (run sample sample_names true 1
        (some (record { content = stored.file.content; fates = [] }))
        visits
      ≡ ok s)
    × IsSound sample (record stored { balance = pos 0 }) s.bank
run-new-IsSound_example =
    run-new-IsSound sample sample_names sample-JsonLaws stored 1 [] visits stored-IsStored tt
      (omega arith, tt)

stored-IsHealthy : IsHealthy sample sample-ClockLaws sample-TotalLaws stored
stored-IsHealthy = record { stored = stored-IsStored; steady = refl; past = (omega arith, tt) }

restarts-Survives_example :
    Survives sample sample_names (visits ∷ [] ∷ visits ∷ []) stored
    ⊎ Overflows sample sample_names sample-ClockLaws sample-TotalLaws
        (visits ∷ [] ∷ visits ∷ [])
        stored
restarts-Survives_example =
    restarts-Survives sample sample_names sample-JsonLaws sample-ClockLaws sample-TotalLaws
      (visits ∷ [] ∷ visits ∷ []) stored stored-IsHealthy tt (omega arith, tt)
