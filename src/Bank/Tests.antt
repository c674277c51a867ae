-- ===== src/Bank/Tests.antt =====
-- The bank on the concrete platform: runs, and its theorems at concrete banks.
use dst_demo.Prelude.{◌≤◌, ◌≡◌, ◌≢◌, refl, some, none, [], ◌∷◌, arith, ◌⊎◌}
use dst_demo.Prelude.Id.{ℤ, pos, negsuc}
use dst_demo.Text.{codes}
use dst_demo.Outcome.{ok, err, panic, Sink, broken}
use dst_demo.Transaction.{Transaction}
use dst_demo.Sample.{sample, neg_ℤ}
use dst_demo.Sample.Laws.{sample-JsonLaws, sample-ClockLaws, sample-TotalLaws}
use dst_demo.Bank.{
  Bank, io, find, assert_follows, take_id, persist, check_and_persist, prepare_transaction,
  record_transaction, create_transaction, void_transaction,
}
use dst_demo.Bank.Open.{next_id, new}
use dst_demo.Bank.Create.{Created, create_transaction-Created}
use dst_demo.Bank.Failure.{Kept, create_transaction_cases}
use dst_demo.Bank.Ends.{Ends, create_transaction-Ends}
use dst_demo.Bank.Healthy.{IsHealthy}
use dst_demo.Bank.Void.{void_transaction-Created}
use dst_demo.Bank.Sound.{create, void, get, list, balance, run, IsSound, run-IsSound}
use dst_demo.Bank.Recovery.{IsStored, journal, new-IsStored}
use dst_demo.Bank.Broken.{failed_create_stops}
use dst_demo.Text.Utf8.{into_bytes}
use dst_demo.Text.Number.{show_ℤ}
use dst_demo.Sample.{write_fields}

-- What a run of the bank calls.
calls : Unit {0}
unfolding create_transaction void_transaction prepare_transaction record_transaction
    check_and_persist persist take_id assert_follows find into_bytes write_fields show_ℤ
calls = tt

abbrev empty_file : Sink
empty_file = record { content = []; fates = [] }

abbrev fresh : Bank ℤ
fresh = record {
  file = empty_file;
  transactions = [];
  current_id = pos 1;
  balance = pos 0;
  ticks = 0;
}

abbrev deposit : Transaction ℤ
deposit = record { id = pos 1; amount = pos 250; created_at = 1000 }

abbrev one : Bank ℤ
one = record {
  file = record { content = codes "1,1000,250\n"; fates = broken 3 ∷ [] };
  transactions = deposit ∷ [];
  current_id = pos 2;
  balance = pos 250;
  ticks = 1;
}

create_first :
    create_transaction sample (pos 250) fresh
    ≡ (ok deposit, record one { file = record { content = codes "1,1000,250\n"; fates = [] } })
unfolding calls
create_first = refl

create_broken : (create_transaction sample (pos 7) one).0 ≡ err io
unfolding calls
create_broken = refl

void_first :
    (void_transaction sample
      (pos 1)
      (record one { file = record { content = codes "1,1000,250\n"; fates = [] } })).1.balance
    ≡ pos 0
unfolding calls
void_first = refl

create_transaction-Created_example :
    Created sample (pos 250) fresh deposit (create_transaction sample (pos 250) fresh).1
unfolding calls
create_transaction-Created_example =
    create_transaction-Created sample (pos 250) fresh deposit _ refl

create_transaction_cases_example :
    ((t : Transaction ℤ) × ((create_transaction sample (pos 7) one).0 ≡ ok t)
      × Created sample (pos 7) one t (create_transaction sample (pos 7) one).1)
    ⊎ Kept one (create_transaction sample (pos 7) one).1
create_transaction_cases_example = create_transaction_cases sample (pos 7) one

run-IsSound_example :
    IsSound sample one
      (run sample (create (pos 7) ∷ void (pos 1) ∷ get (pos 1) ∷ list ∷ balance ∷ []) one)
run-IsSound_example =
    run-IsSound sample (create (pos 7) ∷ void (pos 1) ∷ get (pos 1) ∷ list ∷ balance ∷ []) one tt
      (omega arith, tt)

create_fails : (t : Transaction ℤ) → (create_transaction sample (pos 7) one).0 ≢ ok t
unfolding calls
create_fails t e = ground arith

failed_create_stops_example :
    let b' =
      run sample (void (pos 1) ∷ create (pos 3) ∷ []) (create_transaction sample (pos 7) one).1 in
    ((create_transaction sample (pos 5) b').0 ≡ panic)
    × (b'.transactions ≡ deposit ∷ [])
    × (b'.balance ≡ pos 250)
failed_create_stops_example =
    failed_create_stops sample refl (pos 7) one deposit (pos 3) refl refl refl create_fails
      (void (pos 1) ∷ create (pos 3) ∷ []) (pos 5)

abbrev stored_one : Bank ℤ
stored_one = record one { file = record { content = codes "1,1000,250\n"; fates = [] } }

abbrev undo : Transaction ℤ
undo = record { id = pos 2; amount = negsuc 249; created_at = 1002 }

void_transaction-Created_example :
    ((existing : Transaction ℤ) × (t : Transaction ℤ) × (find (pos 1) stored_one.transactions
        ≡ some existing)
      × (some undo ≡ some t)
      × (existing.created_at ≤ t.created_at)
      × Created sample
          (neg_ℤ existing.amount)
          stored_one
          t
          (void_transaction sample (pos 1) stored_one).1)
    ⊎ ((find (pos 1) stored_one.transactions ≡ none)
        × (some undo ≡ none)
        × ((void_transaction sample (pos 1) stored_one).1 ≡ stored_one))
unfolding calls
void_transaction-Created_example =
    void_transaction-Created sample (pos 1) stored_one (some undo) _ refl

fresh-IsStored : IsStored sample fresh
unfolding journal into_bytes next_id
fresh-IsStored = record { text = []; journaled = refl; file = refl; in_step = refl }

fresh-IsHealthy : IsHealthy sample sample-ClockLaws sample-TotalLaws fresh
fresh-IsHealthy = record { stored = fresh-IsStored; steady = refl; past = tt }

create_transaction-Ends_example : Ends sample sample-ClockLaws sample-TotalLaws (pos 250) fresh
create_transaction-Ends_example =
    create_transaction-Ends sample sample-ClockLaws sample-TotalLaws (pos 250) fresh fresh-IsHealthy

one-IsStored : IsStored sample one
unfolding journal calls next_id
one-IsStored = record { text = codes "1,1000,250\n"; journaled = refl; file = refl; in_step = refl }

new-IsStored_example :
    new sample 1 (some (record { content = one.file.content; fates = [] }))
    ≡ ok (record {
      file = record { content = one.file.content; fates = [] };
      transactions = deposit ∷ [];
      current_id = pos 2;
      balance = pos 0;
      ticks = 1;
    })
new-IsStored_example = new-IsStored sample sample-JsonLaws one 1 [] one-IsStored
