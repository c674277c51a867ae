-- ===== src/Bank/Torn/Tests.antt =====
-- A call on a concrete platform whose write breaks off behind three bytes.
use dst_demo.Prelude.{◌≡◌, refl, some, [], ◌∷◌}
use dst_demo.Prelude.Id.{ℤ, pos}
use dst_demo.Text.{Text, codes}
use dst_demo.Text.Utf8.{into_bytes}
use dst_demo.Text.Number.{show_ℤ}
use dst_demo.Outcome.{err, broken}
use dst_demo.Transaction.{Transaction}
use dst_demo.Sample.{write_fields}
use dst_demo.Sample.Closed.{closed, closed-JsonLaws, closed-CutLaws}
use dst_demo.Bank.{
  Bank, io, assert_follows, take_id, persist, check_and_persist, prepare_transaction,
  record_transaction, create_transaction,
}
use dst_demo.Bank.Open.{next_id, new}
use dst_demo.Bank.Recovery.{IsStored, journal}
use dst_demo.Bank.Torn.Restart.{Restarts, create_transaction-Restarts}

calls : Unit {0}
unfolding create_transaction prepare_transaction record_transaction check_and_persist persist
    take_id assert_follows into_bytes write_fields show_ℤ journal next_id
calls = tt

abbrev breaking : Bank ℤ
breaking = record {
  file = record { content = []; fates = broken 3 ∷ [] };
  transactions = [];
  current_id = pos 1;
  balance = pos 0;
  ticks = 0;
}

abbrev torn : Bank ℤ
torn = record breaking {
  file = record { content = codes "1,1"; fates = [] };
  current_id = pos 2;
  ticks = 1;
}

breaks : create_transaction closed (pos 250) breaking ≡ (err io, torn)
unfolding calls
breaks = refl

breaking-IsStored : IsStored closed breaking
unfolding calls
breaking-IsStored = record { text = []; journaled = refl; file = refl; in_step = refl }

create_transaction-Restarts_example :
    (t : Transaction ℤ) × (line : Text) × (t.amount ≡ pos 250)
    × (t.id ≡ pos 1)
    × (closed.to_json t ≡ some line)
    × Restarts closed 3 line t []
        (new closed 1 (some (record { content = codes "1,1"; fates = [] })))
create_transaction-Restarts_example =
    create_transaction-Restarts closed closed-JsonLaws closed-CutLaws breaking breaking-IsStored 1
      [] (pos 250) 3 [] torn refl breaks
