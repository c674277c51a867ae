-- ===== src/Bank/Killed/Tests.antt =====
-- A call on the concrete platform that is killed when its line is in the file, and before it moves
-- the balance.
use dst_demo.Prelude.{refl, []}
use dst_demo.Prelude.Id.{ℤ, pos}
use dst_demo.Text.{codes}
use dst_demo.Text.Utf8.{into_bytes}
use dst_demo.Text.Number.{show_ℤ}
use dst_demo.Transaction.{Transaction}
use dst_demo.Sample.{sample, write_fields}
use dst_demo.Sample.Laws.{sample-JsonLaws}
use dst_demo.Bank.{Bank, assert_follows, take_id, persist}
use dst_demo.Bank.Open.{next_id}
use dst_demo.Bank.Recovery.{IsStored, journal}
use dst_demo.Bank.Stages.{crediting, advance}
use dst_demo.Bank.Killed.{Work, begun, goes}
use dst_demo.Bank.Killed.Reopens.{Reopens, IsReadBack, Work-Reopens}

calls : Unit {0}
unfolding persist take_id assert_follows into_bytes write_fields show_ℤ advance journal next_id
calls = tt

abbrev fresh : Bank ℤ
fresh = record {
  file = record { content = []; fates = [] };
  transactions = [];
  current_id = pos 1;
  balance = pos 0;
  ticks = 0;
}

abbrev deposit : Transaction ℤ
deposit = record { id = pos 1; amount = pos 250; created_at = 1000 }

-- The balance and the log are still those of the fresh bank.
abbrev killed : Bank ℤ
killed = record fresh {
  file = record { content = codes "1,1000,250\n"; fates = [] };
  current_id = pos 2;
  ticks = 1;
}

killed-Work : Work sample (pos 250) fresh (crediting deposit) killed
unfolding calls
killed-Work = goes (goes (goes begun refl) refl) refl

fresh-IsStored : IsStored sample fresh
unfolding calls
fresh-IsStored = record { text = []; journaled = refl; file = refl; in_step = refl }

Work-Reopens_example :
    Reopens sample
      (IsReadBack sample (pos 250) fresh (crediting deposit))
      1
      (record { content = codes "1,1000,250\n"; fates = [] })
Work-Reopens_example =
    Work-Reopens sample (pos 250) fresh sample-JsonLaws fresh-IsStored tt tt (crediting deposit)
      killed 1 [] refl killed-Work
