-- ===== src/Transaction/Tests.antt =====
-- The text form at concrete transactions.
use dst_demo.Prelude.{◌≡◌, refl, arith}
use dst_demo.Prelude.Id.{ℤ, pos, negsuc}
use dst_demo.Text.{codes}
use dst_demo.Text.Number.{show_ℤ}
use dst_demo.Outcome.{ok}
use dst_demo.Transaction.{Transaction}
use dst_demo.Sample.{sample}
use dst_demo.Sample.Laws.{sample-CentsLaws}
use dst_demo.Transaction.Display.{show_transaction, from_str}
use dst_demo.Transaction.Display.RoundTrip.{show_transaction-from_str}

abbrev payment : Transaction ℤ
payment = record { id = pos 12; amount = negsuc 41; created_at = 1700000000 }

shown : show_transaction sample payment ≡ codes "id=12 created_at=1700000000 amount=$-42"
unfolding show_transaction show_ℤ
shown = refl

show_transaction-from_str_example :
    (t : Transaction ℤ) × (from_str sample (show_transaction sample payment) ≡ ok t)
    × (t.id ≡ pos 12)
    × (t.created_at ≡ 1700000000)
    × (show_transaction sample t ≡ show_transaction sample payment)
show_transaction-from_str_example =
    show_transaction-from_str sample sample-CentsLaws payment (λ a. refl) (omega arith)
