-- ===== src/Simulator/Banker/Requests.antt =====
-- What the bank makes of a banker's interactions.
use dst_demo.Prelude.{◌≡◌, some, none, Option}
use dst_demo.Prelude.Id.{InI32}
use dst_demo.Text.Number.{show_ℤ}
use dst_demo.Outcome.{ok}
use dst_demo.Transaction.{Transaction}
use dst_demo.Transaction.Display.RoundTrip.{Fits}
use dst_demo.Platform.{Platform}
use dst_demo.Bank
use dst_demo.Bank.{Bank}
use dst_demo.Server.Requests
use dst_demo.Server.Requests.{Request}
use dst_demo.Simulator.BankerPlan.{
  BankerInteractionPlan, Interaction, sleep, list_transactions, get_transaction, create_transaction,
  void_transaction, get_balance,
}
use dst_demo.Simulator.Banker.Recorded.{IsRecorded}

module _ {D : Type 0} (p : Platform D) where
  -- The request of the protocol that an interaction is; a sleep is none.
  unfoldable pub request : Interaction D → Option Request
  request (sleep _) = none
  request list_transactions = some Requests.list
  request (get_transaction id) = some (Requests.get (show_ℤ id))
  request (create_transaction amount) = some (Requests.create (p.show_amount amount))
  request (void_transaction id) = some (Requests.void (show_ℤ id))
  request get_balance = some Requests.balance

  -- What a banker relies on of the bank, besides that its transactions fit their machine integers:
  -- the log holds what the plan had created so far, in its order, and a transaction that it asks
  -- for is created.
  unfoldable pub IsAnswered : BankerInteractionPlan D → Interaction D → Bank D → Type 0
  IsAnswered plan (sleep _) b = Unit
  IsAnswered plan list_transactions b = IsRecorded plan b
  IsAnswered plan (get_transaction id) b = InI32 id
  IsAnswered plan (create_transaction amount) b =
      (a : D) × (t : Transaction D) × (b' : Bank D) × (p.parse_amount (p.show_amount amount)
        ≡ some a)
      × (Bank.create_transaction p a b ≡ (ok t, b'))
      × Fits t
  IsAnswered plan (void_transaction id) b = Unit
  IsAnswered plan get_balance b = Unit
