-- ===== src/Server/Handlers.antt =====
-- The handlers of the actions, in the order of the source.
use dst_demo.Prelude.{Option, none, some, ◌∷◌, [], map}
use dst_demo.Text.{Text, codes, join}
use dst_demo.Text.Number.{parse_i32}
use dst_demo.Outcome.{◌>>=◌, ◌>>◌, pure, or_throw}
use dst_demo.Transaction.{Transaction}
use dst_demo.Transaction.Display.{show_transaction}
use dst_demo.Platform.{Platform}
use dst_demo.Bank
use dst_demo.Server.Actions.{ServerAction}
use dst_demo.Server.Task.{TaskAction, io, decimal, parse_int, on_bank, read, write}

abbrev pub id_prompt : Text
id_prompt = codes "Enter the transaction ID:"

abbrev pub amount_prompt : Text
amount_prompt = codes "Enter the transaction amount:"

abbrev pub not_found : Text
not_found = codes "Transaction not found"

module _ {D : Type 0} (p : Platform D) where
  unfoldable pub list_transactions : TaskAction D (Unit {0})
  list_transactions = do
    transactions ← on_bank Bank.list_transactions
    write (join (b'\n' ∷ []) (map (show_transaction p) transactions))

  -- The reply to a lookup.
  abbrev pub shown_or_not_found : Option (Transaction D) → Text
  shown_or_not_found none = not_found
  shown_or_not_found (some t) = show_transaction p t

  unfoldable pub get_transaction : TaskAction D (Unit {0})
  get_transaction = do
    write id_prompt
    message ← read
    message ← or_throw io message
    id ← or_throw parse_int (parse_i32 message)
    transaction ← on_bank (Bank.get_transaction id)
    write (shown_or_not_found transaction)

  unfoldable pub create_transaction : TaskAction D (Unit {0})
  create_transaction = do
    write amount_prompt
    message ← read
    message ← or_throw io message
    amount ← or_throw decimal (p.parse_amount message)
    transaction ← on_bank (Bank.create_transaction p amount)
    write (show_transaction p transaction)

  unfoldable pub void_transaction : TaskAction D (Unit {0})
  void_transaction = do
    write id_prompt
    message ← read
    message ← or_throw io message
    id ← or_throw parse_int (parse_i32 message)
    transaction ← on_bank (Bank.void_transaction p id)
    write (shown_or_not_found transaction)

  unfoldable pub health : TaskAction D (Unit {0})
  health = write (codes "healthy")

  unfoldable pub get_balance : TaskAction D (Unit {0})
  get_balance = do balance ← on_bank Bank.get_balance; write (b'$' ∷ p.show_amount balance)

  -- The `match`; `Close` and `Exit` leave the loop before there is anything to handle.
  unfoldable pub handle : ServerAction → TaskAction D (Unit {0})
  handle ServerAction.health = health
  handle ServerAction.list_transactions = list_transactions
  handle ServerAction.get_transaction = get_transaction
  handle ServerAction.create_transaction = create_transaction
  handle ServerAction.void_transaction = void_transaction
  handle ServerAction.get_balance = get_balance
  handle ServerAction.close = pure tt
  handle ServerAction.exit = pure tt
