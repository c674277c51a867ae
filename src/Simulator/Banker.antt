-- ===== src/Simulator/Banker.antt =====
-- The banker's side of the protocol: the interactions of `simulator/src/client/banker/mod.rs`, each
-- on a connection of its own. The sleeps and the time limit around an interaction are a library's.
pub mod Requests
pub mod Recorded
pub mod Runs
pub mod Checked
pub mod Asks
pub mod Served
pub mod Exchange
pub mod Retries
pub mod Start
mod Tests
use dst_demo.Prelude.{
  Bool, true, false, Option, none, some, List, [], ◌∷◌, ◌++◌, if◌then◌else◌, length, take, leb,
  ◌||◌,
}
use dst_demo.Prelude.Id.{ℤ}
use dst_demo.Text.{Text, Bytes, codes, text_eq, split, strip_prefix}
use dst_demo.Text.Number.{show_ℤ}
use dst_demo.Outcome.{
  Outcome, ok, err, panic, Action, ◌>>=◌, ◌>>◌, pure, throw, unwrap, assert, Sink, write_all,
}
use dst_demo.Framing.{Reader, ReadResult, Read, frame}
use dst_demo.Transaction.{Transaction}
use dst_demo.Transaction.Display.{FromStrError, from_str}
use dst_demo.Platform.{Platform}
use dst_demo.Server.Actions
use dst_demo.Server.Actions.{ServerAction, ActionNames, show_action}
use dst_demo.Simulator.Plan.{Plan}
use dst_demo.Simulator.BankerPlan.{
  BankerInteractionPlan, Interaction, sleep, list_transactions, get_transaction, create_transaction,
  void_transaction, get_balance,
}
use dst_demo.Simulator.Connection.{TcpStream, ClientAction, send_message, receive}
use dst_demo.Simulator.Checks.{accepts_transaction}

-- The amounts of the transactions that the plan has had created: of the interactions before `step`.
unfoldable pub created_amounts : {D : Type 0} → List (Interaction D) → List D
created_amounts [] = []
created_amounts (create_transaction amount ∷ is) = amount ∷ created_amounts is
created_amounts (sleep _ ∷ is) = created_amounts is
created_amounts (list_transactions ∷ is) = created_amounts is
created_amounts (get_transaction _ ∷ is) = created_amounts is
created_amounts (void_transaction _ ∷ is) = created_amounts is
created_amounts (get_balance ∷ is) = created_amounts is

module _ {D : Type 0} (p : Platform D) where
  abbrev pub both :
      Outcome FromStrError (Transaction D)
      → Outcome FromStrError (List (Transaction D))
      → Outcome FromStrError (List (Transaction D))
  both (ok t) (ok ts) = ok (t ∷ ts)
  both (ok t) (err e) = err e
  both (ok t) panic = panic
  both (err e) rest = err e
  both panic rest = panic

  -- `map(Transaction::from_str).collect::<Result<Vec<_>, _>>()`
  unfoldable pub parse_all : List Text → Outcome FromStrError (List (Transaction D))
  parse_all [] = ok []
  parse_all (l ∷ ls) = both (from_str p l) (parse_all ls)

  abbrev pub is_ok : {E A : Type 0} → Outcome E A → Bool
  is_ok (ok a) = true
  is_ok (err e) = false
  is_ok panic = false

  -- `unwrap_or_else(|e| panic!(…))`
  abbrev pub or_panic : {E A : Type 0} → Outcome E A → ClientAction A
  or_panic (ok a) stream = (ok a, stream)
  or_panic (err e) stream = (panic, stream)
  or_panic panic stream = (panic, stream)

  -- `any(|x| format!("{:.2}", x.amount) == format!("{amount:.2}"))`
  unfoldable pub has_amount : D → List (Transaction D) → Bool
  has_amount amount [] = false
  has_amount amount (t ∷ ts) =
      text_eq (p.show_cents t.amount) (p.show_cents amount) || has_amount amount ts

  unfoldable pub assert_amounts : List D → List (Transaction D) → ClientAction (Unit {0})
  assert_amounts [] ts = pure tt
  assert_amounts (amount ∷ amounts) ts = assert (has_amount amount ts) >> assert_amounts amounts ts

  -- What is checked of a list that is not empty.
  unfoldable pub check_list : List D → Text → ClientAction (Unit {0})
  check_list amounts message = do
    transactions ← or_panic (parse_all (split b'\n' message))
    assert (leb (length amounts) (length transactions))
    assert_amounts amounts transactions

  -- The early return when `message.is_empty()`.
  abbrev pub check_reply : List D → Text → ClientAction (Unit {0})
  check_reply amounts [] = pure tt
  check_reply amounts (c ∷ s) = check_list amounts (c ∷ s)

  abbrev pub check_balance : Option Text → Bool
  check_balance none = false
  check_balance (some amount) = elim (p.parse_amount amount) [ some a ↦ true | none ↦ false ]

  module _ (names : ActionNames) where
    unfoldable pub send_action : ServerAction → ClientAction (Unit {0})
    send_action action = send_message (show_action names action)

    unfoldable pub ask_transaction : ℤ → ClientAction (Unit {0})
    ask_transaction id = do
      send_action Actions.get_transaction
      message ← receive
      assert (text_eq message (codes "Enter the transaction ID:"))
      send_message (show_ℤ id)
      message ← receive
      assert (accepts_transaction p id message)

    unfoldable pub ask_list : BankerInteractionPlan D → ClientAction (Unit {0})
    ask_list plan = do
      send_action Actions.list_transactions
      message ← receive
      check_reply (created_amounts (take plan.step plan.plan)) message

    unfoldable pub ask_create : D → ClientAction (Unit {0})
    ask_create amount = do
      send_action Actions.create_transaction
      send_message (p.show_amount amount)
      message ← receive
      assert (text_eq message (codes "Enter the transaction amount:"))
      message ← receive
      assert (is_ok (from_str p message))

    unfoldable pub ask_void : ℤ → ClientAction (Unit {0})
    ask_void id = do
      send_action Actions.void_transaction
      send_message (show_ℤ id)
      message ← receive
      assert (text_eq message (codes "Enter the transaction ID:"))

    unfoldable pub ask_balance : ClientAction (Unit {0})
    ask_balance = do
      send_action Actions.get_balance
      message ← receive
      assert (check_balance (strip_prefix (codes "$") message))

    -- The `match` on the interaction; a sleep never comes to it.
    unfoldable pub interact : BankerInteractionPlan D → Interaction D → ClientAction (Unit {0})
    interact plan (sleep _) = unwrap none
    interact plan list_transactions = ask_list plan
    interact plan (get_transaction id) = ask_transaction id
    interact plan (create_transaction amount) = ask_create amount
    interact plan (void_transaction id) = ask_void id
    interact plan get_balance = ask_balance
