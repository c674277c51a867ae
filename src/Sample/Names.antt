-- ===== src/Sample/Names.antt =====
-- Names of the server's actions, in capitals.
use dst_demo.Prelude.{◌≡◌, refl, some, none, arith, Option, if◌then◌else◌}
use dst_demo.Text.{Text, codes, text_eq}
use dst_demo.Framing.Messages.{IsPlain}
use dst_demo.Server.Actions.{
  ServerAction, ActionNames, NameLaws, health, list_transactions, get_transaction,
  create_transaction, void_transaction, get_balance, close, exit,
}

abbrev name : ServerAction → Text
name health = codes "HEALTH"
name list_transactions = codes "LIST_TRANSACTIONS"
name get_transaction = codes "GET_TRANSACTION"
name create_transaction = codes "CREATE_TRANSACTION"
name void_transaction = codes "VOID_TRANSACTION"
name get_balance = codes "GET_BALANCE"
name close = codes "CLOSE"
name exit = codes "EXIT"

abbrev parse_name : Text → Option ServerAction
parse_name s =
    if text_eq s (codes "HEALTH")
    then some health
    else if text_eq s (codes "LIST_TRANSACTIONS")
    then some list_transactions
    else if text_eq s (codes "GET_TRANSACTION")
    then some get_transaction
    else if text_eq s (codes "CREATE_TRANSACTION")
    then some create_transaction
    else if text_eq s (codes "VOID_TRANSACTION")
    then some void_transaction
    else if text_eq s (codes "GET_BALANCE")
    then some get_balance
    else if text_eq s (codes "CLOSE")
    then some close
    else if text_eq s (codes "EXIT")
    then some exit
    else none

abbrev pub sample_names : ActionNames
sample_names = record { from_str = parse_name; as_ref = name }

name_reads : (a : ServerAction) → parse_name (name a) ≡ some a
name_reads health = refl
name_reads list_transactions = refl
name_reads get_transaction = refl
name_reads create_transaction = refl
name_reads void_transaction = refl
name_reads get_balance = refl
name_reads close = refl
name_reads exit = refl

name-IsPlain : (a : ServerAction) → IsPlain (name a)
name-IsPlain health = (omega arith, ground arith)
name-IsPlain list_transactions = (omega arith, ground arith)
name-IsPlain get_transaction = (omega arith, ground arith)
name-IsPlain create_transaction = (omega arith, ground arith)
name-IsPlain void_transaction = (omega arith, ground arith)
name-IsPlain get_balance = (omega arith, ground arith)
name-IsPlain close = (omega arith, ground arith)
name-IsPlain exit = (omega arith, ground arith)

pub sample_names-NameLaws : NameLaws sample_names
sample_names-NameLaws = record { reads = name_reads; plain = name-IsPlain }
