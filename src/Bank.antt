-- ===== src/Bank.antt =====
-- `LocalBank` of `server/src/bank.rs`: the store of transactions behind the trait `Bank`.
-- The locks are held by one call at a time, so a call is a function on the record of their
-- contents. An error or a panic leaves what was written before it.
pub mod Open
pub mod Create
pub mod Void
pub mod Sound
pub mod Recovery
pub mod CurrentId
pub mod Broken
pub mod Failure
pub mod Success
pub mod Stages
pub mod Torn
pub mod WriteOnce
pub mod Killed
pub mod Serves
pub mod Healthy
pub mod Ends
pub mod Interleaved
mod Tests
use dst_demo.Prelude.{
  ℕ, suc, Bool, Option, none, some, List, [], ◌∷◌, ◌++◌, ltb, leb, if◌then◌else◌, get_last?,
}
use dst_demo.Prelude.Id.{ℤ, eq_ℤ, add_one}
use dst_demo.Text.{Text, Bytes}
use dst_demo.Text.Utf8.{into_bytes}
use dst_demo.Outcome.{
  Outcome, ok, err, panic, Action, ◌>>=◌, ◌>>◌, pure, gets, modify, unwrap, or_throw, assert, Sink,
  write_all,
}
use dst_demo.Transaction.{Transaction}
use dst_demo.Platform.{Platform}

-- `bank::Error`
pub data Error : Type 0 where
  io : Error
  serde_json : Error

-- The fields of `LocalBank`, with the number of times that the clock has been read.
pub record Bank (D : Type 0) : Type 0 where
  pub file : Sink
  pub transactions : List (Transaction D)
  pub current_id : ℤ
  pub balance : D
  pub ticks : ℕ

abbrev pub BankAction : Type 0 → Type 0 → Type 0
BankAction D = Action (Bank D) Error

module _ {D : Type 0} where
  -- `iter().find(|x| x.id == id).cloned()`
  unfoldable pub find : ℤ → List (Transaction D) → Option (Transaction D)
  find id [] = none
  find id (t ∷ ts) = if eq_ℤ t.id id then some t else find id ts

  unfoldable pub list_transactions : BankAction D (List (Transaction D))
  list_transactions = gets (λ b. b.transactions)

  unfoldable pub get_transaction : ℤ → BankAction D (Option (Transaction D))
  get_transaction id = gets (λ b. find id b.transactions)

  unfoldable pub get_balance : BankAction D D
  get_balance = gets (λ b. b.balance)

  abbrev pub finish_write : Bool × Sink → BankAction D (Unit {0})
  finish_write (done, file) b = (if done then ok tt else err io, record b { file = file })

  -- `self.file.lock().await.write_all(bytes)?`
  abbrev pub write_file : Bytes → BankAction D (Unit {0})
  write_file bytes b = finish_write (write_all bytes b.file) b

module _ {D : Type 0} (p : Platform D) where
  -- `switchy::time::now().duration_since(UNIX_EPOCH).unwrap().as_secs()`
  abbrev pub read_clock : BankAction D ℕ
  read_clock b = unwrap (p.now b.ticks) (record b { ticks = suc b.ticks })

  -- The two assertions about the last transaction; `last.id + 1` may overflow itself.
  unfoldable pub assert_follows : Transaction D → Option (Transaction D) → BankAction D (Unit {0})
  assert_follows t none = pure tt
  assert_follows t (some last) = do
    assert (leb last.created_at t.created_at)
    next ← unwrap (add_one p.overflow_checks last.id)
    assert (eq_ℤ t.id next)

  -- `let id = *binding; *binding += 1`
  unfoldable pub take_id : BankAction D ℤ
  take_id = do
    id ← gets (λ b. b.current_id)
    next ← unwrap (add_one p.overflow_checks id)
    modify (λ b. record b { current_id = next })
    pure id

  -- The transaction's line goes to the file.
  unfoldable pub persist : Transaction D → BankAction D (Unit {0})
  persist t = do
    serialized ← or_throw serde_json (p.to_json t)
    write_file (into_bytes (serialized ++ b'\n' ∷ []))

  -- All that is checked before the transaction's line is written, and the write.
  unfoldable pub check_and_persist : Transaction D → ℕ → BankAction D (Transaction D)
  check_and_persist t seconds_since_epoch = do
    last ← gets (λ b. get_last? b.transactions)
    assert_follows t last
    assert (ltb 0 t.created_at)
    assert (leb t.created_at seconds_since_epoch)
    persist t
    pure t

  abbrev pub stamp : D → ℤ → ℕ → Transaction D
  stamp amount id seconds = record { id = id; amount = amount; created_at = seconds }

  unfoldable pub prepare_transaction : D → BankAction D (Transaction D)
  prepare_transaction amount = do
    id ← take_id
    seconds_since_epoch ← read_clock
    check_and_persist (stamp amount id seconds_since_epoch) seconds_since_epoch

  -- `*self.balance.write().await += transaction.amount`, then the push.
  unfoldable pub record_transaction : Transaction D → BankAction D (Transaction D)
  record_transaction t = do
    balance ← gets (λ b. b.balance)
    balance' ← unwrap (p.add balance t.amount)
    modify (λ b. record b { balance = balance' })
    modify (λ b. record b { transactions = b.transactions ++ t ∷ [] })
    pure t

  unfoldable pub create_transaction : D → BankAction D (Transaction D)
  create_transaction amount = do t ← prepare_transaction amount; record_transaction t

  abbrev pub void_found : Option (Transaction D) → BankAction D (Option (Transaction D))
  void_found none = pure none
  void_found (some existing) = do
    new_transaction ← create_transaction (p.neg existing.amount)
    assert (leb existing.created_at new_transaction.created_at)
    pure (some new_transaction)

  unfoldable pub void_transaction : ℤ → BankAction D (Option (Transaction D))
  void_transaction id = do existing ← gets (λ b. find id b.transactions); void_found existing
