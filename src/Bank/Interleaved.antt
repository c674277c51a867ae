-- ===== src/Bank/Interleaved.antt =====
-- Tasks that share the bank and are interleaved in any order between their awaits of a lock. The
-- lock of `current_id` is held over a whole `create_transaction`; `void_transaction` reads the log
-- before it and makes only an assertion about its result after it.
pub mod Between
pub mod Locked
pub mod Readers
pub mod Killed
pub mod Lives
mod Tests
use dst_demo.Prelude.{ℕ, ◌≡◌, Option, none, some, ◌==◌, if◌then◌else◌}
use dst_demo.Prelude.Id.{ℤ}
use dst_demo.Outcome.{Outcome}
use dst_demo.Transaction.{Transaction}
use dst_demo.Platform.{Platform}
use dst_demo.Bank.{Bank, Error, find}
use dst_demo.Bank.Stages.{
  Stage, idle, finding, waiting, taken, checking, writing, crediting, pushing, finished, advance,
  settle,
}

abbrev pub update {ℓ} : {A : Type ℓ} → (ℕ → A) → ℕ → A → ℕ → A
update f i a j = if j == i then a else f j

-- The bank, the task that has the lock of `current_id`, and where each task stands.
pub record System (D : Type 0) : Type 0 where
  pub bank : Bank D
  pub owner : Option ℕ
  pub stage : ℕ → Stage D

module _ {D : Type 0} (p : Platform D) where
  abbrev pub place : System D → ℕ → Stage D → System D
  place s i st = record s { stage = update s.stage i st }

  -- The lock is dropped with the call.
  abbrev pub owner_after : Stage D → ℕ → Option ℕ
  owner_after idle i = none
  owner_after (finding _) i = none
  owner_after (waiting _) i = none
  owner_after (finished _) i = none
  owner_after (taken _) i = some i
  owner_after (checking _ _) i = some i
  owner_after (writing _) i = some i
  owner_after (crediting _) i = some i
  owner_after (pushing _) i = some i

  abbrev pub moved : System D → ℕ → Outcome Error (Stage D) × Bank D → System D
  moved s i (r, b) = record {
    bank = b;
    owner = owner_after (settle p r) i;
    stage = update s.stage i (settle p r);
  }

  -- What `void_transaction` does with what it has found.
  abbrev pub sought : Option (Transaction D) → Stage D
  sought none = idle
  sought (some existing) = waiting (p.neg existing.amount)

  -- A step of one task. Reading the log or the balance changes nothing and is left out.
  pub data Step (s t : System D) : Type 0 where
    create : (i : ℕ) (amount : D) → s.stage i ≡ idle → t ≡ place s i (waiting amount) → Step s t
    void : (i : ℕ) (id : ℤ) → s.stage i ≡ idle → t ≡ place s i (finding id) → Step s t
    find_existing :
        (i : ℕ) (id : ℤ)
        → s.stage i ≡ finding id
        → t ≡ place s i (sought (find id s.bank.transactions))
        → Step s t
    acquire :
        (i : ℕ) (amount : D)
        → s.stage i ≡ waiting amount
        → s.owner ≡ none
        → t ≡ record (place s i (taken amount)) { owner = some i }
        → Step s t
    work : (i : ℕ) → s.owner ≡ some i → t ≡ moved s i (advance p (s.stage i) s.bank) → Step s t
    leave :
        (i : ℕ) (o : Outcome Error (Transaction D))
        → s.stage i ≡ finished o
        → t ≡ place s i idle
        → Step s t

  abbrev pub init : Bank D → System D
  init b = record { bank = b; owner = none; stage = λ _. idle }

  pub data Reach (b : Bank D) : System D → Type 0 where
    start : Reach b (init b)
    later : {s t : System D} → Reach b s → Step s t → Reach b t
