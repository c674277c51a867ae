-- ===== src/Server/Chains.antt =====
-- What every round of a client's task keeps: a relation between the worlds before and after that
-- the calls of the stream and of the bank keep is kept by all handlers and by the loop.
use dst_demo.Prelude.{◌≡◌, refl, true, Option, none, some}
use dst_demo.Text.{Text}
use dst_demo.Text.Number.{parse_i32}
use dst_demo.Outcome.{Outcome, ok, err, panic, ◌>>=◌, ◌>>◌, or_throw}
use dst_demo.Outcome.Laws.{>>=-related}
use dst_demo.Platform.{Platform}
use dst_demo.Bank
use dst_demo.Bank.{BankAction}
use dst_demo.Bank.Sound.{Command, list, get, create, void, balance, after}
use dst_demo.Server.{round, perform, obey, received}
use dst_demo.Server.Actions.{ServerAction, ActionNames}
use dst_demo.Server.Task.{World, TaskAction, Error, io, decimal, parse_int, on_bank, read, write}
use dst_demo.Server.Handlers.{
  list_transactions, get_transaction, create_transaction, void_transaction, health, get_balance,
  handle, id_prompt, amount_prompt,
}

-- What has to be shown of the relation.
pub record Rules {D : Type 0} (p : Platform D) (R : World D → World D → Type 0) : Type 1 where
  pub reflexive : (w : World D) → R w w
  pub transitive : (a b c : World D) → R a b → R b c → R a c
  pub writes : (m : Text) (w : World D) → R w (write m w).1
  pub reads : (w : World D) → R w (read w).1
  pub cancels : (w : World D) → R w (record w { cancelled = true })
  pub calls :
      (c : Command D) {A : Type 0} (m : BankAction D A)
      → ((b : Bank.Bank D) → (m b).1 ≡ after p c b)
      → (w : World D) → R w (on_bank m w).1

module _ {D : Type 0} (p : Platform D) (R : World D → World D → Type 0) (rules : Rules p R) where
  record Keeps {A : Type 0} (m : TaskAction D A) : Type 0 where
    pub keeps : (w : World D) → R w (m w).1

  >>=-Keeps :
      {A B : Type 0} {m : TaskAction D A} {f : A → TaskAction D B}
      → Keeps m
      → ((a : A) → Keeps (f a))
      → Keeps (m >>= f)
  >>=-Keeps {m = m} {f = f} h k = record {
    keeps = λ w. >>=-related R m f w rules.transitive (h.keeps w) λ a w'. (k a).keeps w';
  }

  write-Keeps : (m : Text) → Keeps (write m)
  write-Keeps m = record { keeps = rules.writes m }

  read-Keeps : Keeps read
  read-Keeps = record { keeps = rules.reads }

  or_throw-Keeps : {A : Type 0} (e : Error) (a : Option A) → Keeps (or_throw e a)
  or_throw-Keeps e none = record { keeps = rules.reflexive }
  or_throw-Keeps e (some a) = record { keeps = rules.reflexive }

  on_bank-Keeps :
      {A : Type 0} (c : Command D) (m : BankAction D A)
      → ((b : Bank.Bank D) → (m b).1 ≡ after p c b)
      → Keeps (on_bank m)
  on_bank-Keeps c m h = record { keeps = rules.calls c m h }

  -- A prompt, its answer, and what is done with it.
  prompted-Keeps :
      {A B : Type 0} (prompt : Text) (e : Error) (parse : Text → Option A) {f : A → TaskAction D B}
      → ((a : A) → Keeps (f a))
      → Keeps (write prompt >> (read >>= λ m. or_throw io m >>= λ m. or_throw e (parse m) >>= f))
  prompted-Keeps prompt e parse k = >>=-Keeps (write-Keeps prompt) λ _.
      >>=-Keeps read-Keeps
        λ m. >>=-Keeps (or_throw-Keeps io m) λ m. >>=-Keeps (or_throw-Keeps e (parse m)) k

  handle-Keeps : (a : ServerAction) → Keeps (handle p a)
  unfolding handle list_transactions get_transaction create_transaction void_transaction health
      get_balance after
  handle-Keeps ServerAction.health = write-Keeps _
  handle-Keeps ServerAction.list_transactions =
      >>=-Keeps (on_bank-Keeps list Bank.list_transactions λ b. refl) λ ts. write-Keeps _
  handle-Keeps ServerAction.get_transaction = prompted-Keeps id_prompt parse_int parse_i32 λ id.
      >>=-Keeps (on_bank-Keeps (get id) (Bank.get_transaction id) λ b. refl) λ t. write-Keeps _
  handle-Keeps ServerAction.create_transaction =
      prompted-Keeps amount_prompt decimal p.parse_amount λ amount.
        >>=-Keeps (on_bank-Keeps (create amount) (Bank.create_transaction p amount) λ b. refl)
          λ t. write-Keeps _
  handle-Keeps ServerAction.void_transaction = prompted-Keeps id_prompt parse_int parse_i32 λ id.
      >>=-Keeps (on_bank-Keeps (void id) (Bank.void_transaction p id) λ b. refl) λ t. write-Keeps _
  handle-Keeps ServerAction.get_balance =
      >>=-Keeps (on_bank-Keeps balance Bank.get_balance λ b. refl) λ b. write-Keeps _
  handle-Keeps ServerAction.close = record { keeps = rules.reflexive }
  handle-Keeps ServerAction.exit = record { keeps = rules.reflexive }

  module _ (names : ActionNames) where
    perform_keeps : (a : ServerAction) (w : World D) → R w (perform p names a w).1
    unfolding perform
    perform_keeps ServerAction.close w = rules.reflexive w
    perform_keeps ServerAction.exit w = rules.cancels w
    perform_keeps ServerAction.health w = (handle-Keeps ServerAction.health).keeps w
    perform_keeps ServerAction.list_transactions w =
        (handle-Keeps ServerAction.list_transactions).keeps w
    perform_keeps ServerAction.get_transaction w =
        (handle-Keeps ServerAction.get_transaction).keeps w
    perform_keeps ServerAction.create_transaction w =
        (handle-Keeps ServerAction.create_transaction).keeps w
    perform_keeps ServerAction.void_transaction w =
        (handle-Keeps ServerAction.void_transaction).keeps w
    perform_keeps ServerAction.get_balance w = (handle-Keeps ServerAction.get_balance).keeps w

    pub obey_keeps : (a : Option ServerAction) (w : World D) → R w (obey p names a w).1
    obey_keeps none w = rules.reflexive w
    obey_keeps (some a) w = perform_keeps a w

    received_keeps :
        (o : Outcome Error (Option Text) × World D) (w : World D)
        → R w o.1
        → R w (received p names o).1
    received_keeps (ok none, w') w h = h
    received_keeps (err _, w') w h = h
    received_keeps (panic, w') w h = h
    received_keeps (ok (some a), w') w h =
        rules.transitive w w' _ h (obey_keeps (names.from_str a) w')

    pub round_keeps : (w : World D) → R w (round p names w).1
    unfolding round
    round_keeps w = received_keeps (read w) w (read-Keeps.keeps w)
