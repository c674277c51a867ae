-- ===== src/Server/Requests.antt =====
-- The protocol of the server as a client sees it: a request is what the client sends, and the reply
-- is a list of messages. Nothing here speaks of bytes, chunks or buffers.
use dst_demo.Prelude.{◌≡◌, Option, none, some, List, [], ◌∷◌, ◌++◌, map}
use dst_demo.Text.{Text, codes, join}
use dst_demo.Text.Number.{parse_i32}
use dst_demo.Outcome.{Outcome, ok, err, panic}
use dst_demo.Framing.Messages.{IsPlain}
use dst_demo.Transaction.Display.{show_transaction}
use dst_demo.Platform.{Platform}
use dst_demo.Bank
use dst_demo.Bank.{Bank, find}
use dst_demo.Server.{Ended, closed, crashed}
use dst_demo.Server.Actions.{ServerAction, ActionNames}
use dst_demo.Server.Handlers.{id_prompt, amount_prompt, shown_or_not_found}

-- The name of an action, with the answer to its prompt where it has one; `unknown` is a message
-- that names no action.
pub data Request : Type 0 where
  health list balance close : Request
  get create void unknown : Text → Request

pub record Response (D : Type 0) : Type 0 where
  pub ended : Option Ended
  pub replies : List Text
  pub bank : Bank D

module _ (names : ActionNames) where
  unfoldable pub texts : Request → List Text
  texts health = names.as_ref ServerAction.health ∷ []
  texts list = names.as_ref ServerAction.list_transactions ∷ []
  texts balance = names.as_ref ServerAction.get_balance ∷ []
  texts close = names.as_ref ServerAction.close ∷ []
  texts (get m) = names.as_ref ServerAction.get_transaction ∷ m ∷ []
  texts (create m) = names.as_ref ServerAction.create_transaction ∷ m ∷ []
  texts (void m) = names.as_ref ServerAction.void_transaction ∷ m ∷ []
  texts (unknown m) = m ∷ []

  -- The client's own text is plain, and an unknown message is no action's name.
  unfoldable pub IsRequest : Request → Type 0
  IsRequest health = Unit
  IsRequest list = Unit
  IsRequest balance = Unit
  IsRequest close = Unit
  IsRequest (get m) = IsPlain m
  IsRequest (create m) = IsPlain m
  IsRequest (void m) = IsPlain m
  IsRequest (unknown m) = IsPlain m × (names.from_str m ≡ none)

module _ {D : Type 0} (p : Platform D) where
  abbrev pub response : Option Ended → List Text → Bank D → Response D
  response ended replies b = record { ended = ended; replies = replies; bank = b }

  -- The replies after a call of the bank: a reply to a value, none to an error, and a panic ends
  -- the task.
  abbrev pub after_call :
      {A : Type 0} → Text → (A → Text) → Outcome Bank.Error A × Bank D → Response D
  after_call prompt show (ok a, b) = response none (prompt ∷ show a ∷ []) b
  after_call prompt show (err e, b) = response none (prompt ∷ []) b
  after_call prompt show (panic, b) = response (some crashed) (prompt ∷ []) b

  -- An answer that cannot be parsed is not replied to.
  abbrev pub after_answer :
      {A B : Type 0}
      → Text
      → (B → Text)
      → (A → Bank.BankAction D B)
      → Option A
      → Bank D
      → Response D
  after_answer prompt show call none b = response none (prompt ∷ []) b
  after_answer prompt show call (some a) b = after_call prompt show (call a b)

  unfoldable pub respond : Request → Bank D → Response D
  respond health b = response none (codes "healthy" ∷ []) b
  respond list b =
      response none (join (b'\n' ∷ []) (map (show_transaction p) b.transactions) ∷ []) b
  respond balance b = response none ((b'$' ∷ p.show_amount b.balance) ∷ []) b
  respond close b = response (some closed) [] b
  respond (unknown m) b = response none [] b
  respond (get m) b =
      after_answer id_prompt (shown_or_not_found p) Bank.get_transaction (parse_i32 m) b
  respond (create m) b =
      after_answer amount_prompt (show_transaction p) (Bank.create_transaction p) (p.parse_amount m)
        b
  respond (void m) b =
      after_answer id_prompt (shown_or_not_found p) (Bank.void_transaction p) (parse_i32 m) b

  -- A series of requests, up to one that ends the task.
  abbrev pub and_then : Response D → (Bank D → Response D) → Response D
  and_then s k = elim s.ended [
    | some e ↦ s
    | none ↦ let s' = k s.bank in record s' { replies = s.replies ++ s'.replies }
  ]

  unfoldable pub respond_all : List Request → Bank D → Response D
  respond_all [] b = response none [] b
  respond_all (q ∷ qs) b = and_then (respond q b) (respond_all qs)
