-- ===== src/Server/Task.antt =====
-- What a client's task works on, and its calls of the bank and of the stream.
use dst_demo.Prelude.{Bool, Option, none, some, if◌then◌else◌}
use dst_demo.Text.{Text}
use dst_demo.Outcome.{Outcome, ok, err, panic, Action, Sink, write_all}
use dst_demo.Framing.{Reader, Read, message, closed, invalid, panicked, read_message, frame}
use dst_demo.Bank
use dst_demo.Bank.{Bank, BankAction}

-- The variants of `Error`.
pub data Error : Type 0 where
  async io from_utf8 parse tcp decimal parse_int : Error
  bank : Bank.Error → Error

pub record World (D : Type 0) : Type 0 where
  pub bank : Bank D
  -- the task's `message` buffer, `read` and `write`
  pub message : Text
  pub reader : Reader
  pub writer : Sink
  -- whether `SERVER_CANCELLATION_TOKEN` was cancelled
  pub cancelled : Bool

abbrev pub TaskAction : Type 0 → Type 0 → Type 0
TaskAction D A = Action (World D) Error A

abbrev pub from_bank : {A : Type 0} → Outcome Bank.Error A → Outcome Error A
from_bank (ok a) = ok a
from_bank (err e) = err (Error.bank e)
from_bank panic = panic

abbrev pub read_outcome : Read → Outcome Error (Option Text)
read_outcome (message m) = ok (some m)
read_outcome closed = ok none
read_outcome invalid = err from_utf8
read_outcome panicked = panic

module _ {D : Type 0} where
  -- A call of the bank, with `?` on its error.
  unfoldable pub on_bank : {A : Type 0} → BankAction D A → TaskAction D A
  on_bank m w = let (r, b) = m w.bank in (from_bank r, record w { bank = b })

  -- `read_message(message, reader).await?`
  unfoldable pub read : TaskAction D (Option Text)
  read w =
      let (r, buffer, reader) = read_message w.message w.reader in
      (read_outcome r, record w { message = buffer; reader = reader })

  -- `write_message(message, writer).await?`
  unfoldable pub write : Text → TaskAction D (Unit {0})
  write m w =
      let (done, writer) = write_all (frame m) w.writer in
      (if done then ok tt else err io, record w { writer = writer })
