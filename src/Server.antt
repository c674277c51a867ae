-- ===== src/Server.antt =====
-- The TCP server: `server/src/lib.rs`. One client's task, with its buffer of input, its stream and
-- the bank; the outer loop only accepts connections and starts such tasks.
pub mod Logger
pub mod Actions
pub mod Task
pub mod Handlers
pub mod Chains
pub mod Commands
pub mod Fuel
pub mod Replies
pub mod Requests
pub mod Answers
pub mod Rounds
pub mod Session
pub mod Clients
pub mod Run
pub mod Start
pub mod Restarts
mod Tests
use dst_demo.Prelude.{ℕ, zero, suc, true, Option, none, some}
use dst_demo.Text.{Text}
use dst_demo.Outcome.{Outcome, ok, err, panic}
use dst_demo.Platform.{Platform}
use dst_demo.Server.Actions.{ServerAction, close, exit, ActionNames}
use dst_demo.Server.Task.{World, Error, read}
use dst_demo.Server.Handlers.{handle}

-- How a task ends: the loop stops reading, `CLOSE`, `EXIT`, or a panic.
pub data Ended : Type 0 where
  dropped closed exited crashed : Ended

module _ {D : Type 0} (p : Platform D) (names : ActionNames) where
  -- The `match` on an action; no `Ended` where the loop goes on, also after an error of a handler.
  unfoldable pub perform : ServerAction → World D → Option Ended × World D
  perform close w = (some closed, w)
  perform exit w = (some exited, record w { cancelled = true })
  perform action w =
      let (r, w') = handle p action w in
      (elim r [ ok _ ↦ none | err _ ↦ none | panic ↦ some crashed ], w')

  abbrev pub obey : Option ServerAction → World D → Option Ended × World D
  obey none w = (none, w)
  obey (some action) w = perform action w

  abbrev pub received : Outcome Error (Option Text) × World D → Option Ended × World D
  received (ok none, w) = (some dropped, w)
  received (err _, w) = (some dropped, w)
  received (panic, w) = (some crashed, w)
  received (ok (some action), w) = obey (names.from_str action) w

  -- The condition and the body of the `while let`, once.
  unfoldable pub round : World D → Option Ended × World D
  round w = received (read w)

  -- The task of one client, with fuel for the rounds; `none` is a run that was cut off.
  unfoldable pub serve : ℕ → World D → Option Ended × World D
  serve zero w = (none, w)
  serve (suc fuel) w =
      let (e, w') = round w in elim e [ some e ↦ (some e, w') | none ↦ serve fuel w' ]
