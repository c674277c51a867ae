-- ===== src/Terminal/Tasks.antt =====
-- `main` of `tcp_client/src/main.rs`: the thread that reads lines, the task that writes them, the
-- task that prints what comes, and the awaits of `main`, which run side by side. A schedule is the
-- list of turns that they take; what is typed, how writes end and what comes from the network are
-- chosen beforehand. The token, the channel and the line editor are libraries'.
use dst_demo.Prelude.{Bool, true, false, Option, none, some, List, [], ◌∷◌, ◌++◌}
use dst_demo.Text.{Text}
use dst_demo.Outcome.{Sink}
use dst_demo.Framing.{Reader, Read, ReadResult}
use dst_demo.Simulator.Reply.{read_line}
use dst_demo.Terminal.{send}

-- What `rl.readline("")` gives.
pub data Readline : Type 0 where
  line : Text → Readline
  interrupted end_of_file failed : Readline

-- The thread that reads lines: it holds the sender of the channel as long as it is reading.
pub data Typing : Type 0 where
  reading ended crashed : Typing

-- The task that writes: it holds the receiver as long as it is running.
pub data Writing : Type 0 where
  running finished failed : Writing

-- The task that prints; `cancelled` is the `None` of `run_until_cancelled`.
pub data Printing : Type 0 where
  running finished failed crashed cancelled : Printing

pub record Client : Type 0 where
  pub input : List Readline
  pub typing : Typing
  pub channel : List Text
  pub writing : Writing
  pub writer : Sink
  pub printing : Printing
  pub message : Text
  pub reader : Reader
  pub printed : List Text
  pub cancelled : Bool

-- `tx.send(message).unwrap()`: without the receiver it panics, and the thread is gone with its
-- sender.
abbrev pub sends : Text → Writing → Client → Client
sends m running c = record c { channel = c.channel ++ m ∷ [] }
sends m _ c = record c { typing = crashed }

-- `break`, and `CANCELLATION_TOKEN.cancel()` behind the loop.
abbrev pub leaves : Client → Client
leaves c = record c { typing = ended; cancelled = true }

abbrev pub typed : List Readline → Client → Client
typed [] c = c
typed (line m ∷ input) c = sends m c.writing (record c { input = input })
typed (interrupted ∷ input) c = leaves (record c { input = input })
typed (end_of_file ∷ input) c = leaves (record c { input = input })
typed (Readline.failed ∷ input) c = leaves (record c { input = input })

-- A round of the thread's loop, when there is input; a thread that has ended takes no part.
unfoldable pub type_next : Typing → Client → Client
type_next reading c = typed c.input c
type_next ended c = c
type_next crashed c = c

-- A failed write ends the task; what was in the channel goes with the receiver.
abbrev pub wrote : Bool × Sink → Client → Client
wrote (true, writer) c = record c { writer = writer }
wrote (false, writer) c = record c { writer = writer; writing = Writing.failed; channel = [] }

-- `rx.recv()`: a message, `None` when the sender is gone, or a wait for more.
abbrev pub received : List Text → Typing → Client → Client
received (m ∷ ms) _ c = wrote (send m c.writer) (record c { channel = ms })
received [] reading c = c
received [] _ c = record c { writing = Writing.finished }

-- A round of the `while let` of the writing task.
unfoldable pub write_next : Writing → Client → Client
write_next Writing.running c = received c.channel c.typing c
write_next Writing.finished c = c
write_next Writing.failed c = c

abbrev pub shown : ReadResult → Client → Client
shown (Read.message m, message, r) c = record c {
  message = message;
  reader = r;
  printed = c.printed ++ m ∷ [];
}
shown (Read.closed, message, r) c = record c {
  message = message;
  reader = r;
  printing = Printing.finished;
}
shown (Read.invalid, message, r) c = record c {
  message = message;
  reader = r;
  printing = Printing.failed;
}
shown (Read.panicked, message, r) c = record c {
  message = message;
  reader = r;
  printing = Printing.crashed;
}

-- A round of the `loop` of the printing task.
unfoldable pub print_next : Printing → Client → Client
print_next Printing.running c = shown (read_line c.message c.reader) c
print_next Printing.finished c = c
print_next Printing.failed c = c
print_next Printing.crashed c = c
print_next Printing.cancelled c = c

-- `run_until_cancelled` drops the printing task once the token is cancelled.
unfoldable pub stop : Bool → Printing → Client → Client
stop true Printing.running c = record c { printing = Printing.cancelled }
stop true _ c = c
stop false _ c = c

pub data Turn : Type 0 where
  types writes prints stops : Turn
  -- Ctrl-C outside the line editor: the signal handler cancels the token.
  signal : Turn

unfoldable pub turn : Turn → Client → Client
turn types c = type_next c.typing c
turn writes c = write_next c.writing c
turn prints c = print_next c.printing c
turn stops c = stop c.cancelled c.printing c
turn signal c = record c { cancelled = true }

-- Turns one after the other.
unfoldable pub run : List Turn → Client → Client
run [] c = c
run (t ∷ ts) c = run ts (turn t c)

-- `main` as it begins to wait.
abbrev pub connected : List Readline → Sink → Reader → Client
connected input writer r = record {
  input = input;
  typing = reading;
  channel = [];
  writing = running;
  writer = writer;
  printing = running;
  message = [];
  reader = r;
  printed = [];
  cancelled = false;
}

-- `Ok(())`, an `Error`, or a panic.
pub data Exit : Type 0 where
  ok error panic : Exit

-- `read_line_handle.join().unwrap()`
abbrev pub joined : Typing → Option Exit
joined reading = none
joined ended = some ok
joined crashed = some panic

-- `writer_handle.await??`
abbrev pub awaited : Writing → Typing → Option Exit
awaited running typing = none
awaited finished typing = joined typing
awaited failed typing = some error

-- What `main` has come to: its three awaits, in their order; `none` while it waits.
abbrev pub main_result : Printing → Writing → Typing → Option Exit
main_result running writing typing = none
main_result failed writing typing = some error
main_result crashed writing typing = some panic
main_result finished writing typing = awaited writing typing
main_result cancelled writing typing = awaited writing typing

unfoldable pub exit : Client → Option Exit
exit c = main_result c.printing c.writing c.typing
