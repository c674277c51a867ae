-- ===== src/Simulator/Connection.antt =====
-- A client's connections: `TcpStream` as the simulator's clients use it, and the loops of
-- `client/banker/mod.rs` and `client/health_checker/mod.rs` that connect until a call has
-- succeeded. How each attempt to connect ends is chosen beforehand; where the attempts end, the
-- client still tries, up to the time limit around the loop.
pub mod Groups
pub mod Lost
use dst_demo.Prelude.{ℕ, suc, ◌≡◌, ◌⊎◌, Bool, List, [], ◌∷◌, ◌++◌, All, if◌then◌else◌}
use dst_demo.Text.{Text, Bytes}
use dst_demo.Text.Utf8.RoundTrip.{IsAscii}
use dst_demo.Outcome.{Outcome, ok, err, panic, Action, Sink, Fate, broken, write_all}
use dst_demo.Framing.{Reader, ReadResult, Read, frame}
use dst_demo.Framing.Chunks.{NulFree, stream}
use dst_demo.Simulator.Reply.{read_fresh}

-- `TcpStream`: what its reads will give, and what is written to it.
pub record TcpStream : Type 0 where
  pub reader : Reader
  pub writer : Sink

-- `return false` is the error, and `true` at the end is a value.
abbrev pub ClientAction : Type 0 → Type 0
ClientAction A = Action TcpStream (Unit {0}) A

abbrev pub sent : Bool × Sink → ClientAction (Unit {0})
sent (done, writer) stream = (if done then ok tt else err tt, record stream { writer = writer })

unfoldable pub send_message : Text → ClientAction (Unit {0})
send_message message stream = sent (write_all (frame message) stream.writer) stream

-- A reply: `Err` and `None` are both `return false`.
abbrev pub received : ReadResult → ClientAction Text
received (Read.message m, _, r) stream = (ok m, record stream { reader = r })
received (Read.closed, _, r) stream = (err tt, record stream { reader = r })
received (Read.invalid, _, r) stream = (err tt, record stream { reader = r })
received (Read.panicked, _, r) stream = (panic, record stream { reader = r })

unfoldable pub receive : ClientAction Text
receive stream = received (read_fresh stream.reader) stream

pub data Attempt : Type 0 where
  refused : Attempt
  connected : TcpStream → Attempt

pub data Progress : Type 0 where
  finished crashed trying : Progress

-- How far the loop has come, and the connections that it has used.
abbrev pub Performed : Type 0
Performed = Progress × List TcpStream

-- `break`, an assertion's panic, and `continue`.
abbrev pub tried : Outcome (Unit {0}) (Unit {0}) × TcpStream → Performed → Performed
tried (ok _, s) rest = (finished, s ∷ [])
tried (panic, s) rest = (crashed, s ∷ [])
tried (err _, s) (progress, streams) = (progress, s ∷ streams)

-- The loop around a call; a connection has a local address.
unfoldable pub attempt : ClientAction (Unit {0}) → List Attempt → Performed
attempt call [] = (trying, [])
attempt call (refused ∷ attempts) = attempt call attempts
attempt call (connected s ∷ attempts) = tried (call s) (attempt call attempts)

-- An attempt that comes to nothing: no connection, a first write that fails, or a stream that ends
-- before a message is whole.
abbrev pub IsLost : Attempt → Type 0
IsLost refused = Unit
IsLost (connected s) =
    ((n : ℕ) × (later : List Fate) × (s.writer.fates ≡ broken n ∷ later))
    ⊎ ((s.writer.fates ≡ []) × NulFree (stream s.reader) × All IsAscii (stream s.reader))

-- The connections that were made.
abbrev pub connections : List Attempt → ℕ
connections [] = 0
connections (refused ∷ attempts) = connections attempts
connections (connected s ∷ attempts) = suc (connections attempts)

-- A stream whose writes succeed.
abbrev pub open_stream : Reader → Bytes → TcpStream
open_stream r written = record { reader = r; writer = record { content = written; fates = [] } }
