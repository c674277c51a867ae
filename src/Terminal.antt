-- ===== src/Terminal.antt =====
-- The terminal client: `tcp_client/src/main.rs`. It prints the messages that the server sends, and
-- sends the lines that are typed. The terminal, the channel between its tasks and the signals are
-- libraries'.
pub mod Tasks
pub mod Session
pub mod Shown
pub mod Steady
pub mod Ends
pub mod Panicked
mod Tests
use dst_demo.Prelude.{
  ℕ, zero, suc, ◌<◌, ◌≡◌, refl, sym, ◌∙◌, ap, arith, Bool, true, false, Option, none, some, List,
  [], ◌∷◌, ◌++◌, All, All-append_left, length, append_assoc, append-nil,
}
use mathlib.Core.Path.{subst}
use dst_demo.Text.{Text, Bytes}
use dst_demo.Text.Utf8.{into_bytes}
use dst_demo.Text.Utf8.RoundTrip.{IsAscii}
use dst_demo.Outcome.{Sink, write_all}
use dst_demo.Framing.{
  Reader, Read, ReadResult, message, closed, invalid, panicked, read_message, frame,
}
use dst_demo.Framing.Chunks.{NulFree, stream}
use dst_demo.Framing.Messages.{IsPlain, frames, ReadsAll, frames-ReadsAll, read_message_waits}
use dst_demo.Simulator.Reply.{read_line}

-- How the reading task ends: `Ok`, an `Error`, or a panic.
pub data Finish : Type 0 where
  finished failed crashed : Finish

-- What has been printed, and how the task ended; `none` is a run that was cut off.
abbrev pub Printed : Type 0
Printed = List Text × Option Finish

abbrev pub println : Text → Printed → Printed
println response (lines, finish) = (response ∷ lines, finish)

abbrev pub handle : (Text → Reader → Printed) → ReadResult → Printed
handle again (message response, buffer, r) = println response (again buffer r)
handle again (closed, _, _) = ([], some finished)
handle again (invalid, _, _) = ([], some failed)
handle again (panicked, _, _) = ([], some crashed)

-- The `loop` of the reading task, with fuel for its rounds.
unfoldable pub print_all : ℕ → Text → Reader → Printed
print_all zero buffer r = ([], none)
print_all (suc fuel) buffer r = handle (print_all fuel) (read_line buffer r)

abbrev pub then_write : Bytes → Bool × Sink → Bool × Sink
then_write bytes (true, s) = write_all bytes s
then_write bytes (false, s) = (false, s)

-- The two `write_all`s of a message; `flush` does nothing on a socket.
unfoldable pub send : Text → Sink → Bool × Sink
send m s = then_write (0 ∷ []) (write_all (into_bytes m) s)

abbrev pub continue : (Sink → Bool × Sink) → Bool × Sink → Bool × Sink
continue rest (true, s) = rest s
continue rest (false, s) = (false, s)

-- The `while let` of the writing task, on the messages that come through the channel; whether it
-- ended with `Ok`.
unfoldable pub send_all : List Text → Sink → Bool × Sink
send_all [] s = (true, s)
send_all (m ∷ ms) s = continue (send_all ms) (send m s)

read_line-read_message : (buffer : Text) (r : Reader) → read_line buffer r ≡ read_message buffer r
unfolding read_line read_message
read_line-read_message buffer r = refl

print_all-ReadsAll :
    (ms : List Text) (fuel : ℕ) (buffer : Text) (r : Reader) (rest : Text)
    → NulFree rest
    → All IsAscii rest
    → ReadsAll ms buffer r rest
    → length ms < fuel
    → print_all fuel buffer r ≡ (ms, some finished)
unfolding print_all
print_all-ReadsAll ms zero buffer r rest free ascii reads h = absurd (omega arith)
print_all-ReadsAll [] (suc fuel) buffer r rest free ascii reads h =
    let (r', e) =
      read_message_waits buffer r (subst NulFree (sym reads) free)
        (subst (All IsAscii) (sym reads) ascii) in
    ap (handle (print_all fuel)) (read_line-read_message buffer r ∙ e)
print_all-ReadsAll (m ∷ ms) (suc fuel) buffer r rest free ascii (buffer', r', e, reads) h =
    ap (handle (print_all fuel)) (read_line-read_message buffer r ∙ e)
    ∙ ap (println m) (print_all-ReadsAll ms fuel buffer' r' rest free ascii reads (omega arith))

send_all-frames :
    (ms : List Text) (written : Bytes)
    → send_all ms (record { content = written; fates = [] })
      ≡ (true, record { content = written ++ frames ms; fates = [] })
unfolding send_all send frames frame
send_all-frames [] written =
    ap (λ c. (true, record { content = c; fates = [] })) (sym (append-nil written))
send_all-frames (m ∷ ms) written =
    send_all-frames ms ((written ++ into_bytes m) ++ 0 ∷ [])
    ∙ ap (λ c. (true, record { content = c; fates = [] })) (simp append_assoc)

-- If no write fails, the lines that are typed are sent as messages of the protocol, each one line,
-- in order. If the server sends messages of ASCII without NUL, in any chunks, before its stream
-- ends, perhaps inside a further one, then with fuel for more rounds than there are messages they
-- are printed, each whole, unchanged and in order, and the reading task finishes without an error.
pub terminal-relays :
    (typed replies : List Text) (fuel : ℕ) (sink : Sink) (r : Reader) (rest : Text)
    → sink.fates ≡ []
    → All IsPlain replies
    → NulFree rest
    → All IsAscii rest
    → stream r ≡ frames replies ++ rest
    → length replies < fuel
    → (send_all typed sink ≡ (true, record { content = sink.content ++ frames typed; fates = [] }))
      × (print_all fuel [] r ≡ (replies, some finished))
terminal-relays typed replies fuel sink r rest steady plain free ascii arrives enough = (
  ap (λ f. send_all typed (record sink { fates = f })) steady ∙ send_all-frames typed sink.content,
  print_all-ReadsAll replies fuel [] r rest free ascii
      (frames-ReadsAll replies [] r rest plain ascii arrives) enough,
)
