-- ===== src/Terminal/Shown.antt =====
-- What the terminal client prints: the printing task of `tcp_client/src/main.rs` beside the others.
use dst_demo.Prelude.{
  ◌≡◌, refl, sym, ◌∙◌, Bool, true, false, List, [], ◌∷◌, ◌++◌, All, append_assoc, append-nil,
}
use mathlib.Core.Path.{subst}
use dst_demo.Text.{Text}
use dst_demo.Text.Utf8.RoundTrip.{IsAscii}
use dst_demo.Outcome.{Sink}
use dst_demo.Framing.{Reader}
use dst_demo.Framing.Chunks.{NulFree, stream}
use dst_demo.Framing.Messages.{IsPlain, frames, ReadsAll, frames-ReadsAll, read_message_waits}
use dst_demo.Terminal.{read_line-read_message, send}
use dst_demo.Terminal.Tasks.{
  Readline, line, interrupted, end_of_file, Typing, reading, ended, crashed, Writing, running,
  finished, failed, Client, type_next, write_next, print_next, stop, shown, Printing, Turn, types,
  writes, prints, stops, signal, turn, run, connected, wrote,
}

-- What the task has printed, and what it may still print of the messages of the server; a task that
-- has seen the end of the stream has printed all of them.
abbrev pub Prints : List Text → Text → Printing → Text → Reader → List Text → Type 0
Prints replies rest Printing.running message r printed =
    (todo : List Text) × (printed ++ todo ≡ replies) × ReadsAll todo message r rest
Prints replies rest Printing.finished message r printed = printed ≡ replies
Prints replies rest Printing.cancelled message r printed =
    (todo : List Text) × (printed ++ todo ≡ replies)
Prints replies rest Printing.failed message r printed = ⊥
Prints replies rest Printing.crashed message r printed = ⊥

abbrev pub IsShown : List Text → Text → Client → Type 0
IsShown replies rest c = Prints replies rest c.printing c.message c.reader c.printed

module _ (replies : List Text) (rest : Text) (free : NulFree rest) (ascii : All IsAscii rest) where
  printed-IsShown :
      (todo : List Text) (c : Client)
      → c.printed ++ todo ≡ replies
      → ReadsAll todo c.message c.reader rest
      → IsShown replies rest (turn prints (record c { printing = Printing.running }))
  unfolding turn print_next
  printed-IsShown [] c split reads =
      let (r', closed) =
        read_message_waits c.message c.reader (subst NulFree (sym reads) free)
          (subst (All IsAscii) (sym reads) ascii) in
      subst (λ o. IsShown replies rest (shown o (record c { printing = Printing.running })))
        (sym (read_line-read_message c.message c.reader ∙ closed))
        (sym (append-nil c.printed) ∙ split)
  printed-IsShown (m ∷ todo) c split (buffer', r', e, reads) =
      subst (λ o. IsShown replies rest (shown o (record c { printing = Printing.running })))
        (sym (read_line-read_message c.message c.reader ∙ e))
        (todo, append_assoc c.printed (m ∷ []) todo ∙ split, reads)

  prints-IsShown :
      (p : Printing) (c : Client)
      → Prints replies rest p c.message c.reader c.printed
      → IsShown replies rest (turn prints (record c { printing = p }))
  unfolding turn print_next
  prints-IsShown Printing.running c (todo, split, reads) = printed-IsShown todo c split reads
  prints-IsShown Printing.finished c h = h
  prints-IsShown Printing.cancelled c h = h
  prints-IsShown Printing.failed c h = absurd h
  prints-IsShown Printing.crashed c h = absurd h

  stops-IsShown :
      (cancelled : Bool) (p : Printing) (c : Client)
      → Prints replies rest p c.message c.reader c.printed
      → IsShown replies rest (stop cancelled p (record c { printing = p }))
  unfolding stop
  stops-IsShown true Printing.running c (todo, split, reads) = (todo, split)
  stops-IsShown true Printing.finished c h = h
  stops-IsShown true Printing.cancelled c h = h
  stops-IsShown true Printing.failed c h = absurd h
  stops-IsShown true Printing.crashed c h = absurd h
  stops-IsShown false p c h = h

  types-IsShown :
      (w : Writing) (t : Typing) (input : List Readline) (c : Client)
      → IsShown replies rest c
      → IsShown replies rest (turn types (record c { writing = w; typing = t; input = input }))
  unfolding turn type_next
  types-IsShown w reading [] c h = h
  types-IsShown running reading (line m ∷ input) c h = h
  types-IsShown finished reading (line m ∷ input) c h = h
  types-IsShown failed reading (line m ∷ input) c h = h
  types-IsShown w reading (interrupted ∷ input) c h = h
  types-IsShown w reading (end_of_file ∷ input) c h = h
  types-IsShown w reading (Readline.failed ∷ input) c h = h
  types-IsShown w ended input c h = h
  types-IsShown w crashed input c h = h

  wrote-IsShown :
      (r : Bool × Sink) (c : Client) → IsShown replies rest c → IsShown replies rest (wrote r c)
  wrote-IsShown (true, s) c h = h
  wrote-IsShown (false, s) c h = h

  writes-IsShown :
      (w : Writing) (t : Typing) (channel : List Text) (c : Client)
      → IsShown replies rest c
      → IsShown replies rest (turn writes (record c { writing = w; typing = t; channel = channel }))
  unfolding turn write_next
  writes-IsShown running t (m ∷ ms) c h =
      wrote-IsShown (send m c.writer) (record c { writing = running; typing = t; channel = ms }) h
  writes-IsShown running reading [] c h = h
  writes-IsShown running ended [] c h = h
  writes-IsShown running crashed [] c h = h
  writes-IsShown finished t channel c h = h
  writes-IsShown failed t channel c h = h

  turn-IsShown : (t : Turn) (c : Client) → IsShown replies rest c → IsShown replies rest (turn t c)
  unfolding turn
  turn-IsShown types c h = types-IsShown c.writing c.typing c.input c h
  turn-IsShown writes c h = writes-IsShown c.writing c.typing c.channel c h
  turn-IsShown prints c h = prints-IsShown c.printing c h
  turn-IsShown stops c h = stops-IsShown c.cancelled c.printing c h
  turn-IsShown signal c h = h

  pub run-IsShown :
      (ts : List Turn) (c : Client) → IsShown replies rest c → IsShown replies rest (run ts c)
  unfolding run
  run-IsShown [] c h = h
  run-IsShown (t ∷ ts) c h = run-IsShown ts (turn t c) (turn-IsShown t c h)

  -- Before the first turn.
  pub connected-IsShown :
      (input : List Readline) (writer : Sink) (r : Reader)
      → All IsPlain replies
      → stream r ≡ frames replies ++ rest
      → IsShown replies rest (connected input writer r)
  connected-IsShown input writer r plain arrives =
      (replies, refl, frames-ReadsAll replies [] r rest plain ascii arrives)
