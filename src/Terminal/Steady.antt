-- ===== src/Terminal/Steady.antt =====
-- The terminal client as long as no write fails: `main` of `tcp_client/src/main.rs`.
use dst_demo.Prelude.{◌≡◌, refl, sym, ap, Bool, true, false, List, [], ◌∷◌, ◌++◌}
use mathlib.Core.Path.{subst}
use dst_demo.Text.{Text}
use dst_demo.Text.Utf8.{into_bytes}
use dst_demo.Outcome.{Sink}
use dst_demo.Framing.{Read, ReadResult}
use dst_demo.Simulator.Reply.{read_line}
use dst_demo.Terminal.{send}
use dst_demo.Terminal.Tasks.{
  Readline, line, interrupted, end_of_file, Typing, reading, ended, crashed, Writing, running,
  finished, failed, Client, type_next, write_next, print_next, stop, shown, Printing, Turn, types,
  writes, prints, stops, signal, turn, run, wrote,
}

-- No write has failed, the thread has not panicked, and where it has ended the token is cancelled.
abbrev pub Runs : Writing → Typing → Bool → Type 0
Runs running reading _ = Unit
Runs running ended true = Unit
Runs running ended false = ⊥
Runs running crashed _ = ⊥
Runs finished ended true = Unit
Runs finished ended false = ⊥
Runs finished reading _ = ⊥
Runs finished crashed _ = ⊥
Runs failed _ _ = ⊥

abbrev pub IsSteady : Client → Type 0
IsSteady c = (c.writer.fates ≡ []) × Runs c.writing c.typing c.cancelled

pub send-steady :
    (m : Text) (s : Sink)
    → s.fates ≡ []
    → send m s ≡ (true, record { content = (s.content ++ into_bytes m) ++ 0 ∷ []; fates = [] })
unfolding send
send-steady m s e = ap (λ f. send m (record s { fates = f })) e

types-IsSteady :
    (w : Writing) (t : Typing) (b : Bool) (input : List Readline) (c : Client)
    → c.writer.fates ≡ []
    → Runs w t b
    → IsSteady (turn types (record c { writing = w; typing = t; cancelled = b; input = input }))
unfolding turn type_next
types-IsSteady running reading b [] c e h = (e, tt)
types-IsSteady running reading b (line m ∷ input) c e h = (e, tt)
types-IsSteady running reading b (interrupted ∷ input) c e h = (e, tt)
types-IsSteady running reading b (end_of_file ∷ input) c e h = (e, tt)
types-IsSteady running reading b (Readline.failed ∷ input) c e h = (e, tt)
types-IsSteady finished reading b input c e h = absurd h
types-IsSteady failed reading b input c e h = absurd h
types-IsSteady w ended b input c e h = (e, h)
types-IsSteady w crashed b input c e h = (e, h)

writes-IsSteady :
    (w : Writing) (t : Typing) (b : Bool) (channel : List Text) (c : Client)
    → c.writer.fates ≡ []
    → Runs w t b
    → IsSteady
        (turn writes (record c { writing = w; typing = t; cancelled = b; channel = channel }))
unfolding turn write_next
writes-IsSteady running t b (m ∷ ms) c e h =
    let next : Client = record c { writing = running; typing = t; cancelled = b; channel = ms } in
    subst (λ r. IsSteady (wrote r next)) (sym (send-steady m c.writer e)) (refl, h)
writes-IsSteady running reading b [] c e h = (e, h)
writes-IsSteady running ended true [] c e h = (e, h)
writes-IsSteady running ended false [] c e h = absurd h
writes-IsSteady running crashed b [] c e h = absurd h
writes-IsSteady finished t b channel c e h = (e, h)
writes-IsSteady failed t b channel c e h = (e, h)

shown-IsSteady : (r : ReadResult) (c : Client) → IsSteady c → IsSteady (shown r c)
shown-IsSteady (Read.message m, _, r) c h = h
shown-IsSteady (Read.closed, _, r) c h = h
shown-IsSteady (Read.invalid, _, r) c h = h
shown-IsSteady (Read.panicked, _, r) c h = h

prints-IsSteady :
    (p : Printing) (c : Client) → IsSteady c → IsSteady (turn prints (record c { printing = p }))
unfolding turn print_next
prints-IsSteady Printing.running c h =
    shown-IsSteady (read_line c.message c.reader) (record c { printing = Printing.running }) h
prints-IsSteady Printing.finished c h = h
prints-IsSteady Printing.failed c h = h
prints-IsSteady Printing.crashed c h = h
prints-IsSteady Printing.cancelled c h = h

stops-IsSteady : (b : Bool) (p : Printing) (c : Client) → IsSteady c → IsSteady (stop b p c)
unfolding stop
stops-IsSteady true Printing.running c h = h
stops-IsSteady true Printing.finished c h = h
stops-IsSteady true Printing.failed c h = h
stops-IsSteady true Printing.crashed c h = h
stops-IsSteady true Printing.cancelled c h = h
stops-IsSteady false p c h = h

signal-Runs : (w : Writing) (t : Typing) (b : Bool) → Runs w t b → Runs w t true
signal-Runs running reading b h = tt
signal-Runs running ended true h = tt
signal-Runs running ended false h = absurd h
signal-Runs running crashed b h = absurd h
signal-Runs finished ended true h = tt
signal-Runs finished ended false h = absurd h
signal-Runs finished reading b h = absurd h
signal-Runs finished crashed b h = absurd h
signal-Runs failed t b h = absurd h

pub turn-IsSteady : (t : Turn) (c : Client) → IsSteady c → IsSteady (turn t c)
unfolding turn
turn-IsSteady types c (e, h) = types-IsSteady c.writing c.typing c.cancelled c.input c e h
turn-IsSteady writes c (e, h) = writes-IsSteady c.writing c.typing c.cancelled c.channel c e h
turn-IsSteady prints c h = prints-IsSteady c.printing c h
turn-IsSteady stops c h = stops-IsSteady c.cancelled c.printing c h
turn-IsSteady signal c (e, h) = (e, signal-Runs c.writing c.typing c.cancelled h)

pub run-IsSteady : (ts : List Turn) (c : Client) → IsSteady c → IsSteady (run ts c)
unfolding run
run-IsSteady [] c h = h
run-IsSteady (t ∷ ts) c h = run-IsSteady ts (turn t c) (turn-IsSteady t c h)
