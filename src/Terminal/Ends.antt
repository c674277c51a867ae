-- ===== src/Terminal/Ends.antt =====
-- The end of the terminal client: `main` of `tcp_client/src/main.rs` returns.
use dst_demo.Prelude.{
  ℕ, suc, ◌<◌, ◌≡◌, ◌⊎◌, inl, inr, arith, refl, sym, ◌∙◌, ap, Bool, true, false, some, List, [],
  ◌∷◌, ◌++◌, All, length, append-nil,
}
use mathlib.Core.Path.{subst}
use dst_demo.Text.{Text}
use dst_demo.Text.Utf8.RoundTrip.{IsAscii}
use dst_demo.Outcome.{Sink}
use dst_demo.Framing.{Reader, Read, ReadResult}
use dst_demo.Framing.Chunks.{NulFree, stream}
use dst_demo.Framing.Messages.{IsPlain, frames}
use dst_demo.Simulator.Reply.{read_line}
use dst_demo.Terminal.Tasks.{
  Readline, Typing, reading, ended, crashed, Writing, running, finished, failed, Client, type_next,
  write_next, print_next, stop, shown, Printing, Turn, types, writes, prints, stops, signal, turn,
  run, connected, wrote, ok, exit,
}
use dst_demo.Terminal.Session.{lines, exit-sent}
use dst_demo.Terminal.Steady.{Runs, IsSteady, send-steady, turn-IsSteady, run-IsSteady}
use dst_demo.Terminal.Shown.{Prints, run-IsShown, connected-IsShown}

-- Turns of a kind in a schedule.
unfoldable pub writes_in : List Turn → ℕ
writes_in [] = 0
writes_in (writes ∷ ts) = suc (writes_in ts)
writes_in (_ ∷ ts) = writes_in ts

unfoldable pub HasStops : List Turn → Type 0
HasStops [] = ⊥
HasStops (stops ∷ ts) = Unit
HasStops (_ ∷ ts) = HasStops ts

abbrev IsOver : Printing → Type 0
IsOver Printing.running = ⊥
IsOver Printing.finished = Unit
IsOver Printing.failed = Unit
IsOver Printing.crashed = Unit
IsOver Printing.cancelled = Unit

-- After the end of the input, the writing task needs a turn for each message that waits in the
-- channel, and one more; `n` is the number of its turns.
abbrev Drains : ℕ → Typing → Writing → List Text → Type 0
Drains n ended running ms = length ms < n
Drains n ended finished ms = Unit
Drains n ended failed ms = ⊥
Drains n reading w ms = ⊥
Drains n crashed w ms = ⊥

abbrev IsEnding : List Turn → Client → Type 0
IsEnding us c =
    (IsOver c.printing ⊎ HasStops us) × Drains (writes_in us) c.typing c.writing c.channel

types-IsEnding :
    (us : List Turn) (t : Typing) (c : Client)
    → IsOver c.printing ⊎ HasStops us
    → Drains (writes_in us) t c.writing c.channel
    → IsEnding us (turn types (record c { typing = t }))
unfolding turn type_next
types-IsEnding us ended c over h = (over, h)
types-IsEnding us reading c over h = absurd h
types-IsEnding us crashed c over h = absurd h

writes-IsEnding :
    (us : List Turn) (t : Typing) (w : Writing) (channel : List Text) (c : Client)
    → c.writer.fates ≡ []
    → IsOver c.printing ⊎ HasStops us
    → Drains (suc (writes_in us)) t w channel
    → IsEnding us (turn writes (record c { typing = t; writing = w; channel = channel }))
unfolding turn write_next
writes-IsEnding us ended running [] c e over h = (over, tt)
writes-IsEnding us ended running (m ∷ ms) c e over h =
    let next : Client = record c { typing = ended; writing = running; channel = ms } in
    subst (λ r. IsEnding us (wrote r next)) (sym (send-steady m c.writer e)) (over, omega arith)
writes-IsEnding us ended finished channel c e over h = (over, h)
writes-IsEnding us ended failed channel c e over h = absurd h
writes-IsEnding us reading w channel c e over h = absurd h
writes-IsEnding us crashed w channel c e over h = absurd h

shown-IsEnding :
    (us : List Turn) (r : ReadResult) (c : Client)
    → HasStops us
    → Drains (writes_in us) c.typing c.writing c.channel
    → IsEnding us (shown r c)
shown-IsEnding us (Read.message m, _, r) c over h = (inr over, h)
shown-IsEnding us (Read.closed, _, r) c over h = (inr over, h)
shown-IsEnding us (Read.invalid, _, r) c over h = (inr over, h)
shown-IsEnding us (Read.panicked, _, r) c over h = (inr over, h)

prints-IsEnding :
    (us : List Turn) (p : Printing) (c : Client)
    → IsOver p ⊎ HasStops us
    → Drains (writes_in us) c.typing c.writing c.channel
    → IsEnding us (turn prints (record c { printing = p }))
unfolding turn print_next
prints-IsEnding us Printing.running c (inl over) h = absurd over
prints-IsEnding us Printing.running c (inr stopped) h =
    shown-IsEnding us (read_line c.message c.reader) (record c { printing = Printing.running })
      stopped h
prints-IsEnding us Printing.finished c over h = (over, h)
prints-IsEnding us Printing.failed c over h = (over, h)
prints-IsEnding us Printing.crashed c over h = (over, h)
prints-IsEnding us Printing.cancelled c over h = (over, h)

-- Once the input has ended the token is cancelled, so that a turn stops the printing task.
stops-IsEnding :
    (us : List Turn) (t : Typing) (w : Writing) (b : Bool) (p : Printing) (c : Client)
    → Runs w t b
    → Drains (writes_in us) t w c.channel
    → IsEnding us (stop b p (record c { typing = t; writing = w; cancelled = b; printing = p }))
unfolding stop
stops-IsEnding us ended w true Printing.running c runs h = (inl tt, h)
stops-IsEnding us ended w true Printing.finished c runs h = (inl tt, h)
stops-IsEnding us ended w true Printing.failed c runs h = (inl tt, h)
stops-IsEnding us ended w true Printing.crashed c runs h = (inl tt, h)
stops-IsEnding us ended w true Printing.cancelled c runs h = (inl tt, h)
stops-IsEnding us ended running false p c runs h = absurd runs
stops-IsEnding us ended finished false p c runs h = absurd runs
stops-IsEnding us ended failed false p c runs h = absurd runs
stops-IsEnding us reading w b p c runs h = absurd h
stops-IsEnding us crashed w b p c runs h = absurd h

turn-IsEnding :
    (u : Turn) (us : List Turn) (c : Client)
    → IsSteady c
    → IsEnding (u ∷ us) c
    → IsEnding us (turn u c)
unfolding turn writes_in HasStops
turn-IsEnding types us c s (over, h) = types-IsEnding us c.typing c over h
turn-IsEnding writes us c s (over, h) = writes-IsEnding us c.typing c.writing c.channel c s.0 over h
turn-IsEnding prints us c s (over, h) = prints-IsEnding us c.printing c over h
turn-IsEnding stops us c s (over, h) =
    stops-IsEnding us c.typing c.writing c.cancelled c.printing c s.1 h
turn-IsEnding signal us c s (over, h) = (over, h)

run-IsEnding : (us : List Turn) (c : Client) → IsSteady c → IsEnding us c → IsEnding [] (run us c)
unfolding run
run-IsEnding [] c s h = h
run-IsEnding (u ∷ us) c s h =
    run-IsEnding us (turn u c) (turn-IsSteady u c s) (turn-IsEnding u us c s h)

-- At the end of such a schedule nothing is left to wait for.
done-ok :
    (replies : List Text) (rest : Text) (p : Printing) (w : Writing) (t : Typing) (c : Client)
    → IsOver p ⊎ ⊥
    → Drains 0 t w c.channel
    → Prints replies rest p c.message c.reader c.printed
    → (exit (record c { printing = p; writing = w; typing = t }) ≡ some ok)
      × ((todo : List Text) × (c.printed ++ todo ≡ replies))
unfolding exit
done-ok replies rest p running ended c over h shows = absurd (omega arith)
done-ok replies rest p failed ended c over h shows = absurd h
done-ok replies rest p w reading c over h shows = absurd h
done-ok replies rest p w crashed c over h shows = absurd h
done-ok replies rest Printing.running finished ended c (inl over) h shows = absurd over
done-ok replies rest Printing.running finished ended c (inr over) h shows = absurd over
done-ok replies rest Printing.finished finished ended c over h shows =
    (refl, ([], append-nil c.printed ∙ shows))
done-ok replies rest Printing.cancelled finished ended c over h shows = (refl, shows)
done-ok replies rest Printing.failed finished ended c over h shows = absurd shows
done-ok replies rest Printing.crashed finished ended c over h shows = absurd shows

ended-Drains :
    (n : ℕ) (w : Writing) (t : Typing) (b : Bool) (ms : List Text)
    → Runs w t b
    → t ≡ ended
    → length ms < n
    → Drains n t w ms
ended-Drains n running ended b ms runs e h = h
ended-Drains n finished ended b ms runs e h = tt
ended-Drains n failed t b ms runs e h = absurd runs
ended-Drains n w reading b ms runs e h = absurd (ground arith)
ended-Drains n w crashed b ms runs e h = absurd (ground arith)

run-append : (ts us : List Turn) (c : Client) → run us (run ts c) ≡ run (ts ++ us) c
unfolding run
run-append [] us c = refl
run-append (t ∷ ts) us c = run-append ts us (turn t c)

-- If no write fails and the server sends messages of ASCII without NUL, in any chunks, and perhaps
-- a part of a further one: once the input has ended, and then, among any other turns, the printing
-- task is stopped and the writing task has had a turn for each line that still waits and one more,
-- `main` has returned `Ok`; every line typed before the end has been sent, in order and nothing
-- else, and what has been printed are the first messages of the server, each whole and in order.
pub exit-ok :
    (ts us : List Turn) (input : List Readline) (writer : Sink) (r : Reader) (replies : List Text)
    (rest : Text)
    → writer.fates ≡ []
    → All IsPlain replies
    → NulFree rest
    → All IsAscii rest
    → stream r ≡ frames replies ++ rest
    → (run ts (connected input writer r)).typing ≡ ended
    → HasStops us
    → length (run ts (connected input writer r)).channel < writes_in us
    → (exit (run (ts ++ us) (connected input writer r)) ≡ some ok)
      × ((run (ts ++ us) (connected input writer r)).writer.content
          ≡ writer.content ++ frames (lines input))
      × ((todo : List Text) × ((run (ts ++ us) (connected input writer r)).printed ++ todo
            ≡ replies))
unfolding HasStops writes_in
exit-ok ts us input writer r replies rest steady plain free ascii arrives at_end stopped enough =
    let start = connected input writer r in
    let c = run ts start in
    let steady' = run-IsSteady ts start (steady, tt) in
    let drains =
      ended-Drains (writes_in us) c.writing c.typing c.cancelled c.channel steady'.1 at_end
        enough in
    let (over, left) = run-IsEnding us c steady' (inr stopped, drains) in
    let c' = run us c in
    let shows = run-IsShown replies rest free ascii us c (
      run-IsShown replies rest free ascii ts start
        (connected-IsShown replies rest free ascii input writer r plain arrives)) in
    let (done, printed) =
      done-ok replies rest c'.printing c'.writing c'.typing c' over left shows in
    let returned = ap exit (sym (run-append ts us start)) ∙ done in
    (
      returned,
      (exit-sent (ts ++ us) input writer r returned).0,
      subst (λ (k : Client). (todo : List Text) × (k.printed ++ todo ≡ replies))
          (run-append ts us start) printed,
    )
