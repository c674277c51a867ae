-- ===== src/Terminal/Panicked.antt =====
-- The thread of the terminal client that panics: `main` of `tcp_client/src/main.rs`.
use dst_demo.Prelude.{◌≡◌, ◌≢◌, ◌⊎◌, inl, inr, refl, arith, Bool, true, false, none, List, [], ◌∷◌}
use dst_demo.Text.{Text}
use dst_demo.Framing.{Read, ReadResult}
use dst_demo.Simulator.Reply.{read_line}
use dst_demo.Terminal.Tasks.{
  Readline, line, Typing, reading, ended, crashed, Writing, running, finished, failed, Client,
  type_next, write_next, print_next, stop, shown, Printing, Turn, types, writes, prints, stops,
  signal, turn, run, exit,
}

-- No Ctrl-C outside the line editor.
unfoldable pub IsUnsignalled : List Turn → Type 0
IsUnsignalled [] = Unit
IsUnsignalled (signal ∷ ts) = ⊥
IsUnsignalled (_ ∷ ts) = IsUnsignalled ts

abbrev NotCancelled : Printing → Type 0
NotCancelled Printing.cancelled = ⊥
NotCancelled Printing.running = Unit
NotCancelled Printing.finished = Unit
NotCancelled Printing.failed = Unit
NotCancelled Printing.crashed = Unit

abbrev Panicked : Typing → Writing → Bool → Type 0
Panicked crashed failed false = Unit
Panicked crashed failed true = ⊥
Panicked crashed running b = ⊥
Panicked crashed finished b = ⊥
Panicked reading w b = ⊥
Panicked ended w b = ⊥

-- The thread has panicked, and nothing cancels the token.
abbrev IsLeft : Client → Type 0
IsLeft c = Panicked c.typing c.writing c.cancelled × NotCancelled c.printing

types-IsLeft :
    (t : Typing) (c : Client)
    → Panicked t c.writing c.cancelled
    → NotCancelled c.printing
    → IsLeft (turn types (record c { typing = t }))
unfolding turn type_next
types-IsLeft crashed c h p = (h, p)
types-IsLeft reading c h p = absurd h
types-IsLeft ended c h p = absurd h

writes-IsLeft :
    (t : Typing) (w : Writing) (c : Client)
    → Panicked t w c.cancelled
    → NotCancelled c.printing
    → IsLeft (turn writes (record c { typing = t; writing = w }))
unfolding turn write_next
writes-IsLeft crashed failed c h p = (h, p)
writes-IsLeft crashed running c h p = absurd h
writes-IsLeft crashed finished c h p = absurd h
writes-IsLeft reading w c h p = absurd h
writes-IsLeft ended w c h p = absurd h

shown-IsLeft : (r : ReadResult) (c : Client) → IsLeft c → IsLeft (shown r c)
shown-IsLeft (Read.message m, _, r) c h = h
shown-IsLeft (Read.closed, _, r) c h = (h.0, tt)
shown-IsLeft (Read.invalid, _, r) c h = (h.0, tt)
shown-IsLeft (Read.panicked, _, r) c h = (h.0, tt)

prints-IsLeft :
    (p : Printing) (c : Client)
    → Panicked c.typing c.writing c.cancelled
    → NotCancelled p
    → IsLeft (turn prints (record c { printing = p }))
unfolding turn print_next
prints-IsLeft Printing.running c h p =
    shown-IsLeft (read_line c.message c.reader) (record c { printing = Printing.running }) (h, p)
prints-IsLeft Printing.finished c h p = (h, p)
prints-IsLeft Printing.failed c h p = (h, p)
prints-IsLeft Printing.crashed c h p = (h, p)
prints-IsLeft Printing.cancelled c h p = absurd p

stops-IsLeft :
    (t : Typing) (w : Writing) (b : Bool) (c : Client)
    → Panicked t w b
    → NotCancelled c.printing
    → IsLeft (stop b c.printing (record c { typing = t; writing = w; cancelled = b }))
unfolding stop
stops-IsLeft t w false c h p = (h, p)
stops-IsLeft crashed failed true c h p = absurd h
stops-IsLeft crashed running true c h p = absurd h
stops-IsLeft crashed finished true c h p = absurd h
stops-IsLeft reading w true c h p = absurd h
stops-IsLeft ended w true c h p = absurd h

run-IsLeft : (ts : List Turn) (c : Client) → IsUnsignalled ts → IsLeft c → IsLeft (run ts c)
unfolding run turn IsUnsignalled
run-IsLeft [] c quiet h = h
run-IsLeft (types ∷ ts) c quiet h =
    run-IsLeft ts (turn types c) quiet (types-IsLeft c.typing c h.0 h.1)
run-IsLeft (writes ∷ ts) c quiet h =
    run-IsLeft ts (turn writes c) quiet (writes-IsLeft c.typing c.writing c h.0 h.1)
run-IsLeft (prints ∷ ts) c quiet h =
    run-IsLeft ts (turn prints c) quiet (prints-IsLeft c.printing c h.0 h.1)
run-IsLeft (stops ∷ ts) c quiet h =
    run-IsLeft ts (turn stops c) quiet (stops-IsLeft c.typing c.writing c.cancelled c h.0 h.1)
run-IsLeft (signal ∷ ts) c quiet h = absurd quiet

still_waits :
    (p : Printing) (t : Typing) (w : Writing) (b : Bool) (c : Client)
    → Panicked t w b
    → NotCancelled p
    → (t ≡ crashed)
      × (b ≡ false)
      × (p ≢ Printing.cancelled)
      × ((p ≢ Printing.running)
          ⊎ (exit (record c { printing = p; typing = t; writing = w; cancelled = b }) ≡ none))
unfolding exit
still_waits Printing.running crashed failed false c h alive =
    (refl, refl, (λ e. ground arith), inr refl)
still_waits Printing.finished crashed failed false c h alive =
    (refl, refl, (λ e. ground arith), inl λ e. ground arith)
still_waits Printing.failed crashed failed false c h alive =
    (refl, refl, (λ e. ground arith), inl λ e. ground arith)
still_waits Printing.crashed crashed failed false c h alive =
    (refl, refl, (λ e. ground arith), inl λ e. ground arith)
still_waits Printing.cancelled crashed failed false c h alive = absurd alive
still_waits p crashed failed true c h alive = absurd h
still_waits p crashed running b c h alive = absurd h
still_waits p crashed finished b c h alive = absurd h
still_waits p reading w b c h alive = absurd h
still_waits p ended w b c h alive = absurd h

-- If a write has failed while the client is printing and its token is not cancelled, the next line
-- that is typed makes the thread panic. From then on, whatever turns are taken, without a Ctrl-C
-- that reaches the signal handler: the thread is gone, the token is not cancelled, the printing task
-- is not stopped, and `main` waits as long as that task goes on.
pub typed-panics :
    (m : Text) (input : List Readline) (ts : List Turn) (c : Client)
    → IsUnsignalled ts
    → (let c' = run ts (
          turn types (record c {
            input = line m ∷ input;
            typing = reading;
            writing = failed;
            printing = Printing.running;
            cancelled = false;
          })) in
        (c'.typing ≡ crashed)
        × (c'.cancelled ≡ false)
        × (c'.printing ≢ Printing.cancelled)
        × ((c'.printing ≢ Printing.running) ⊎ (exit c' ≡ none)))
unfolding turn type_next
typed-panics m input ts c quiet =
    let broken : Client = record c {
      input = input;
      typing = crashed;
      writing = failed;
      printing = Printing.running;
      cancelled = false;
    } in
    let c' = run ts broken in
    let (h, alive) = run-IsLeft ts broken quiet (tt, tt) in
    still_waits c'.printing c'.typing c'.writing c'.cancelled c' h alive
