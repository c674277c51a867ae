-- ===== src/Terminal/Tests.antt =====
-- A terminal with turns in which a line still waits when the input ends.
use dst_demo.Prelude.{◌≡◌, ◌≢◌, ◌⊎◌, refl, false, none, some, List, [], ◌∷◌, ◌++◌, arith}
use dst_demo.Text.{Text, codes, position, split_at, byte_len}
use dst_demo.Text.Utf8.{into_bytes, from_utf8}
use dst_demo.Outcome.{Sink}
use dst_demo.Framing.{take_message, read_loop, bytes, Reader, frame}
use dst_demo.Framing.Chunks.{stream}
use dst_demo.Framing.Messages.{frames}
use dst_demo.Simulator.Reply.{read_line}
use dst_demo.Terminal.{send}
use dst_demo.Terminal.Tasks.{
  Readline, line, end_of_file, ended, crashed, failed, Client, type_next, write_next, print_next,
  stop, Printing, Turn, types, writes, prints, stops, turn, run, connected, ok, exit,
}
use dst_demo.Terminal.Session.{lines, exit-sent}
use dst_demo.Terminal.Ends.{HasStops, writes_in, exit-ok}
use dst_demo.Terminal.Panicked.{IsUnsignalled, typed-panics}

abbrev replies : List Text
replies = codes "healthy" ∷ codes "$5" ∷ []

abbrev silent : Sink
silent = record { content = []; fates = [] }

abbrev network : Reader
network = bytes (codes "heal") ∷ bytes (codes "thy" ++ 0 ∷ codes "$5" ++ 0 ∷ codes "Tra") ∷ []

wire : Unit {0}
unfolding frames frame into_bytes stream run turn type_next write_next print_next stop exit lines
    HasStops writes_in IsUnsignalled send read_line read_loop take_message from_utf8 position
    split_at byte_len
wire = tt

abbrev input : List Readline
input = line (codes "GET_BALANCE") ∷ line (codes "CLOSE") ∷ end_of_file ∷ line (codes "HEALTH") ∷ []

-- The second line still waits when the input ends.
abbrev first : List Turn
first = types ∷ prints ∷ writes ∷ types ∷ types ∷ types ∷ []

abbrev later : List Turn
later = writes ∷ stops ∷ prints ∷ writes ∷ []

abbrev at_start : Client
at_start = connected input silent network

exit-sent_example :
    ((run (first ++ later) at_start).writer.content ≡ [] ++ frames (lines input))
    × ((run (first ++ later) at_start).typing ≡ ended)
unfolding wire
exit-sent_example = exit-sent (first ++ later) input silent network refl

exit-ok_example :
    (exit (run (first ++ later) at_start) ≡ some ok)
    × ((run (first ++ later) at_start).writer.content ≡ [] ++ frames (lines input))
    × ((todo : List Text) × ((run (first ++ later) at_start).printed ++ todo ≡ replies))
unfolding wire
exit-ok_example =
    exit-ok first later input silent network replies (codes "Tra") refl
      ((omega arith, ground arith), ((omega arith, ground arith), tt)) (ground arith) (omega arith)
      refl refl tt (omega arith)

-- What `main` shows after a write has failed and one more line was typed.
abbrev left_alone : Client
left_alone = run (prints ∷ writes ∷ stops ∷ types ∷ []) (
    turn types
      (record at_start { input = line (codes "HEALTH") ∷ end_of_file ∷ []; writing = failed }))

typed-panics_example :
    (left_alone.typing ≡ crashed)
    × (left_alone.cancelled ≡ false)
    × (left_alone.printing ≢ Printing.cancelled)
    × ((left_alone.printing ≢ Printing.running) ⊎ (exit left_alone ≡ none))
unfolding wire
typed-panics_example =
    typed-panics (codes "HEALTH") (end_of_file ∷ []) (prints ∷ writes ∷ stops ∷ types ∷ []) at_start
      tt
