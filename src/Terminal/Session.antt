-- ===== src/Terminal/Session.antt =====
-- What the terminal client has sent when it ends: `main` of `tcp_client/src/main.rs`.
use dst_demo.Prelude.{
  ◌≡◌, ◌⊎◌, inl, inr, arith, refl, sym, ◌∙◌, ap, Bool, true, false, some, List, [], ◌∷◌, ◌++◌,
  append_assoc, append-nil,
}
use mathlib.Core.Path.{subst}
use dst_demo.Text.{Text, Bytes}
use dst_demo.Text.Utf8.{into_bytes}
use dst_demo.Outcome.{Sink, write_all, Fate, written, broken}
use dst_demo.Framing.{Reader, Read, ReadResult, frame}
use dst_demo.Framing.Messages.{frames}
use dst_demo.Simulator.Reply.{read_line}
use dst_demo.Terminal.{send, then_write}
use dst_demo.Terminal.Tasks.{
  Readline, line, interrupted, end_of_file, Typing, reading, ended, crashed, Writing, running,
  finished, failed, Client, type_next, write_next, print_next, stop, shown, Printing, Turn, types,
  writes, prints, stops, signal, turn, run, connected, wrote, ok, exit, main_result,
}

-- The lines that are typed before the input ends.
unfoldable pub lines : List Readline → List Text
lines [] = []
lines (line m ∷ input) = m ∷ lines input
lines (interrupted ∷ _) = []
lines (end_of_file ∷ _) = []
lines (Readline.failed ∷ _) = []

-- The lines that a thread will still send.
abbrev pub to_come : Typing → List Readline → List Text
to_come reading input = lines input
to_come ended input = []
to_come crashed input = []

-- Unless a write has failed, what is written, waits in the channel and is to come makes up `goal`.
abbrev Holds : Bytes → Writing → Typing → List Readline → List Text → Bytes → Type 0
Holds goal failed typing input channel content = Unit
Holds goal running crashed input channel content = ⊥
Holds goal running reading input channel content = content ++ frames (channel ++ lines input) ≡ goal
Holds goal running ended input channel content = content ++ frames channel ≡ goal
Holds goal finished reading input channel content = ⊥
Holds goal finished crashed input channel content = ⊥
Holds goal finished ended input channel content = content ≡ goal

abbrev IsOwed : Bytes → Client → Type 0
IsOwed goal c = Holds goal c.writing c.typing c.input c.channel c.writer.content

-- At the end of the input.
all_typed :
    {goal : Bytes} (channel : List Text) (content : Bytes)
    → content ++ frames (channel ++ []) ≡ goal
    → content ++ frames channel ≡ goal
all_typed channel content h = ap (λ ms. content ++ frames ms) (sym (append-nil channel)) ∙ h

write_all_cases :
    (bytes : Bytes) (s : Sink)
    → ((s' : Sink) × (write_all bytes s ≡ (true, s')) × (s'.content ≡ s.content ++ bytes))
      ⊎ ((s' : Sink) × (write_all bytes s ≡ (false, s')))
write_all_cases bytes s = by_fates s.content s.fates
  where
    by_fates :
        (content : Bytes) (fates : List Fate)
        → ((s' : Sink) × (write_all bytes (record { content = content; fates = fates })
              ≡ (true, s'))
            × (s'.content ≡ content ++ bytes))
          ⊎ ((s' : Sink) × (write_all bytes (record { content = content; fates = fates })
                ≡ (false, s')))
    by_fates content [] = inl (_, refl, refl)
    by_fates content (written ∷ fates) = inl (_, refl, refl)
    by_fates content (broken n ∷ fates) = inr (_, refl)

send_cases :
    (m : Text) (s : Sink)
    → ((s' : Sink) × (send m s ≡ (true, s')) × (s'.content ≡ s.content ++ frame m))
      ⊎ ((s' : Sink) × (send m s ≡ (false, s')))
unfolding send frame
send_cases m s = elim (write_all_cases (into_bytes m) s) [
  | inr (s₁, lost) ↦ inr (s₁, ap (then_write (0 ∷ [])) lost)
  | inl (s₁, sent, content) ↦ elim (write_all_cases (0 ∷ []) s₁) [
    | inr (s₂, lost) ↦ inr (s₂, ap (then_write (0 ∷ [])) sent ∙ lost)
    | inl (s₂, done, content') ↦ inl (
      s₂,
      ap (then_write (0 ∷ [])) sent ∙ done,
      content' ∙ ap (λ b. b ++ 0 ∷ []) content ∙ append_assoc s.content (into_bytes m) (0 ∷ []),
    )
  ]
]

shown-IsOwed :
    (goal : Bytes) (r : ReadResult) (c : Client) → IsOwed goal c → IsOwed goal (shown r c)
shown-IsOwed goal (Read.message m, buffer, r) c h = h
shown-IsOwed goal (Read.closed, buffer, r) c h = h
shown-IsOwed goal (Read.invalid, buffer, r) c h = h
shown-IsOwed goal (Read.panicked, buffer, r) c h = h

types-IsOwed :
    (goal : Bytes) (w : Writing) (t : Typing) (input : List Readline) (c : Client)
    → Holds goal w t input c.channel c.writer.content
    → IsOwed goal (turn types (record c { writing = w; typing = t; input = input }))
unfolding turn type_next lines
types-IsOwed goal failed reading [] c h = tt
types-IsOwed goal failed reading (line m ∷ input) c h = tt
types-IsOwed goal failed reading (interrupted ∷ input) c h = tt
types-IsOwed goal failed reading (end_of_file ∷ input) c h = tt
types-IsOwed goal failed reading (Readline.failed ∷ input) c h = tt
types-IsOwed goal running reading [] c h = h
types-IsOwed goal running reading (line m ∷ input) c h =
    ap (λ ms. c.writer.content ++ frames ms) (append_assoc c.channel (m ∷ []) (lines input)) ∙ h
types-IsOwed goal running reading (interrupted ∷ input) c h = all_typed c.channel _ h
types-IsOwed goal running reading (end_of_file ∷ input) c h = all_typed c.channel _ h
types-IsOwed goal running reading (Readline.failed ∷ input) c h = all_typed c.channel _ h
types-IsOwed goal finished reading input c h = absurd h
types-IsOwed goal failed ended input c h = tt
types-IsOwed goal running ended input c h = h
types-IsOwed goal finished ended input c h = h
types-IsOwed goal failed crashed input c h = tt
types-IsOwed goal running crashed input c h = h
types-IsOwed goal finished crashed input c h = h

-- The way on from a message that has been written.
Holds-frame :
    (goal : Bytes) (t : Typing) (input : List Readline) (m : Text) (ms : List Text)
    (content : Bytes)
    → Holds goal running t input (m ∷ ms) content
    → Holds goal running t input ms (content ++ frame m)
unfolding frames
Holds-frame goal reading input m ms content h =
    append_assoc content (frame m) (frames (ms ++ lines input)) ∙ h
Holds-frame goal ended input m ms content h = append_assoc content (frame m) (frames ms) ∙ h
Holds-frame goal crashed input m ms content h = h

writes-IsOwed :
    (goal : Bytes) (w : Writing) (t : Typing) (channel : List Text) (c : Client)
    → Holds goal w t c.input channel c.writer.content
    → IsOwed goal (turn writes (record c { writing = w; typing = t; channel = channel }))
unfolding turn write_next frames
writes-IsOwed goal failed t channel c h = tt
writes-IsOwed goal finished t channel c h = h
writes-IsOwed goal running reading [] c h = h
writes-IsOwed goal running ended [] c h = sym (append-nil c.writer.content) ∙ h
writes-IsOwed goal running crashed [] c h = absurd h
writes-IsOwed goal running t (m ∷ ms) c h =
    let next : Client = record c { writing = running; typing = t; channel = ms } in
    elim (send_cases m c.writer) [
      | inl (s, sent, content) ↦
          subst (λ r. IsOwed goal (wrote r next)) (sym sent)
            (subst (Holds goal running t c.input ms) (sym content)
              (Holds-frame goal t c.input m ms c.writer.content h))
      | inr (s, lost) ↦ subst (λ r. IsOwed goal (wrote r next)) (sym lost) tt
    ]

prints-IsOwed :
    (goal : Bytes) (p : Printing) (c : Client)
    → IsOwed goal c
    → IsOwed goal (turn prints (record c { printing = p }))
unfolding turn print_next
prints-IsOwed goal Printing.running c h =
    shown-IsOwed goal (read_line c.message c.reader) (record c { printing = Printing.running }) h
prints-IsOwed goal Printing.finished c h = h
prints-IsOwed goal Printing.failed c h = h
prints-IsOwed goal Printing.crashed c h = h
prints-IsOwed goal Printing.cancelled c h = h

stops-IsOwed :
    (goal : Bytes) (cancelled : Bool) (p : Printing) (c : Client)
    → IsOwed goal c
    → IsOwed goal (stop cancelled p c)
unfolding stop
stops-IsOwed goal true Printing.running c h = h
stops-IsOwed goal true Printing.finished c h = h
stops-IsOwed goal true Printing.failed c h = h
stops-IsOwed goal true Printing.crashed c h = h
stops-IsOwed goal true Printing.cancelled c h = h
stops-IsOwed goal false p c h = h

turn-IsOwed : (goal : Bytes) (t : Turn) (c : Client) → IsOwed goal c → IsOwed goal (turn t c)
unfolding turn
turn-IsOwed goal types c h = types-IsOwed goal c.writing c.typing c.input c h
turn-IsOwed goal writes c h = writes-IsOwed goal c.writing c.typing c.channel c h
turn-IsOwed goal prints c h = prints-IsOwed goal c.printing c h
turn-IsOwed goal stops c h = stops-IsOwed goal c.cancelled c.printing c h
turn-IsOwed goal signal c h = h

run-IsOwed : (goal : Bytes) (ts : List Turn) (c : Client) → IsOwed goal c → IsOwed goal (run ts c)
unfolding run
run-IsOwed goal [] c h = h
run-IsOwed goal (t ∷ ts) c h = run-IsOwed goal ts (turn t c) (turn-IsOwed goal t c h)

-- `main` returns `Ok` only behind a task that has written everything.
ok-Holds :
    (p : Printing) (w : Writing) (t : Typing) (goal : Bytes) (input : List Readline)
    (channel : List Text) (content : Bytes)
    → main_result p w t ≡ some ok
    → Holds goal w t input channel content
    → (content ≡ goal) × (t ≡ ended)
ok-Holds Printing.running w t goal input channel content e h = absurd (ground arith)
ok-Holds Printing.failed w t goal input channel content e h = absurd (ground arith)
ok-Holds Printing.crashed w t goal input channel content e h = absurd (ground arith)
ok-Holds Printing.finished running t goal input channel content e h = absurd (ground arith)
ok-Holds Printing.finished failed t goal input channel content e h = absurd (ground arith)
ok-Holds Printing.finished finished reading goal input channel content e h = absurd h
ok-Holds Printing.finished finished crashed goal input channel content e h = absurd h
ok-Holds Printing.finished finished ended goal input channel content e h = (h, refl)
ok-Holds Printing.cancelled running t goal input channel content e h = absurd (ground arith)
ok-Holds Printing.cancelled failed t goal input channel content e h = absurd (ground arith)
ok-Holds Printing.cancelled finished reading goal input channel content e h = absurd h
ok-Holds Printing.cancelled finished crashed goal input channel content e h = absurd h
ok-Holds Printing.cancelled finished ended goal input channel content e h = (h, refl)

-- However the thread and the tasks of the client take turns, if `main` has returned `Ok`, then
-- the input has ended, and every line typed before that has been sent as a message of the protocol,
-- whole and in order, and nothing else.
pub exit-sent :
    (ts : List Turn) (input : List Readline) (writer : Sink) (r : Reader)
    → exit (run ts (connected input writer r)) ≡ some ok
    → ((run ts (connected input writer r)).writer.content ≡ writer.content ++ frames (lines input))
      × ((run ts (connected input writer r)).typing ≡ ended)
unfolding exit
exit-sent ts input writer r e =
    let c = run ts (connected input writer r) in
    ok-Holds c.printing c.writing c.typing (writer.content ++ frames (lines input)) c.input
      c.channel c.writer.content e (run-IsOwed _ ts (connected input writer r) refl)
