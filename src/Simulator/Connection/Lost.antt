-- ===== src/Simulator/Connection/Lost.antt =====
-- Attempts that come to nothing are made again.
use dst_demo.Prelude.{◌≡◌, refl, ◌∙◌, ap, suc, List, [], ◌∷◌, ◌++◌, All, length}
use dst_demo.Text.{Text, Bytes}
use dst_demo.Text.Utf8.RoundTrip.{IsAscii}
use dst_demo.Outcome.{Outcome, ok, err, ◌>>=◌}
use dst_demo.Outcome.Laws.{>>=-fails}
use dst_demo.Framing.{Reader}
use dst_demo.Framing.Chunks.{NulFree, stream}
use dst_demo.Framing.Messages.{read_message_waits}
use dst_demo.Simulator.Reply.{read_fresh-read_message}
use dst_demo.Simulator.Connection.{
  TcpStream, ClientAction, received, receive, Attempt, refused, connected, Performed, finished,
  tried, attempt, IsLost, connections, open_stream,
}

-- A call that returned false.
abbrev pub Fails : Outcome (Unit {0}) (Unit {0}) × TcpStream → Type 0
Fails result = (s : TcpStream) × (result ≡ (err tt, s))

-- No message comes.
pub unanswered :
    (f : Text → ClientAction (Unit {0})) (r : Reader) (c : Bytes)
    → NulFree (stream r)
    → All IsAscii (stream r)
    → Fails ((receive >>= f) (open_stream r c))
unfolding receive
unanswered f r c free ascii =
    let (r', e) = read_message_waits [] r free ascii in
    (
      _,
      >>=-fails receive f (open_stream r c)
          (ap (λ v. received v (open_stream r c)) (read_fresh-read_message r ∙ e)),
    )

-- A call that fails on each lost attempt is tried again, and is finished with the first connection
-- on which it succeeds.
pub attempt-lost :
    (call : ClientAction (Unit {0})) (lost : List Attempt) (s s' : TcpStream) (more : List Attempt)
    → ((l : TcpStream) → IsLost (connected l) → Fails (call l))
    → All IsLost lost
    → call s ≡ (ok tt, s')
    → (used : List TcpStream) × (attempt call (lost ++ connected s ∷ more)
        ≡ (finished, used ++ s' ∷ []))
      × (length used ≡ connections lost)
unfolding attempt
attempt-lost call [] s s' more fails h done = ([], ap (λ o. tried o (attempt call more)) done, refl)
attempt-lost call (refused ∷ lost) s s' more fails (h, hs) done =
    attempt-lost call lost s s' more fails hs done
attempt-lost call (connected l ∷ lost) s s' more fails (h, hs) done =
    let (used, rest, count) = attempt-lost call lost s s' more fails hs done in
    let (l', failed) = fails l h in
    (
      l' ∷ used,
      ap (λ o. tried o (attempt call (lost ++ connected s ∷ more))) failed
          ∙ ap (λ (v : Performed). (v.0, l' ∷ v.1)) rest,
      ap suc count,
    )
