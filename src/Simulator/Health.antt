-- ===== src/Simulator/Health.antt =====
-- The health checker's client: `simulator/src/client/health_checker/mod.rs`. Sleeps and the time
-- limit around a check are a library's.
pub mod Start
use dst_demo.Prelude.{
  ℕ, ◌≡◌, refl, sym, ◌∙◌, ap, arith, inl, inr, List, [], ◌∷◌, ◌++◌, All, length, append-nil,
  if◌then◌else◌,
}
use mathlib.Core.Path.{subst}
use dst_demo.Text.{Text, Bytes, codes, text_eq}
use dst_demo.Text.Utf8.{into_bytes}
use dst_demo.Outcome.{ok, ◌>>=◌, ◌>>◌, assert, broken, write_all}
use dst_demo.Framing.{Reader, frame}
use dst_demo.Framing.Messages.{frames}
use dst_demo.Platform.{Platform}
use dst_demo.Bank.{Bank}
use dst_demo.Server.Actions
use dst_demo.Server.Actions.{ActionNames}
use dst_demo.Server.Requests
use dst_demo.Server.Requests.{texts, respond}
use dst_demo.Simulator.HealthPlan.{Interaction, sleep, health_check}
use dst_demo.Simulator.Connection.{
  TcpStream, ClientAction, sent, receive, Attempt, connected, Performed, finished, attempt, IsLost,
  connections, open_stream,
}
use dst_demo.Simulator.Connection.Groups.{Brings, receives}
use dst_demo.Simulator.Connection.Lost.{Fails, unanswered, attempt-lost}

-- `stream.write_all(b"HEALTH\0")`
unfoldable pub send_health : ClientAction (Unit {0})
send_health stream = sent (write_all (codes "HEALTH" ++ 0 ∷ []) stream.writer) stream

-- One round of the loop, with the assertion on the response that ends it.
unfoldable pub ask_health : ClientAction (Unit {0})
ask_health = do send_health; response ← receive; assert (text_eq response (codes "healthy"))

unfoldable pub assert_health : List Attempt → Performed
assert_health attempts = attempt ask_health attempts

-- `perform_interaction`, with the attempts that a check would have.
unfoldable pub perform_interaction : Interaction → List Attempt → Performed
perform_interaction (sleep _) attempts = (finished, [])
perform_interaction (health_check host) attempts = assert_health attempts

lost-Fails : (s : TcpStream) → IsLost (connected s) → Fails (ask_health s)
unfolding ask_health send_health
lost-Fails s (inl (n, later, fate)) =
    subst (λ f. Fails (ask_health (record s { writer = record s.writer { fates = f } }))) (sym fate)
      (_, refl)
lost-Fails s (inr (fate, free, ascii)) =
    subst (λ f. Fails (ask_health (record s { writer = record s.writer { fates = f } }))) (sym fate)
      (unanswered (λ response. assert (text_eq response (codes "healthy"))) s.reader _ free ascii)

module _ {D : Type 0} (p : Platform D) (names : ActionNames) where
  answered :
      (b : Bank D) (after r : Reader) (c : Bytes)
      → names.as_ref Actions.health ≡ codes "HEALTH"
      → Brings (respond p Requests.health b).replies after r
      → (r' : Reader) × (ask_health (open_stream r c)
          ≡ (ok tt, open_stream r' (c ++ frames (texts names Requests.health))))
  unfolding ask_health send_health respond texts frames frame into_bytes
  answered b after r c name (g, later, e, live, whole, _) = (
    later,
    receives (λ response. assert (text_eq response (codes "healthy"))) (codes "healthy") g later r
          (c ++ (codes "HEALTH" ++ 0 ∷ [])) (omega arith, ground arith) e live whole
        ∙ rw name refl,
  )

  -- A health check is tried again after every attempt to connect that is refused, whose first write
  -- fails, or whose stream ends before a message is whole; as soon as an attempt meets the server,
  -- whose reply comes in chunks of its own, and all writes succeed, the check is finished and its
  -- assertion holds: one connection was used for each earlier attempt that connected, none after,
  -- and the last has received exactly the request of the protocol, if the name of that action is
  -- `HEALTH`.
  pub health_check-finished :
      (host : Text) (b : Bank D) (after : Reader) (lost more : List Attempt) (s : TcpStream)
      → names.as_ref Actions.health ≡ codes "HEALTH"
      → All IsLost lost
      → Brings (respond p Requests.health b).replies after s.reader
      → s.writer.fates ≡ []
      → (used : List TcpStream) × (r : Reader) × (perform_interaction
            (health_check host)
            (lost ++ connected s ∷ more)
          ≡ (
            finished,
            used ++ open_stream r (s.writer.content ++ frames (texts names Requests.health)) ∷ [],
          ))
        × (length used ≡ connections lost)
  unfolding perform_interaction assert_health
  health_check-finished host b after lost more s name h brings steady =
      let (r, done) = answered b after s.reader s.writer.content name brings in
      let whole =
        ap (λ f. ask_health (record s { writer = record s.writer { fates = f } })) steady ∙ done in
      let (used, ended, count) = attempt-lost ask_health lost s _ more lost-Fails h whole in
      (used, r, ended, count)
