-- ===== src/Server/Clients.antt =====
-- The clients of one server, which share the bank. A step is a new connection or one round of the
-- loop of a client's task: a round makes at most one call of the bank, so however rounds overlap,
-- taking each of them where it calls the bank gives such a sequence of steps.
use dst_demo.Prelude.{
  ℕ, zero, suc, Bool, true, false, if◌then◌else◌, ◌≡◌, refl, sym, List, [], ◌∷◌, ◌++◌, Option, none,
  some, All, ◌<◌,
}
use mathlib.Core.Path.{subst}
use dst_demo.Text.{Text}
use dst_demo.Outcome.{Sink}
use dst_demo.Framing.{Reader}
use dst_demo.Platform.{Platform}
use dst_demo.Bank.{Bank}
use dst_demo.Bank.Sound.{Linked, IsSound, run-IsSound}
use dst_demo.Server.{Ended, round}
use dst_demo.Server.Actions.{ActionNames}
use dst_demo.Server.Task.{World}
use dst_demo.Bank.Serves.{Serves, Serves-refl, Serves-trans}
use dst_demo.Server.Commands.{round-Serves}

-- What belongs to one client's task alone, and how it ended.
pub record Client : Type 0 where
  pub message : Text
  pub reader : Reader
  pub writer : Sink
  pub ended : Option Ended

pub data Step : Type 0 where
  accept : Reader → Sink → Step
  turn : ℕ → Step

-- What the tasks share: the bank, the clients whose tasks were spawned, and whether
-- `SERVER_CANCELLATION_TOKEN` was cancelled, which ends the loop that accepts connections.
pub record Server (D : Type 0) : Type 0 where
  pub bank : Bank D
  pub clients : List Client
  pub cancelled : Bool

module _ {D : Type 0} (p : Platform D) (names : ActionNames) where
  abbrev pub world : Client → Bank D → Bool → World D
  world c b cancelled = record {
    bank = b;
    message = c.message;
    reader = c.reader;
    writer = c.writer;
    cancelled = cancelled;
  }

  abbrev pub client : Option Ended × World D → Client
  client (ended, w) = record {
    message = w.message;
    reader = w.reader;
    writer = w.writer;
    ended = ended;
  }

  -- A round of a client whose task still runs.
  abbrev pub client_round : Option Ended → Client → Bank D → Bool → Client × (Bank D × Bool)
  client_round (some e) c b cancelled = (c, (b, cancelled))
  client_round none c b cancelled =
      let r = round p names (world c b cancelled) in (client r, (r.1.bank, r.1.cancelled))

  unfoldable pub take_turn : ℕ → List Client → Bank D → Bool → Server D
  take_turn n [] b cancelled = record { bank = b; clients = []; cancelled = cancelled }
  take_turn zero (c ∷ cs) b cancelled =
      let (c', (b', cancelled')) = client_round c.ended c b cancelled in
      record { bank = b'; clients = c' ∷ cs; cancelled = cancelled' }
  take_turn (suc n) (c ∷ cs) b cancelled =
      let s = take_turn n cs b cancelled in record s { clients = c ∷ s.clients }

  abbrev pub connect : Reader → Sink → List Client → List Client
  connect reader writer cs =
      cs ++ record { message = []; reader = reader; writer = writer; ended = none } ∷ []

  unfoldable pub step : Step → Server D → Server D
  step (accept reader writer) s =
      if s.cancelled then s else record s { clients = connect reader writer s.clients }
  step (turn n) s = take_turn n s.clients s.bank s.cancelled

  unfoldable pub steps : List Step → Server D → Server D
  steps [] s = s
  steps (x ∷ xs) s = steps xs (step x s)

  client_round-Serves :
      (e : Option Ended) (c : Client) (b : Bank D) (cancelled : Bool)
      → Serves p b (client_round e c b cancelled).1.0
  client_round-Serves (some e) c b cancelled = Serves-refl p b
  client_round-Serves none c b cancelled = round-Serves p names (world c b cancelled)

  take_turn-Serves :
      (n : ℕ) (cs : List Client) (b : Bank D) (cancelled : Bool)
      → Serves p b (take_turn n cs b cancelled).bank
  unfolding take_turn
  take_turn-Serves n [] b cancelled = Serves-refl p b
  take_turn-Serves zero (c ∷ cs) b cancelled = client_round-Serves c.ended c b cancelled
  take_turn-Serves (suc n) (c ∷ cs) b cancelled = take_turn-Serves n cs b cancelled

  accepted : (s s' : Server D) (c : Bool) → s'.bank ≡ s.bank → (if c then s else s').bank ≡ s.bank
  accepted s s' true e = refl
  accepted s s' false e = e

  step-Serves : (x : Step) (s : Server D) → Serves p s.bank (step x s).bank
  unfolding step
  step-Serves (accept reader writer) s =
      subst (Serves p s.bank) (sym (accepted s _ s.cancelled refl)) (Serves-refl p s.bank)
  step-Serves (turn n) s = take_turn-Serves n s.clients s.bank s.cancelled

  -- However many clients connect, whatever they send and however their rounds are ordered, there is
  -- a sequence of calls of the bank that leads to the bank that they leave.
  pub steps-Serves : (xs : List Step) (s : Server D) → Serves p s.bank (steps xs s).bank
  unfolding steps
  steps-Serves [] s = Serves-refl p s.bank
  steps-Serves (x ∷ xs) s =
      Serves-trans p s.bank (step x s).bank (steps xs (step x s)).bank (step-Serves x s)
        (steps-Serves xs (step x s))

  -- Whatever any number of clients send, in whatever order their rounds come and however they end:
  -- from a bank whose log is linked and dated, the log only grows at its end, stays linked and
  -- dated, and the balance has moved by exactly the amounts of the new entries.
  pub steps-IsSound :
      (xs : List Step) (s : Server D)
      → Linked p s.bank.transactions
      → All (λ t. 0 < t.created_at) s.bank.transactions
      → IsSound p s.bank (steps xs s).bank
  unfolding Serves
  steps-IsSound xs s linked dated =
      let (cs, e) = steps-Serves xs s in
      subst (IsSound p s.bank) (sym e) (run-IsSound p cs s.bank linked dated)
