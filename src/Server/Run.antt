-- ===== src/Server/Run.antt =====
-- `run` of `server/src/lib.rs`: the listener is bound, the bank is opened from its file, and
-- clients are served until the runtime is cancelled. Binding and accepting are a library's.
mod Tests
use dst_demo.Prelude.{ℕ, Bool, true, false, Option, some, List, [], ◌≡◌, ◌∙◌, ap, All, ◌<◌}
use dst_demo.Outcome.{Outcome, ok, err, panic, Sink, Fate}
use dst_demo.Transaction.{Transaction}
use dst_demo.Platform.{Platform}
use dst_demo.Platform.Laws.{JsonLaws}
use dst_demo.Bank.{Bank}
use dst_demo.Bank.Open
use dst_demo.Bank.Open.{OpenError}
use dst_demo.Bank.Recovery.{IsStored, new-IsStored}
use dst_demo.Bank.Sound.{Linked, IsSound}
use dst_demo.Server.Actions.{ActionNames}
use dst_demo.Server.Task.{Error, io, tcp}
use dst_demo.Server.Clients.{Server, Step, steps, steps-IsSound}

module _ {D : Type 0} (p : Platform D) (names : ActionNames) where
  -- The server before its first client.
  abbrev pub idle : Bank D → Server D
  idle b = record { bank = b; clients = []; cancelled = false }

  abbrev pub serving : List Step → Outcome OpenError (Bank D) → Outcome Error (Server D)
  serving xs (ok b) = ok (steps p names xs (idle b))
  serving xs (err e) = err io
  serving xs panic = panic

  -- Whether the address could be bound, the earlier readings of the clock, the file, and what the
  -- clients do; how far the server comes with it.
  unfoldable pub run : Bool → ℕ → Option Sink → List Step → Outcome Error (Server D)
  run false ticks file xs = err tcp
  run true ticks file xs = serving xs (Open.new p ticks file)

  -- A server that is started again on the file of a stored bank whose log is linked and dated,
  -- whose address can be bound, where the JSON form is one line that is read back: it runs, and
  -- whatever its clients send and however their rounds are ordered, the log is the stored one,
  -- grown only at its end, linked and dated, and the balance is zero and the amounts of the new
  -- entries.
  pub run-new-IsSound :
      (laws : JsonLaws p) (b : Bank D) (ticks : ℕ) (fates : List Fate) (xs : List Step)
      → IsStored p b
      → Linked p b.transactions
      → All (λ t. 0 < t.created_at) b.transactions
      → (s : Server D) × (run true ticks
            (some (record { content = b.file.content; fates = fates }))
            xs
          ≡ ok s)
        × IsSound p (record b { balance = p.zero_amount }) s.bank
  unfolding run
  run-new-IsSound laws b ticks fates xs stored linked dated =
      let opened : Bank D = record {
        file = record { content = b.file.content; fates = fates };
        transactions = b.transactions;
        current_id = b.current_id;
        balance = p.zero_amount;
        ticks = ticks;
      } in
      let sound = steps-IsSound p names xs (idle opened) linked dated in
      (
        steps p names xs (idle opened),
        ap (serving xs) (new-IsStored p laws b ticks fates stored),
        record {
          added = sound.added;
          log = sound.log;
          linked = sound.linked;
          dated = sound.dated;
          balanced = sound.balanced;
        },
      )
