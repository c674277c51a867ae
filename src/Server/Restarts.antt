-- ===== src/Server/Restarts.antt =====
-- A server that is stopped between its clients' rounds and started again on its file, as often as it
-- may be: `run` of `server/src/lib.rs`, and the bounces of the simulator.
use dst_demo.Prelude.{
  ◌⊎◌, inl, inr, ◌<◌, ◌≡◌, refl, sym, ◌∙◌, ap, true, some, List, [], ◌∷◌, ◌++◌, All, append_assoc,
  append-nil,
}
use dst_demo.Outcome.{Outcome, ok, err, panic}
use dst_demo.Transaction.{Transaction}
use dst_demo.Platform.{Platform}
use dst_demo.Platform.Laws.{JsonLaws, ClockLaws, TotalLaws}
use dst_demo.Bank.{Bank}
use dst_demo.Bank.Healthy.{IsHealthy, Overflowed, served-IsHealthy}
use dst_demo.Bank.Recovery.{IsStored, new-IsStored}
use dst_demo.Bank.Sound.{Linked}
use dst_demo.Server.Actions.{ActionNames}
use dst_demo.Server.Task.{Error}
use dst_demo.Server.Clients.{Server, Step, steps, steps-Serves, steps-IsSound}
use dst_demo.Server.Run.{idle, serving, run}

module _ {D : Type 0} (p : Platform D) (names : ActionNames) where
  abbrev pub then_restart :
      (Bank D → Outcome Error (Bank D)) → Outcome Error (Server D) → Outcome Error (Bank D)
  then_restart rest (ok s) = rest s.bank
  then_restart rest (err e) = err e
  then_restart rest panic = panic

  -- Runs of the server, each on the file that the one before it has left; the address can be bound,
  -- and writes succeed. The clock goes on.
  unfoldable pub restarts : List (List Step) → Bank D → Outcome Error (Bank D)
  restarts [] b = ok b
  restarts (xs ∷ runs) b =
      then_restart (restarts runs)
        (run p names true b.ticks (some (record { content = b.file.content; fates = [] })) xs)

  -- All runs start, and the log has only grown and is stored.
  abbrev pub Survives : List (List Step) → Bank D → Type 0
  Survives runs b =
      (b' : Bank D) × (restarts runs b ≡ ok b')
      × ((added : List (Transaction D)) × (b'.transactions ≡ b.transactions ++ added))
      × Linked p b'.transactions
      × All (λ t. 0 < t.created_at) b'.transactions
      × IsStored p b'

  -- The bank as it is opened again.
  abbrev pub reopened : Bank D → Bank D
  reopened b = record b {
    file = record { content = b.file.content; fates = [] };
    balance = p.zero_amount;
  }

  -- In one of the runs the sum of the balance has overflowed.
  unfoldable pub Overflows : ClockLaws p → TotalLaws p → List (List Step) → Bank D → Type 0
  Overflows clock total [] b = ⊥
  Overflows clock total (xs ∷ runs) b =
      (s : Server D) × (run p names true b.ticks
          (some (record { content = b.file.content; fates = [] })) xs
        ≡ ok s)
      × (Overflowed p clock total (reopened b) s.bank ⊎ Overflows clock total runs s.bank)

  module _ (json : JsonLaws p) (clock : ClockLaws p) (total : TotalLaws p) where
    steps-IsHealthy :
        (xs : List Step) (s : Server D)
        → IsHealthy p clock total s.bank
        → IsHealthy p clock total (steps p names xs s).bank
          ⊎ Overflowed p clock total s.bank (steps p names xs s).bank
    steps-IsHealthy xs s h =
        served-IsHealthy p clock total s.bank (steps p names xs s).bank h
          (steps-Serves p names xs s)

    reopened-IsHealthy :
        (b : Bank D) → IsHealthy p clock total b → IsHealthy p clock total (reopened b)
    reopened-IsHealthy b h = record {
      stored = record {
        text = h.stored.text;
        journaled = h.stored.journaled;
        file = h.stored.file;
        in_step = h.stored.in_step;
      };
      steady = refl;
      past = h.past;
    }

    -- From a bank that its file holds, whose log is linked and dated and not later than the clock:
    -- however often the server is stopped between its clients' rounds and started again on its file,
    -- and whatever its clients send in each run, either every start succeeds, no entry of the log is
    -- ever lost or changed, the log only grows at its end, it stays linked and dated across the
    -- starts, and the file still holds it; or in one of the runs, which had started, the sum of the
    -- balance has overflowed in a call of `create_transaction`. The address can be bound, writes
    -- succeed, every transaction has a JSON form, which is one line that is read back, and the clock
    -- is after the epoch and never goes backwards.
    pub restarts-Survives :
        (runs : List (List Step)) (b : Bank D)
        → IsHealthy p clock total b
        → Linked p b.transactions
        → All (λ t. 0 < t.created_at) b.transactions
        → Survives runs b ⊎ Overflows clock total runs b
    unfolding restarts run Overflows
    restarts-Survives [] b h linked dated =
        inl (b, refl, ([], sym (append-nil b.transactions)), linked, dated, h.stored)
    restarts-Survives (xs ∷ runs) b h linked dated =
        let again = reopened b in
        let s = steps p names xs (idle p names again) in
        let sound = steps-IsSound p names xs (idle p names again) linked dated in
        let runs_once = ap (serving p names xs) (new-IsStored p json b b.ticks [] h.stored) in
        elim (steps-IsHealthy xs (idle p names again) (reopened-IsHealthy b h)) [
          | inr over ↦ inr (s, runs_once, inl over)
          | inl healthy ↦ elim (restarts-Survives runs s.bank healthy sound.linked sound.dated) [
            | inr later ↦ inr (s, runs_once, inr later)
            | inl (b', e, (added, grown), linked', dated', stored) ↦ inl (
              b',
              ap (then_restart (restarts runs)) runs_once ∙ e,
              (
                sound.added ++ added,
                grown
                    ∙ ap (λ ts. ts ++ added) sound.log
                    ∙ append_assoc b.transactions sound.added added,
              ),
              linked',
              dated',
              stored,
            )
          ]
        ]
