-- ===== src/Bank/Interleaved/Killed.antt =====
-- A server that is killed while tasks that share the bank are at work, and its file read back:
-- `LocalBank` of `server/src/bank.rs`.
use dst_demo.Prelude.{
  ℕ, ◌<◌, ◌≤◌, ◌≡◌, ◌⊎◌, refl, sym, ◌∙◌, ap, arith, Option-cases, some, inl, inr, List, [], ◌∷◌,
  ◌++◌, append-nil, append_assoc, All, All-append,
}
use mathlib.Core.Path.{subst}
use dst_demo.Outcome.{Sink, Fate}
use dst_demo.Transaction.{Transaction}
use dst_demo.Platform.{Platform}
use dst_demo.Platform.Laws.{JsonLaws, ClockLaws, TotalLaws}
use dst_demo.Bank.{Bank}
use dst_demo.Bank.Recovery.{new-IsStored}
use dst_demo.Bank.Healthy.{IsHealthy, Overflowed, served-IsHealthy, later_past}
use dst_demo.Bank.Serves.{Serves}
use dst_demo.Bank.Sound.{Linked, IsSound, run-IsSound}
use dst_demo.Bank.Stages.{
  Stage, idle, finding, waiting, taken, checking, writing, crediting, pushing, finished, IsInside,
}
use dst_demo.Bank.Killed.{Work}
use dst_demo.Bank.Killed.Reopens.{Reopens, IsReadBack, HasEntry, Work-Reopens}
use dst_demo.Bank.Killed.Ticks.{Work-ticks}
use mathlib.Core.Option.{some-injective}
use dst_demo.Bank.Interleaved.{System, Reach}
use dst_demo.Bank.Interleaved.Between.{Between}
use dst_demo.Bank.Interleaved.Locked.{Underway, Reach-IsLocked}

module _ {D : Type 0} (p : Platform D) where
  abbrev pub Extends : List (Transaction D) → List (Transaction D) → Type 0
  Extends ts us = (added : List (Transaction D)) × (us ≡ ts ++ added)

  pub Extends-trans :
      (ts us vs : List (Transaction D)) → Extends ts us → Extends us vs → Extends ts vs
  Extends-trans ts us vs (a, e) (c, f) = (a ++ c, f ∙ (ap (λ x. x ++ c) e ∙ append_assoc ts a c))

  inside-IsReadBack :
      (st : Stage D) (amount : D) (base : Bank D) (ts : List (Transaction D))
      → IsInside st
      → IsReadBack p amount base st ts
      → (ts ≡ base.transactions) ⊎ ((t : Transaction D) × HasEntry p amount base t ts)
  inside-IsReadBack (taken a) amount base ts h e = inl e
  inside-IsReadBack (checking t n) amount base ts h e = inl e
  inside-IsReadBack (writing t) amount base ts h e = inl e
  inside-IsReadBack (crediting t) amount base ts h e = inr (t, e)
  inside-IsReadBack (pushing t) amount base ts h e = inr (t, e)
  inside-IsReadBack idle amount base ts h e = elim h [ ]
  inside-IsReadBack (finding id) amount base ts h e = elim h [ ]
  inside-IsReadBack (waiting a) amount base ts h e = elim h [ ]
  inside-IsReadBack (finished o) amount base ts h e = elim h [ ]

  -- Inside a call the log in memory is that at which the lock was taken.
  inside-Between :
      (st : Stage D) (base b : Bank D)
      → IsInside st
      → Between p st base b
      → b.transactions ≡ base.transactions
  inside-Between (taken a) base b h k = k.0
  inside-Between (checking t n) base b h k = k.0
  inside-Between (writing t) base b h k = k.0
  inside-Between (crediting t) base b h k = k.0
  inside-Between (pushing t) base b h k = k.0
  inside-Between idle base b h k = elim h [ ]
  inside-Between (finding id) base b h k = elim h [ ]
  inside-Between (waiting a) base b h k = elim h [ ]
  inside-Between (finished o) base b h k = elim h [ ]

  pub weaken-Reopens :
      {P Q : List (Transaction D) → Type 0} {ticks : ℕ} {file : Sink}
      → ((ts : List (Transaction D)) → P ts → Q ts)
      → Reopens p P ticks file
      → Reopens p Q ticks file
  weaken-Reopens f r = record {
    bank = r.bank;
    opens = r.opens;
    same_file = r.same_file;
    same_ticks = r.same_ticks;
    linked = r.linked;
    dated = r.dated;
    stored = r.stored;
    log = f r.bank.transactions r.log;
  }

  -- A log that begins with that of the start, and that the log read back begins with, in which no
  -- entry is later than the clock.
  abbrev pub Survives : ClockLaws p → Bank D → Bank D → List (Transaction D) → Type 0
  Survives clock from b ts =
      Extends from.transactions b.transactions
      × Extends b.transactions ts
      × All (λ t. t.created_at ≤ clock.time b.ticks) ts

  read_back :
      (clock : ClockLaws p) (amount : D) (base : Bank D) (n : ℕ) (ts : List (Transaction D))
      → All (λ t. t.created_at ≤ clock.time base.ticks) base.transactions
      → base.ticks ≤ n
      → (ts ≡ base.transactions) ⊎ ((t : Transaction D) × HasEntry p amount base t ts)
      → Extends base.transactions ts × All (λ t. t.created_at ≤ clock.time n) ts
  read_back clock amount base n ts past le (inl e) = (
    ([], e ∙ sym (append-nil base.transactions)),
    subst (All (λ t. t.created_at ≤ clock.time n)) (sym e)
        (later_past p clock base.ticks n base.transactions le past),
  )
  read_back clock amount base n ts past le (inr (t, (_, _, now, e))) = (
    (t ∷ [], e),
    subst (All (λ t. t.created_at ≤ clock.time n)) (sym e) (
        All-append _ base.transactions (t ∷ [])
          (later_past p clock base.ticks n base.transactions le past)
          (
            omega (
              arith,
              some-injective _ _ (sym now ∙ clock.reads base.ticks),
              clock.forward base.ticks n le,
            ),
            tt,
          )),
  )

  -- The sum of the balance has overflowed in a call that is over, before that which is under way.
  abbrev pub HasOverflowed : ClockLaws p → TotalLaws p → Bank D → System D → Type 0
  HasOverflowed clock total from s =
      (base : Bank D) × Overflowed p clock total from base
      × ((base ≡ s.bank)
          ⊎ ((i : ℕ) × (amount : D) × (s.owner ≡ some i) × Work p amount base (s.stage i) s.bank))

  module _ (json : JsonLaws p) (clock : ClockLaws p) (total : TotalLaws p) (from : Bank D)
      (healthy : IsHealthy p clock total from) (linked : Linked p from.transactions)
      (dated : All (λ t. 0 < t.created_at) from.transactions) where
    served-IsSound : (b : Bank D) → Serves p from b → IsSound p from b
    unfolding Serves
    served-IsSound b (cs, e) = subst (IsSound p from) (sym e) (run-IsSound p cs from linked dated)

    -- No call is under way.
    free-Survives :
        (b : Bank D) (ticks : ℕ) (fates : List Fate)
        → Serves p from b
        → IsHealthy p clock total b
        → Reopens p
            (Survives clock from b)
            ticks
            (record { content = b.file.content; fates = fates })
    free-Survives b ticks fates served h =
        let sound = served-IsSound b served in
        record {
          bank = record b {
            file = record { content = b.file.content; fates = fates };
            balance = p.zero_amount;
            ticks = ticks;
          };
          opens = new-IsStored p json b ticks fates h.stored;
          same_file = refl;
          same_ticks = refl;
          linked = sound.linked;
          dated = sound.dated;
          stored = record {
            text = h.stored.text;
            journaled = h.stored.journaled;
            file = h.stored.file;
            in_step = h.stored.in_step;
          };
          log = ((sound.added, sound.log), ([], sym (append-nil b.transactions)), h.past);
        }

    Underway-Survives :
        (st : Stage D) (b : Bank D) (ticks : ℕ) (fates : List Fate)
        → (u : Underway p from st b) → IsHealthy p clock total u.base
        → Reopens p
            (Survives clock from b)
            ticks
            (record { content = b.file.content; fates = fates })
    Underway-Survives st b ticks fates u h =
        let sound = served-IsSound u.base u.served in
        let same = inside-Between st u.base b u.inside u.between in
        let later = Work-ticks p u.amount u.base u.progress in
        weaken-Reopens
          (λ ts back.
            let (grown, past) =
              subst (λ us. Extends us ts × All (λ t. t.created_at ≤ clock.time b.ticks) ts)
                (sym same)
                (read_back clock u.amount u.base b.ticks ts h.past later
                  (inside-IsReadBack st u.amount u.base ts u.inside back)) in
            ((sound.added, same ∙ sound.log), grown, past))
          (Work-Reopens p u.amount u.base json h.stored sound.linked sound.dated st b ticks fates
            h.steady u.progress)

    -- From a bank that its file holds, whose log is linked and dated and not later than the clock:
    -- however tasks that create and void transactions are interleaved between their awaits of a
    -- lock, if the server is killed at any moment between two steps of them, then its file is
    -- opened again and gives a log that is linked and dated and that the file holds, and nothing is
    -- lost: it begins with all that the log in memory had at that moment, which any task may have
    -- read, and that begins with the log of the start, and no entry is later than the clock; or the
    -- sum of the balance has overflowed in a call before. Writes succeed, every transaction has a
    -- JSON form, which is one line that is read back, and the clock is after the epoch and never
    -- goes backwards.
    pub Reach-Survives :
        (s : System D) (ticks : ℕ) (fates : List Fate)
        → Reach p from s
        → Reopens p
            (Survives clock from s.bank)
            ticks
            (record { content = s.bank.file.content; fates = fates })
          ⊎ HasOverflowed clock total from s
    Reach-Survives s ticks fates r =
        let h = Reach-IsLocked p from r in
        elim (Option-cases s.owner) [
          | inl free ↦ elim (served-IsHealthy p clock total from s.bank healthy (h.free free)) [
            | inl well ↦ inl (free-Survives s.bank ticks fates (h.free free) well)
            | inr over ↦ inr (s.bank, over, inl refl)
          ]
          | inr (i, mine) ↦
              let u = h.owned i mine in
              elim (served-IsHealthy p clock total from u.base healthy u.served) [
                | inl well ↦ inl (Underway-Survives (s.stage i) s.bank ticks fates u well)
                | inr over ↦ inr (u.base, over, inr (i, u.amount, mine, u.progress))
              ]
        ]
