-- ===== src/Bank/Interleaved/Lives.antt =====
-- A server that is killed again and again while tasks share its bank, and started again on its file:
-- `LocalBank` of `server/src/bank.rs`.
use dst_demo.Prelude.{◌⊎◌, inl, inr, arith, some, ◌<◌, ◌≤◌, ◌≡◌, sym, ◌∙◌, ap, [], append-nil, All}
use mathlib.Core.Path.{subst}
use dst_demo.Outcome.{Outcome, ok, Sink}
use dst_demo.Platform.{Platform}
use dst_demo.Platform.Laws.{JsonLaws, ClockLaws, TotalLaws}
use dst_demo.Bank.{Bank}
use dst_demo.Bank.Open.{OpenError, new}
use dst_demo.Bank.Healthy.{IsHealthy}
use dst_demo.Bank.Sound.{Linked}
use dst_demo.Bank.Killed.Reopens.{Reopens}
use dst_demo.Bank.Interleaved.{System, Reach}
use dst_demo.Bank.Interleaved.Killed.{
  Extends, Extends-trans, weaken-Reopens, Survives, HasOverflowed, Reach-Survives,
}

module _ {D : Type 0} (p : Platform D) where
  -- What is left of a bank's file; writes to it succeed.
  abbrev pub left : Bank D → Sink
  left b = record { content = b.file.content; fates = [] }

  -- A bank that was opened on the file of a killed server, which had been so opened, and so on. The
  -- clock goes on.
  pub data Lives (from : Bank D) : Bank D → Type 0 where
    first : Lives from from
    again :
        {b b' : Bank D} {s : System D}
        → Lives from b
        → Reach p b s
        → new p s.bank.ticks (some (left s.bank)) ≡ ok b'
        → Lives from b'

  -- In one of the lives the sum of the balance has overflowed.
  abbrev pub OverflowsInLife : ClockLaws p → TotalLaws p → Bank D → Type 0
  OverflowsInLife clock total from =
      (b : Bank D) × (s : System D) × Lives from b × Reach p b s × HasOverflowed p clock total b s

  module _ (json : JsonLaws p) (clock : ClockLaws p) (total : TotalLaws p) (from : Bank D) where
    -- A bank that can live on, with a log that begins with that of the start.
    record IsAlive (b : Bank D) : Type 0 where
      healthy : IsHealthy p clock total b
      linked : Linked p b.transactions
      dated : All (λ t. 0 < t.created_at) b.transactions
      grown : Extends p from.transactions b.transactions

    reopened-IsAlive :
        (b : Bank D) (s : System D)
        → IsAlive b
        → (r : Reopens p (Survives p clock b s.bank) s.bank.ticks (left s.bank)) → IsAlive r.bank
    reopened-IsAlive b s h r =
        let (before, after, past) = r.log in
        record {
          healthy = record {
            stored = r.stored;
            steady = ap (λ f. f.fates) r.same_file;
            past =
                subst (λ n. All (λ t. t.created_at ≤ clock.time n) r.bank.transactions)
                  (sym r.same_ticks) past;
          };
          linked = r.linked;
          dated = r.dated;
          grown =
              Extends-trans p from.transactions b.transactions r.bank.transactions h.grown (
                Extends-trans p b.transactions s.bank.transactions r.bank.transactions before
                  after);
        }

    same_opened : (b b' : Bank D) → ◌≡◌ {A = Outcome OpenError (Bank D)} (ok b) (ok b') → b ≡ b'
    same_opened b b' e = ground arith

    reopens :
        (b : Bank D) (s : System D)
        → IsAlive b
        → Lives from b
        → Reach p b s
        → Reopens p (Survives p clock b s.bank) s.bank.ticks (left s.bank)
          ⊎ OverflowsInLife clock total from
    reopens b s h l r =
        elim (Reach-Survives p json clock total b h.healthy h.linked h.dated s s.bank.ticks [] r) [
          | inl well ↦ inl well
          | inr over ↦ inr (b, s, l, r, over)
        ]

    again-IsAlive :
        (b b' : Bank D) (s : System D)
        → IsAlive b
        → new p s.bank.ticks (some (left s.bank)) ≡ ok b'
        → Reopens p (Survives p clock b s.bank) s.bank.ticks (left s.bank)
          ⊎ OverflowsInLife clock total from
        → IsAlive b' ⊎ OverflowsInLife clock total from
    again-IsAlive b b' s h e (inr over) = inr over
    again-IsAlive b b' s h e (inl o) =
        inl (subst IsAlive (same_opened o.bank b' (sym o.opens ∙ e)) (reopened-IsAlive b s h o))

    Lives-IsAlive :
        {b : Bank D} → IsAlive from → Lives from b → IsAlive b ⊎ OverflowsInLife clock total from
    Lives-IsAlive h first = inl h
    Lives-IsAlive h (again {b = b} {b' = b'} {s = s} l r e) = elim (Lives-IsAlive h l) [
      | inl k ↦ again-IsAlive b b' s k e (reopens b s k l r)
      | inr over ↦ inr over
    ]

    -- From a bank that its file holds, whose log is linked and dated and not later than the clock:
    -- however often the server is killed and started again on its file, each time at any moment
    -- between two steps of tasks that create and void transactions, interleaved in any way between
    -- their awaits of a lock, and wherever the tasks of the last start stand: the file is opened
    -- again and gives a log that is linked and dated, not later than the clock, and that the file
    -- holds, and nothing is lost: it begins with all that the log in memory has at that moment,
    -- which any task may have read, and that begins with the log of the first start; or in one of
    -- the lives the sum of the balance has overflowed in a call of `create_transaction`. Writes
    -- succeed, every transaction has a JSON form, which is one line that is read back, and the
    -- clock is after the epoch and never goes backwards.
    pub Lives-Survives :
        (b : Bank D) (s : System D)
        → IsHealthy p clock total from
        → Linked p from.transactions
        → All (λ t. 0 < t.created_at) from.transactions
        → Lives from b
        → Reach p b s
        → Reopens p (Survives p clock from s.bank) s.bank.ticks (left s.bank)
          ⊎ OverflowsInLife clock total from
    Lives-Survives b s healthy linked dated l r =
        let start : IsAlive from = record {
          healthy = healthy;
          linked = linked;
          dated = dated;
          grown = ([], sym (append-nil from.transactions));
        } in
        elim (Lives-IsAlive start l) [
          | inr over ↦ inr over
          | inl alive ↦ elim (reopens b s alive l r) [
            | inr over ↦ inr over
            | inl well ↦ inl (
                weaken-Reopens p
                  (λ ts (before, after, past). (
                    Extends-trans p from.transactions b.transactions s.bank.transactions alive.grown
                        before,
                    after,
                    past,
                  ))
                  well)
          ]
        ]
