-- ===== src/Bank/Interleaved/Readers.antt =====
-- What a task reads of the log and the balance while other tasks are at work.
use dst_demo.Prelude.{
  ◌<◌, ℕ, ◌≡◌, refl, sym, ◌∙◌, some, inl, inr, ◌⊎◌, List, ◌++◌, All, Option-cases,
}
use mathlib.Core.Path.{subst}
use dst_demo.Transaction.{Transaction}
use dst_demo.Platform.{Platform}
use dst_demo.Bank.{Bank}
use dst_demo.Bank.Sound.{run-IsSound, IsSound, Linked, total_from}
use dst_demo.Bank.Serves.{Serves}
use dst_demo.Bank.Stages.{
  Stage, idle, finding, waiting, taken, checking, writing, crediting, pushing, finished, IsInside,
}
use dst_demo.Bank.Interleaved.{System, Reach}
use dst_demo.Bank.Interleaved.Between.{Between}
use dst_demo.Bank.Interleaved.Locked.{Reach-IsLocked}

module _ {D : Type 0} (p : Platform D) where
  -- The log has only grown and is linked and dated; the balance is that of its new entries, or it
  -- is ahead by one transaction, which a task is about to push.
  pub record Observes (from : Bank D) (s : System D) : Type 0 where
    pub added : List (Transaction D)
    pub log : s.bank.transactions ≡ from.transactions ++ added
    pub linked : Linked p s.bank.transactions
    pub dated : All (λ t. 0 < t.created_at) s.bank.transactions
    pub sum : D
    pub total : total_from p from.balance added ≡ some sum
    pub balance :
        (s.bank.balance ≡ sum)
        ⊎ ((i : ℕ) × (t : Transaction D) × (s.stage i ≡ pushing t)
            × (p.add sum t.amount ≡ some s.bank.balance))

  -- A bank whose log is that of a sound one.
  same_log :
      (from base : Bank D) (s : System D)
      → IsSound p from base
      → s.bank.transactions ≡ base.transactions
      → (s.bank.balance ≡ base.balance)
        ⊎ ((i : ℕ) × (t : Transaction D) × (s.stage i ≡ pushing t)
            × (p.add base.balance t.amount ≡ some s.bank.balance))
      → Observes from s
  same_log from base s h log balance = record {
    added = h.added;
    log = log ∙ h.log;
    linked = subst (Linked p) (sym log) h.linked;
    dated = subst (All (λ t. 0 < t.created_at)) (sym log) h.dated;
    sum = base.balance;
    total = h.balanced;
    balance = balance;
  }

  Between-Observes :
      (from base : Bank D) (s : System D) (i : ℕ) (st : Stage D)
      → s.stage i ≡ st
      → IsInside st
      → IsSound p from base
      → Between p st base s.bank
      → Observes from s
  Between-Observes from base s i (taken _) at h sound b = same_log from base s sound b.0 (inl b.1)
  Between-Observes from base s i (checking _ _) at h sound b =
      same_log from base s sound b.0 (inl b.1)
  Between-Observes from base s i (writing _) at h sound b = same_log from base s sound b.0 (inl b.1)
  Between-Observes from base s i (crediting _) at h sound b =
      same_log from base s sound b.0 (inl b.1)
  Between-Observes from base s i (pushing t) at h sound b =
      same_log from base s sound b.0 (inr (i, t, at, b.1))
  Between-Observes from base s i idle at h sound b = elim h [ ]
  Between-Observes from base s i (finding _) at h sound b = elim h [ ]
  Between-Observes from base s i (waiting _) at h sound b = elim h [ ]
  Between-Observes from base s i (finished _) at h sound b = elim h [ ]

  Serves-IsSound :
      (from b : Bank D)
      → Serves p from b
      → Linked p from.transactions
      → All (λ t. 0 < t.created_at) from.transactions
      → IsSound p from b
  unfolding Serves
  Serves-IsSound from b (cs, e) linked dated =
      subst (IsSound p from) (sym e) (run-IsSound p cs from linked dated)

  -- Whatever the interleaving, from a bank whose log is linked and dated: what a task reads of the
  -- log at any moment has only grown, is linked and dated, and the balance is that of the entries,
  -- except that it can be ahead by the one transaction that another task is about to push.
  pub Reach-Observes :
      (from : Bank D) (s : System D)
      → Reach p from s
      → Linked p from.transactions
      → All (λ t. 0 < t.created_at) from.transactions
      → Observes from s
  Reach-Observes from s r linked dated =
      let h = Reach-IsLocked p from r in
      elim (Option-cases s.owner) [
        | inl free ↦
            same_log from s.bank s (Serves-IsSound from s.bank (h.free free) linked dated) refl
              (inl refl)
        | inr (i, mine) ↦
            let u = h.owned i mine in
            Between-Observes from u.base s i (s.stage i) refl u.inside
              (Serves-IsSound from u.base u.served linked dated) u.between
      ]
