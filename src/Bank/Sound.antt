-- ===== src/Bank/Sound.antt =====
-- Runs of the bank: what holds whatever the calls are and however each of them ends.
use dst_demo.Prelude.{
  ◌<◌, ◌≡◌, refl, sym, ◌∙◌, ap, some, none, [], ◌∷◌, ◌++◌, arith, Option, inl, inr, List, get_last?,
  All, All-append, append_assoc, append-nil, Option-cases,
}
use mathlib.Core.Path.{subst}
use dst_demo.Prelude.Id.{ℤ}
use dst_demo.Transaction.{Transaction}
use dst_demo.Platform.{Platform}
use dst_demo.Bank.{
  Bank, list_transactions, get_transaction, create_transaction, void_transaction, get_balance,
}
use dst_demo.Bank.Create.{Created, Follows}
use dst_demo.Bank.Failure.{Kept, create_transaction_cases}
use dst_demo.Bank.Void.{void_transaction_cases}

-- The calls of the trait `Bank`.
pub data Command (D : Type 0) : Type 0 where
  list : Command D
  get : ℤ → Command D
  create : D → Command D
  void : ℤ → Command D
  balance : Command D

module _ {D : Type 0} (p : Platform D) where
  -- The bank after a call, however the call ended; a panic ends the caller's task only.
  unfoldable pub after : Command D → Bank D → Bank D
  after list b = (list_transactions b).1
  after (get id) b = (get_transaction id b).1
  after (create amount) b = (create_transaction p amount b).1
  after (void id) b = (void_transaction p id b).1
  after balance b = (get_balance b).1

  unfoldable pub run : List (Command D) → Bank D → Bank D
  run [] b = b
  run (c ∷ cs) b = run cs (after c b)

  -- Every entry follows the one before it: its identifier is the next one, as the machine's
  -- addition gives it, and its time is no earlier.
  abbrev pub Linked : List (Transaction D) → Type 0
  Linked [] = Unit
  Linked (t ∷ []) = Unit
  Linked (t ∷ u ∷ ts) = Follows p (some t) u × Linked (u ∷ ts)

  pub Linked-snoc :
      (ts : List (Transaction D)) (t : Transaction D)
      → Linked ts
      → Follows p (get_last? ts) t
      → Linked (ts ++ t ∷ [])
  Linked-snoc [] t h f = tt
  Linked-snoc (u ∷ []) t h f = (f, tt)
  Linked-snoc (u ∷ v ∷ ts) t h f = (h.0, Linked-snoc (v ∷ ts) t h.1 f)

  -- The sum of the amounts, added in order; `none` is an overflow.
  unfoldable pub total_from : D → List (Transaction D) → Option D
  total_from sum [] = some sum
  total_from sum (t ∷ ts) = elim (p.add sum t.amount) [ none ↦ none | some s ↦ total_from s ts ]

  total_from-snoc :
      (sum : D) (ts : List (Transaction D)) (t : Transaction D) {mid last : D}
      → total_from sum ts ≡ some mid
      → p.add mid t.amount ≡ some last
      → total_from sum (ts ++ t ∷ []) ≡ some last
  unfolding total_from
  total_from-snoc sum [] t e f = ground arith
  total_from-snoc sum (u ∷ ts) t e f = elim (Option-cases (p.add sum u.amount)) [
    | inl over ↦ absurd (ground arith)
    | inr (s, fits) ↦ rw (fits, total_from) (total_from-snoc s ts t (ground arith) f)
  ]

  -- A bank that came from `start`: its log is that of `start` with new entries behind it, the
  -- balance has moved by exactly their amounts, and the whole log is linked and dated.
  pub record IsSound (start b : Bank D) : Type 0 where
    pub added : List (Transaction D)
    pub log : b.transactions ≡ start.transactions ++ added
    pub balanced : total_from start.balance added ≡ some b.balance
    pub linked : Linked b.transactions
    pub dated : All (λ t. 0 < t.created_at) b.transactions

  IsSound-Kept : (start b b' : Bank D) → IsSound start b → Kept b b' → IsSound start b'
  IsSound-Kept start b b' h k = record {
    added = h.added;
    log = k.log ∙ h.log;
    balanced = h.balanced ∙ ap some (sym k.balance);
    linked = subst Linked (sym k.log) h.linked;
    dated = subst (All (λ t. 0 < t.created_at)) (sym k.log) h.dated;
  }

  IsSound-Created :
      (start b b' : Bank D) (amount : D) (t : Transaction D)
      → IsSound start b
      → Created p amount b t b'
      → IsSound start b'
  IsSound-Created start b b' amount t h c = record {
    added = h.added ++ t ∷ [];
    log =
        c.pushed
        ∙ (ap (λ ts. ts ++ t ∷ []) h.log ∙ append_assoc start.transactions h.added (t ∷ []));
    balanced = total_from-snoc start.balance h.added t h.balanced (rw c.value c.balance);
    linked = subst Linked (sym c.pushed) (Linked-snoc b.transactions t h.linked c.follows);
    dated =
        subst (All (λ t. 0 < t.created_at)) (sym c.pushed)
          (All-append _ b.transactions (t ∷ []) h.dated (c.dated, tt));
  }

  after-IsSound :
      (start : Bank D) (c : Command D) (b : Bank D) → IsSound start b → IsSound start (after c b)
  unfolding after list_transactions get_transaction get_balance
  after-IsSound start list b h = h
  after-IsSound start (get id) b h = h
  after-IsSound start balance b h = h
  after-IsSound start (create amount) b h = elim (create_transaction_cases p amount b) [
    | inl (t, _, created) ↦ IsSound-Created start b _ amount t h created
    | inr kept ↦ IsSound-Kept start b _ h kept
  ]
  after-IsSound start (void id) b h = elim (void_transaction_cases p id b) [
    | inl (existing, t, _, created) ↦ IsSound-Created start b _ (p.neg existing.amount) t h created
    | inr kept ↦ IsSound-Kept start b _ h kept
  ]

  run_from-IsSound :
      (start : Bank D) (cs : List (Command D)) (b : Bank D)
      → IsSound start b
      → IsSound start (run cs b)
  unfolding run
  run_from-IsSound start [] b h = h
  run_from-IsSound start (c ∷ cs) b h =
      run_from-IsSound start cs (after c b) (after-IsSound start c b h)

  -- Start from a bank whose log is linked and dated and make any calls, whether they return, fail
  -- or panic: the log only grows at its end, stays linked and dated, and the balance has moved by
  -- exactly the amounts of the new entries.
  pub run-IsSound :
      (cs : List (Command D)) (b : Bank D)
      → Linked b.transactions
      → All (λ t. 0 < t.created_at) b.transactions
      → IsSound b (run cs b)
  run-IsSound cs b linked dated =
      let unmoved : total_from b.balance [] ≡ some b.balance = unfold total_from in refl in
      run_from-IsSound b cs b (record {
        added = [];
        log = sym (append-nil b.transactions);
        balanced = unmoved;
        linked = linked;
        dated = dated;
      })
