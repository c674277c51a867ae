-- ===== src/Bank/Interleaved/Between.antt =====
-- What other tasks see of the bank while a call of `create_transaction` is under way.
use dst_demo.Prelude.{ℕ, ◌≡◌, refl, ◌∙◌, Option, none, some, get_last?, ltb, leb}
use dst_demo.Outcome.{Outcome, ok, err, panic, ◌>>=◌, ◌>>◌, pure, assert, unwrap, modify}
use dst_demo.Transaction.{Transaction}
use dst_demo.Platform.{Platform}
use dst_demo.Bank.{Bank, Error, assert_follows, take_id, read_clock, persist, stamp}
use dst_demo.Bank.Failure.{
  Kept, >>=-Kept, take_id-Kept, read_clock-Kept, assert_follows-Kept, assert-Kept, persist-Kept,
  Kept-refl,
}
use dst_demo.Bank.Stages.{
  Stage, idle, finding, waiting, taken, checking, writing, crediting, pushing, finished, IsInside,
  advance, settle, take_and_stamp, check,
}

module _ {D : Type 0} (p : Platform D) where
  -- How the bank differs from that at which the lock was taken.
  abbrev pub Between : Stage D → Bank D → Bank D → Type 0
  Between (taken _) base b = (b.transactions ≡ base.transactions) × (b.balance ≡ base.balance)
  Between (checking _ _) base b = (b.transactions ≡ base.transactions) × (b.balance ≡ base.balance)
  Between (writing _) base b = (b.transactions ≡ base.transactions) × (b.balance ≡ base.balance)
  Between (crediting _) base b = (b.transactions ≡ base.transactions) × (b.balance ≡ base.balance)
  Between (pushing t) base b =
      (b.transactions ≡ base.transactions) × (p.add base.balance t.amount ≡ some b.balance)
  Between _ base b = Unit

  after-Kept :
      {A : Type 0} (o : Outcome Error A × Bank D) (k : A → Stage D) (base b : Bank D)
      → Kept b o.1
      → (b.transactions ≡ base.transactions) × (b.balance ≡ base.balance)
      → ((a : A) (b' : Bank D)
          → (b'.transactions ≡ base.transactions) × (b'.balance ≡ base.balance)
          → Between (k a) base b')
      → (let (r, b') = ((λ (_ : Bank D). o) >>= λ a. pure (k a)) b in Between (settle p r) base b')
  after-Kept (ok a, b') k base b h same f = f a b' (h.log ∙ same.0, h.balance ∙ same.1)
  after-Kept (err e, b') k base b h same f = tt
  after-Kept (panic, b') k base b h same f = tt

  take_and_stamp-Kept : (amount : D) (b : Bank D) → Kept b (take_and_stamp p amount b).1
  take_and_stamp-Kept amount b =
      >>=-Kept (take_id p) (λ id. read_clock p >>= λ n. pure (stamp p amount id n, n)) b
        (take_id-Kept p b)
        λ id s.
          >>=-Kept (read_clock p) (λ n. pure (stamp p amount id n, n)) s (read_clock-Kept p s)
            λ n s'. Kept-refl s'

  check-Kept : (t : Transaction D) (n : ℕ) (b : Bank D) → Kept b (check p t n b).1
  check-Kept t n b =
      >>=-Kept (assert_follows p t (get_last? b.transactions))
        (λ _. assert (ltb 0 t.created_at) >> assert (leb t.created_at n)) b
        (assert_follows-Kept p t _ b)
        λ _ s.
          >>=-Kept (assert (ltb 0 t.created_at)) (λ _. assert (leb t.created_at n)) s
            (assert-Kept _ s) λ _ s'. assert-Kept _ s'

  credited :
      (t : Transaction D) (base b : Bank D) (o : Option D)
      → p.add b.balance t.amount ≡ o
      → (b.transactions ≡ base.transactions) × (b.balance ≡ base.balance)
      → (let (r, b') =
            ((unwrap o >>= λ balance. modify (λ s. record s { balance = balance })) >>= λ _.
            pure (pushing t))
              b in
          Between (settle p r) base b')
  credited t base b none e same = tt
  credited t base b (some balance) e same = (same.0, rw (← same.1) e)

  -- Each stage leaves the bank as the next one expects it.
  pub advance-Between :
      (st : Stage D) (base b : Bank D)
      → IsInside st
      → Between st base b
      → (let (r, b') = advance p st b in Between (settle p r) base b')
  unfolding advance
  advance-Between (taken amount) base b h same =
      after-Kept (take_and_stamp p amount b) (λ r. checking r.0 r.1) base b
        (take_and_stamp-Kept amount b) same λ _ _ k. k
  advance-Between (checking t n) base b h same =
      after-Kept (check p t n b) (λ _. writing t) base b (check-Kept t n b) same λ _ _ k. k
  advance-Between (writing t) base b h same =
      after-Kept (persist p t b) (λ _. crediting t) base b (persist-Kept p t b) same λ _ _ k. k
  advance-Between (crediting t) base b h same =
      credited t base b (p.add b.balance t.amount) refl same
  advance-Between (pushing t) base b h same = tt
  advance-Between idle base b h same = elim h [ ]
  advance-Between (finding _) base b h same = elim h [ ]
  advance-Between (waiting _) base b h same = elim h [ ]
  advance-Between (finished _) base b h same = elim h [ ]
