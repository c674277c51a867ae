-- ===== src/Bank/Stages.antt =====
-- The stages of one call of `create_transaction`, between which other tasks may run: each stage is
-- what the task does after it has been given one of the locks, up to the next `await` of a lock.
use dst_demo.Prelude.{ℕ, ◌≡◌, refl, sym, ◌∙◌, arith, [], ◌∷◌, ◌++◌, get_last?, ltb, leb}
use dst_demo.Prelude.Id.{ℤ}
use dst_demo.Outcome.{Outcome, ok, err, panic, ◌>>=◌, ◌>>◌, pure, gets, modify, unwrap, assert}
use dst_demo.Outcome.Laws.{>>=-ext, >>=_assoc}
use dst_demo.Transaction.{Transaction}
use dst_demo.Platform.{Platform}
use dst_demo.Bank.{
  Bank, BankAction, Error, assert_follows, take_id, read_clock, persist, check_and_persist, stamp,
  prepare_transaction, record_transaction, create_transaction,
}

-- Where a task stands: outside a call; in `void_transaction`, before it reads the log; before it
-- has the lock of `current_id`; with that lock, before the identifier is taken, before the log is
-- read, before the file, the balance and the log are written; and after the call.
pub data Stage (D : Type 0) : Type 0 where
  idle : Stage D
  finding : ℤ → Stage D
  waiting : D → Stage D
  taken : D → Stage D
  checking : Transaction D → ℕ → Stage D
  writing : Transaction D → Stage D
  crediting : Transaction D → Stage D
  pushing : Transaction D → Stage D
  finished : Outcome Error (Transaction D) → Stage D

-- The stages in which the task holds the lock of `current_id`.
abbrev pub IsInside : {D : Type 0} → Stage D → Type 0
IsInside (taken _) = Unit
IsInside (checking _ _) = Unit
IsInside (writing _) = Unit
IsInside (crediting _) = Unit
IsInside (pushing _) = Unit
IsInside _ = ⊥

-- Three guards and a call, with what follows inside or behind them.
regroup_guards :
    {D A : Type 0} (l m n q : BankAction D (Unit {0})) (a : A) (k : A → BankAction D A) (b : Bank D)
    → ((l >> (m >> n)) >>= λ _. q >>= λ _. k a) b ≡ ((l >> (m >> (n >> (q >> pure a)))) >>= k) b
regroup_guards {D} l m n q a k b =
    >>=_assoc l (λ _. m >> n) (λ _. q >>= λ _. k a) b
    ∙ >>=-ext l (λ _. (m >> n) >>= λ _. q >>= λ _. k a) (λ _. (m >> (n >> (q >> pure a))) >>= k) b
        (λ _ s.
          >>=_assoc m (λ _. n) (λ _. q >>= λ _. k a) s
          ∙ >>=-ext m (λ _. n >>= λ _. q >>= λ _. k a) (λ _. (n >> (q >> pure a)) >>= k) s
              (λ _ s'. inner s')
          ∙ sym (>>=_assoc m (λ _. n >> (q >> pure a)) k s))
    ∙ sym (>>=_assoc l (λ _. m >> (n >> (q >> pure a))) k b)
  where
    inner : (s : Bank D) → (n >>= λ _. q >>= λ _. k a) s ≡ ((n >> (q >> pure a)) >>= k) s
    inner s =
        >>=-ext n (λ _. q >>= λ _. k a) (λ _. (q >> pure a) >>= k) s
          (λ _ s'. sym (>>=_assoc q (λ _. pure a) k s'))
        ∙ sym (>>=_assoc n (λ _. q >> pure a) k s)

module _ {D : Type 0} (p : Platform D) where
  abbrev pub take_and_stamp : D → BankAction D (Transaction D × ℕ)
  take_and_stamp amount = do id ← take_id p; n ← read_clock p; pure (stamp p amount id n, n)

  abbrev pub check : Transaction D → ℕ → BankAction D (Unit {0})
  check t n = do
    last ← gets (λ b. get_last? b.transactions)
    assert_follows p t last
    assert (ltb 0 t.created_at)
    assert (leb t.created_at n)

  abbrev pub credit : Transaction D → BankAction D (Unit {0})
  credit t = do
    balance ← gets (λ b. b.balance)
    balance' ← unwrap (p.add balance t.amount)
    modify (λ b. record b { balance = balance' })

  abbrev pub push : Transaction D → BankAction D (Unit {0})
  push t = modify (λ b. record b { transactions = b.transactions ++ t ∷ [] })

  -- What a task with the lock does next.
  unfoldable pub advance : Stage D → BankAction D (Stage D)
  advance (taken amount) = take_and_stamp amount >>= λ r. pure (checking r.0 r.1)
  advance (checking t n) = check t n >>= λ _. pure (writing t)
  advance (writing t) = persist p t >>= λ _. pure (crediting t)
  advance (crediting t) = credit t >>= λ _. pure (pushing t)
  advance (pushing t) = push t >>= λ _. pure (finished (ok t))
  advance idle = pure idle
  advance (finding id) = pure (finding id)
  advance (waiting amount) = pure (waiting amount)
  advance (finished o) = pure (finished o)

  -- An error or a panic ends the call.
  abbrev pub settle : Outcome Error (Stage D) → Stage D
  settle (ok s) = s
  settle (err e) = finished (err e)
  settle panic = finished panic

  -- What is left of the call, if no other task runs.
  unfoldable pub resume : Stage D → BankAction D (Transaction D)
  resume (taken amount) = create_transaction p amount
  resume (checking t n) = check_and_persist p t n >>= record_transaction p
  resume (writing t) = persist p t >>= λ _. record_transaction p t
  resume (crediting t) = record_transaction p t
  resume (pushing t) = push t >>= λ _. pure t
  resume (finished o) = λ b. (o, b)
  resume idle = λ b. (panic, b)
  resume (finding id) = λ b. (panic, b)
  resume (waiting amount) = λ b. (panic, b)

  -- After a stage the rest of the call is left.
  settle-resume :
      {A : Type 0} (o : Outcome Error A × Bank D) (k : A → Stage D) (b : Bank D)
      → (let (r, b') = ((λ (_ : Bank D). o) >>= λ a. pure (k a)) b in resume (settle r) b')
        ≡ ((λ (_ : Bank D). o) >>= λ a. resume (k a)) b
  unfolding resume
  settle-resume (ok a, b') k b = refl
  settle-resume (err e, b') k b = refl
  settle-resume (panic, b') k b = refl

  after_taking :
      (amount : D) (b : Bank D)
      → (take_and_stamp amount >>= λ r. check_and_persist p r.0 r.1 >>= record_transaction p) b
        ≡ create_transaction p amount b
  unfolding create_transaction prepare_transaction
  after_taking amount b =
      let stored = λ (id : ℤ) (n : ℕ). check_and_persist p (stamp p amount id n) n in
      let rest = λ (r : Transaction D × ℕ). check_and_persist p r.0 r.1 >>= record_transaction p in
      let stamped = λ (id : ℤ). read_clock p >>= λ n. pure (stamp p amount id n, n) in
      >>=_assoc (take_id p) stamped rest b
      ∙ >>=-ext (take_id p) (λ id. stamped id >>= rest)
          (λ id. (read_clock p >>= stored id) >>= record_transaction p) b
          (λ id s.
            >>=_assoc (read_clock p) (λ n. pure (stamp p amount id n, n)) rest s
            ∙ sym (>>=_assoc (read_clock p) (stored id) (record_transaction p) s))
      ∙ sym (>>=_assoc (take_id p) (λ id. read_clock p >>= stored id) (record_transaction p) b)

  after_checking :
      (t : Transaction D) (n : ℕ) (b : Bank D)
      → (check t n >>= λ _. persist p t >>= λ _. record_transaction p t) b
        ≡ (check_and_persist p t n >>= record_transaction p) b
  unfolding check_and_persist
  after_checking t n b =
      regroup_guards (assert_follows p t (get_last? b.transactions)) (assert (ltb 0 t.created_at))
        (assert (leb t.created_at n)) (persist p t) t (record_transaction p) b

  after_crediting :
      (t : Transaction D) (b : Bank D)
      → (credit t >>= λ _. push t >>= λ _. pure t) b ≡ record_transaction p t b
  unfolding record_transaction
  after_crediting t b = ground arith

  -- A stage and the rest of the call are the call.
  pub advance-resume :
      (s : Stage D) (b : Bank D)
      → IsInside s
      → (let (r, b') = advance s b in resume (settle r) b') ≡ resume s b
  unfolding advance resume
  advance-resume (taken amount) b h =
      settle-resume (take_and_stamp amount b) _ b ∙ after_taking amount b
  advance-resume (checking t n) b h = settle-resume (check t n b) _ b ∙ after_checking t n b
  advance-resume (writing t) b h = settle-resume (persist p t b) _ b
  advance-resume (crediting t) b h = settle-resume (credit t b) _ b ∙ after_crediting t b
  advance-resume (pushing t) b h = refl
  advance-resume idle b h = elim h [ ]
  advance-resume (finding _) b h = elim h [ ]
  advance-resume (waiting _) b h = elim h [ ]
  advance-resume (finished _) b h = elim h [ ]
