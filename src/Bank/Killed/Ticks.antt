-- ===== src/Bank/Killed/Ticks.antt =====
-- The clock in the course of a call of `create_transaction`: `server/src/bank.rs`.
use dst_demo.Prelude.{◌≤◌, arith, Option, some, none, get_last?, leb, ltb, ap}
use dst_demo.Outcome.{assert, ◌>>=◌, ◌>>◌, pure}
use dst_demo.Outcome.Laws.{>>=-related}
use dst_demo.Transaction.{Transaction}
use dst_demo.Platform.{Platform}
use dst_demo.Bank.{Bank, BankAction, stamp, take_id, read_clock, assert_follows, persist}
use dst_demo.Bank.Stages.{
  Stage, idle, finding, waiting, taken, checking, writing, crediting, pushing, finished, advance,
  take_and_stamp, check,
}
use dst_demo.Bank.Killed.{Work, begun, goes}

module _ {D : Type 0} (p : Platform D) where
  chain-ticks :
      {A B : Type 0} (m : BankAction D A) (f : A → BankAction D B) (b : Bank D)
      → b.ticks ≤ (m b).1.ticks
      → ((a : A) (s : Bank D) → s.ticks ≤ (f a s).1.ticks)
      → b.ticks ≤ ((m >>= f) b).1.ticks
  chain-ticks m f b h k =
      >>=-related (λ s s'. s.ticks ≤ s'.ticks) m f b (λ x y z e g. omega arith) h k

  take_id-ticks : (b : Bank D) → b.ticks ≤ (take_id p b).1.ticks
  unfolding take_id
  take_id-ticks b = ground arith

  assert_follows-ticks :
      (t : Transaction D) (last : Option (Transaction D)) (b : Bank D)
      → b.ticks ≤ (assert_follows p t last b).1.ticks
  unfolding assert_follows
  assert_follows-ticks t none b = ground arith
  assert_follows-ticks t (some last) b = ground arith

  persist-ticks : (t : Transaction D) (b : Bank D) → b.ticks ≤ (persist p t b).1.ticks
  unfolding persist
  persist-ticks t b = ground arith

  advance-ticks : (s : Stage D) (b : Bank D) → b.ticks ≤ (advance p s b).1.ticks
  unfolding advance
  advance-ticks (taken amount) b =
      chain-ticks (take_and_stamp p amount) (λ r. pure (checking r.0 r.1)) b
        (chain-ticks (take_id p) (λ id. read_clock p >>= λ n. pure (stamp p amount id n, n)) b
          (take_id-ticks b) λ id s. ground arith)
        λ r s. ground arith
  advance-ticks (checking t n) b =
      chain-ticks (check p t n) (λ _. pure (writing t)) b
        (chain-ticks (assert_follows p t (get_last? b.transactions))
          (λ _. assert (ltb 0 t.created_at) >> assert (leb t.created_at n)) b
          (assert_follows-ticks t _ b) λ _ s. ground arith)
        λ _ s. ground arith
  advance-ticks (writing t) b =
      chain-ticks (persist p t) (λ _. pure (crediting t)) b (persist-ticks t b) λ _ s. ground arith
  advance-ticks (crediting t) b = ground arith
  advance-ticks (pushing t) b = ground arith
  advance-ticks idle b = omega arith
  advance-ticks (finding id) b = omega arith
  advance-ticks (waiting amount) b = omega arith
  advance-ticks (finished o) b = omega arith

  -- A call only adds readings of the clock.
  pub Work-ticks :
      (amount : D) (b : Bank D) {s : Stage D} {b' : Bank D}
      → Work p amount b s b'
      → b.ticks ≤ b'.ticks
  Work-ticks amount b begun = omega arith
  Work-ticks amount b (goes {s = s} {b' = b'} {b'' = b''} {r = r} w e) =
      let before = Work-ticks amount b w in
      omega (arith, before, advance-ticks s b', ap (λ o. o.1.ticks) e)
