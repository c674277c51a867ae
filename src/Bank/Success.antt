-- ===== src/Bank/Success.antt =====
-- When `create_transaction` returns.
use dst_demo.Prelude.{
  ℕ, suc, ◌<◌, ◌≡◌, refl, ◌∙◌, ap, some, [], ◌∷◌, ◌++◌, get_last?, arith, true, ltb, leb, Option,
  none,
}
use dst_demo.Prelude.Id.{ℤ, add_one, eq_ℤ_refl}
use dst_demo.Text.{Text}
use dst_demo.Text.Utf8.{into_bytes}
use dst_demo.Outcome.Laws.{>>=-returns}
use dst_demo.Outcome.{◌>>=◌, ◌>>◌, pure, assert, ok, write_all}
use dst_demo.Transaction.{Transaction}
use dst_demo.Platform.{Platform}
use dst_demo.Bank.{
  Bank, read_clock, assert_follows, take_id, persist, check_and_persist, stamp, prepare_transaction,
  record_transaction, create_transaction,
}
use dst_demo.Bank.Create.{Follows}

module _ {D : Type 0} (p : Platform D) where
  -- What a call of `create_transaction` needs of the bank, of the clock and of the libraries.
  pub record Ready (amount : D) (b : Bank D) : Type 0 where
    pub next : ℤ
    pub counts : add_one p.overflow_checks b.current_id ≡ some next
    pub time : ℕ
    pub reads : p.now b.ticks ≡ some time
    pub follows : Follows p (get_last? b.transactions) (stamp p amount b.current_id time)
    pub dated : 0 < time
    pub line : Text
    pub serializes : p.to_json (stamp p amount b.current_id time) ≡ some line
    pub writes : (write_all (into_bytes (line ++ b'\n' ∷ [])) b.file).0 ≡ true
    pub sum : D
    pub adds : p.add b.balance amount ≡ some sum

  pub take_id-returns :
      (b : Bank D) (next : ℤ)
      → add_one p.overflow_checks b.current_id ≡ some next
      → take_id p b ≡ (ok b.current_id, record b { current_id = next })
  unfolding take_id
  take_id-returns b next e = rw (e, take_id)

  assert_follows-returns :
      (t : Transaction D) (last : Option (Transaction D)) (b : Bank D)
      → Follows p last t
      → assert_follows p t last b ≡ (ok tt, b)
  unfolding assert_follows
  assert_follows-returns t none b h = refl
  assert_follows-returns t (some last) b h = ground (arith, eq_ℤ_refl t.id)

  persist-returns :
      (t : Transaction D) (b : Bank D) (line : Text)
      → p.to_json t ≡ some line
      → (write_all (into_bytes (line ++ b'\n' ∷ [])) b.file).0 ≡ true
      → persist p t b
        ≡ (ok tt, record b { file = (write_all (into_bytes (line ++ b'\n' ∷ [])) b.file).1 })
  unfolding persist
  persist-returns t b line e w = ground arith

  check_and_persist-returns :
      (t : Transaction D) (b : Bank D) (line : Text)
      → Follows p (get_last? b.transactions) t
      → 0 < t.created_at
      → p.to_json t ≡ some line
      → (write_all (into_bytes (line ++ b'\n' ∷ [])) b.file).0 ≡ true
      → check_and_persist p t t.created_at b
        ≡ (ok t, record b { file = (write_all (into_bytes (line ++ b'\n' ∷ [])) b.file).1 })
  unfolding check_and_persist
  check_and_persist-returns t b line follows dated json done =
      let store = λ (s : Bank D). (persist p t >> pure t) s in
      let asserts =
        assert (ltb 0 t.created_at) >> (assert (leb t.created_at t.created_at) >> store) in
      let dated' : ltb 0 t.created_at ≡ true = ground arith in
      let equal : leb t.created_at t.created_at ≡ true = ground arith in
      >>=-returns (assert_follows p t (get_last? b.transactions)) (λ _. asserts) b
        (assert_follows-returns t _ b follows)
      ∙ rw (dated', equal)
          (>>=-returns (persist p t) (λ _. pure t) b (persist-returns t b line json done))

  prepare_transaction-returns :
      (amount : D) (b : Bank D) (r : Ready amount b) (s : Bank D)
      → check_and_persist p
          (stamp p amount b.current_id r.time)
          r.time
          (record b { current_id = r.next; ticks = suc b.ticks })
        ≡ (ok (stamp p amount b.current_id r.time), s)
      → prepare_transaction p amount b ≡ (ok (stamp p amount b.current_id r.time), s)
  unfolding prepare_transaction
  prepare_transaction-returns amount b r s e =
      let b₁ : Bank D = record b { current_id = r.next } in
      let b₂ : Bank D = record b₁ { ticks = suc b.ticks } in
      let read : read_clock p b₁ ≡ (ok r.time, b₂) = ground arith in
      >>=-returns (take_id p)
        (λ id. read_clock p >>= λ n. check_and_persist p (stamp p amount id n) n) b
        (take_id-returns b r.next r.counts)
      ∙ >>=-returns (read_clock p) (λ n. check_and_persist p (stamp p amount b.current_id n) n) b₁
          read
      ∙ e

  record_transaction-returns :
      (t : Transaction D) (b : Bank D) {sum : D}
      → p.add b.balance t.amount ≡ some sum
      → record_transaction p t b
        ≡ (ok t, record b { balance = sum; transactions = b.transactions ++ t ∷ [] })
  unfolding record_transaction
  record_transaction-returns t b e = rw (e, record_transaction)

  -- The bank behind such a call.
  abbrev pub created : (amount : D) (b : Bank D) → Ready amount b → Bank D
  created amount b r = record {
    file = (write_all (into_bytes (r.line ++ b'\n' ∷ [])) b.file).1;
    transactions = b.transactions ++ stamp p amount b.current_id r.time ∷ [];
    current_id = r.next;
    balance = r.sum;
    ticks = suc b.ticks;
  }

  pub create_transaction-created :
      (amount : D) (b : Bank D) (r : Ready amount b)
      → create_transaction p amount b
        ≡ (ok (stamp p amount b.current_id r.time), created amount b r)
  unfolding create_transaction
  create_transaction-created amount b r =
      let t = stamp p amount b.current_id r.time in
      let b₂ : Bank D = record b { current_id = r.next; ticks = suc b.ticks } in
      let b₃ : Bank D = record b₂ {
        file = (write_all (into_bytes (r.line ++ b'\n' ∷ [])) b.file).1;
      } in
      let stored = check_and_persist-returns t b₂ r.line r.follows r.dated r.serializes r.writes in
      >>=-returns (prepare_transaction p amount) (record_transaction p) b
        (prepare_transaction-returns amount b r b₃ stored)
      ∙ record_transaction-returns t b₃ r.adds

  -- A call returns the stamped transaction, if the identifier can be incremented, the clock is past
  -- the epoch and not before the last transaction, the last transaction has the identifier before
  -- it, and the JSON, the write and the sum of the balance succeed.
  pub create_transaction-returns :
      (amount : D) (b : Bank D) (r : Ready amount b)
      → (create_transaction p amount b).0 ≡ ok (stamp p amount b.current_id r.time)
  create_transaction-returns amount b r = ap (λ o. o.0) (create_transaction-created amount b r)
