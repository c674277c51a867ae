-- ===== src/Bank/CurrentId.antt =====
-- What a call of `create_transaction` leaves in `current_id`, however it ends.
use dst_demo.Prelude.{
  ℕ, ◌≡◌, refl, ◌∙◌, ap, some, none, [], ◌∷◌, ◌++◌, arith, Option, get_last?, ltb, leb,
}
use dst_demo.Prelude.Id.{ℤ, add_one}
use dst_demo.Text.{Text}
use dst_demo.Outcome.{panic, Outcome, assert, pure, ◌>>=◌, ◌>>◌, or_throw}
use dst_demo.Outcome.Laws.{>>=-keeps, >>=-returns, >>=-stops}
use dst_demo.Text.Utf8.{into_bytes}
use dst_demo.Transaction.{Transaction}
use dst_demo.Platform.{Platform}
use dst_demo.Bank.{
  Bank, Error, serde_json, write_file, read_clock, assert_follows, take_id, persist,
  check_and_persist, stamp, prepare_transaction, record_transaction, create_transaction,
}
use dst_demo.Bank.Success.{take_id-returns}

module _ {D : Type 0} (p : Platform D) where
  record_transaction-current_id :
      (t : Transaction D) (b : Bank D) → (record_transaction p t b).1.current_id ≡ b.current_id
  unfolding record_transaction
  record_transaction-current_id t b = ground arith

  write_line-current_id :
      (o : Option Text) (b : Bank D)
      → ((or_throw serde_json o >>= λ line. write_file (into_bytes (line ++ b'\n' ∷ [])))
          b).1.current_id
        ≡ b.current_id
  write_line-current_id none b = refl
  write_line-current_id (some line) b = refl

  persist-current_id :
      (t : Transaction D) (b : Bank D) → (persist p t b).1.current_id ≡ b.current_id
  unfolding persist
  persist-current_id t b = write_line-current_id (p.to_json t) b

  assert_follows-current_id :
      (t : Transaction D) (last : Option (Transaction D)) (b : Bank D)
      → (assert_follows p t last b).1.current_id ≡ b.current_id
  unfolding assert_follows
  assert_follows-current_id t none b = refl
  assert_follows-current_id t (some last) b = ground arith

  check_and_persist-current_id :
      (t : Transaction D) (n : ℕ) (b : Bank D)
      → (check_and_persist p t n b).1.current_id ≡ b.current_id
  unfolding check_and_persist
  check_and_persist-current_id t n b =
      >>=-keeps (λ s. s.current_id) (assert_follows p t (get_last? b.transactions))
        (λ _.
          assert (ltb 0 t.created_at) >> (assert (leb t.created_at n) >> (persist p t >> pure t)))
        b (λ _ s. ground (arith, persist-current_id t s))
      ∙ assert_follows-current_id t (get_last? b.transactions) b

  abbrev pub clock_and_store : D → ℤ → Bank D → Outcome Error (Transaction D) × Bank D
  clock_and_store amount id = read_clock p >>= λ n. check_and_persist p (stamp p amount id n) n

  -- However the call ends, the identifier that it took is used up, if it can be incremented.
  pub create_transaction-current_id :
      (amount : D) (b : Bank D) (next : ℤ)
      → add_one p.overflow_checks b.current_id ≡ some next
      → (create_transaction p amount b).1.current_id ≡ next
  unfolding create_transaction prepare_transaction
  create_transaction-current_id amount b next e =
      let b₁ : Bank D = record b { current_id = next } in
      let clock : (read_clock p b₁).1.current_id ≡ next = ground arith in
      >>=-keeps (λ s. s.current_id) (prepare_transaction p amount) (record_transaction p) b
        record_transaction-current_id
      ∙ ap (λ o. o.1.current_id)
          (>>=-returns (take_id p) (clock_and_store amount) b (take_id-returns p b next e))
      ∙ >>=-keeps (λ s. s.current_id) (read_clock p)
          (λ n. check_and_persist p (stamp p amount b.current_id n) n) b₁
          (λ n s. check_and_persist-current_id (stamp p amount b.current_id n) n s)
      ∙ clock

  -- At the largest identifier the call panics at once.
  pub create_transaction_overflow :
      (amount : D) (b : Bank D)
      → add_one p.overflow_checks b.current_id ≡ none
      → create_transaction p amount b ≡ (panic, b)
  unfolding create_transaction prepare_transaction
  create_transaction_overflow amount b over =
      let stop : take_id p b ≡ (panic, b) = unfold take_id in rw (over, take_id) refl in
      >>=-stops (prepare_transaction p amount) (record_transaction p) b
        (>>=-stops (take_id p) (clock_and_store amount) b stop)
