-- ===== src/Bank/Broken.antt =====
-- After a call of `create_transaction` has failed behind the increment of `current_id`.
use dst_demo.Prelude.{
  ℕ, suc, ◌≡◌, ◌≢◌, refl, ◌∙◌, ap, some, [], ◌∷◌, arith, inl, inr, List, get_last?, Option-cases,
  true, false, ltb, leb,
}
use mathlib.Core.Path.{subst}
use dst_demo.Prelude.Id.{
  ℤ, eq_ℤ, add_one, suc_ℤ, IsBelow, IsBelow-suc_ℤ, IsBelow-trans, add_one-eq, eq_ℤ_of_IsBelow,
}
use dst_demo.Outcome.{ok, panic, assert, pure, ◌>>◌}
use dst_demo.Outcome.Laws.{>>=-panics, >>=-returns}
use dst_demo.Transaction.{Transaction}
use dst_demo.Platform.{Platform}
use dst_demo.Bank.{
  Bank, read_clock, assert_follows, take_id, persist, check_and_persist, stamp, prepare_transaction,
  record_transaction, create_transaction, void_transaction, list_transactions, get_transaction,
  get_balance,
}
use dst_demo.Bank.Success.{take_id-returns}
use dst_demo.Bank.CurrentId.{
  clock_and_store, create_transaction-current_id, create_transaction_overflow,
}
use dst_demo.Bank.Failure.{Kept, Kept-refl, Kept-trans, create_transaction_cases}
use dst_demo.Bank.Void.{void_transaction-state}
use dst_demo.Bank.Sound.{Command, list, get, create, void, balance, after, run}

module _ {D : Type 0} (p : Platform D) where
  -- The next identifier is past the one that the last entry asks for.
  pub record IsAhead (b : Bank D) : Type 0 where
    pub last : Transaction D
    pub is_last : get_last? b.transactions ≡ some last
    pub ahead : IsBelow (suc_ℤ last.id) b.current_id

module _ {D : Type 0} (p : Platform D) (checked : p.overflow_checks ≡ true) where
  step-eq : (x y : ℤ) → add_one p.overflow_checks x ≡ some y → y ≡ suc_ℤ x
  step-eq x y e = add_one-eq x y (subst (λ c. add_one c x ≡ some y) checked e)

  assert_follows-panics :
      (t last : Transaction D) (b : Bank D)
      → IsBelow (suc_ℤ last.id) t.id
      → (assert_follows p t (some last) b).0 ≡ panic
  unfolding assert_follows
  assert_follows-panics t last b h = elim (Option-cases (add_one true last.id)) [
    | inl over ↦ rw checked (ground arith)
    | inr (next, e) ↦
        let late : eq_ℤ t.id next ≡ false =
          rw (add_one-eq last.id next e) (eq_ℤ_of_IsBelow (suc_ℤ last.id) t.id h) in
        rw checked (ground arith)
  ]

  check_and_persist-panics :
      (t : Transaction D) (n : ℕ) (b : Bank D) (last : Transaction D)
      → get_last? b.transactions ≡ some last
      → IsBelow (suc_ℤ last.id) t.id
      → (check_and_persist p t n b).0 ≡ panic
  unfolding check_and_persist
  check_and_persist-panics t n b last e h =
      >>=-panics (assert_follows p t (get_last? b.transactions))
        (λ _.
          assert (ltb 0 t.created_at) >> (assert (leb t.created_at n) >> (persist p t >> pure t)))
        b (rw e (assert_follows-panics t last b h))

  prepare_transaction-panics :
      (amount : D) (b : Bank D) → IsAhead p b → (prepare_transaction p amount b).0 ≡ panic
  unfolding prepare_transaction
  prepare_transaction-panics amount b h =
      elim (Option-cases (add_one p.overflow_checks b.current_id)) [
        | inl over ↦
            let stop : (take_id p b).0 ≡ panic = unfold take_id in rw (over, take_id) refl in
            >>=-panics (take_id p) (clock_and_store p amount) b stop
        | inr (next, e) ↦
            let b₁ : Bank D = record b { current_id = next } in
            ap (λ o. o.0)
              (>>=-returns (take_id p) (clock_and_store p amount) b (take_id-returns p b next e))
            ∙ elim (Option-cases (p.now b.ticks)) [
              | inl early ↦
                  let stop : (read_clock p b₁).0 ≡ panic = ground arith in
                  >>=-panics (read_clock p)
                    (λ n. check_and_persist p (stamp p amount b.current_id n) n) b₁ stop
              | inr (n, now) ↦
                  let b₂ : Bank D = record b₁ { ticks = suc b.ticks } in
                  let read : read_clock p b₁ ≡ (ok n, b₂) = ground arith in
                  ap (λ o. o.0)
                    (>>=-returns (read_clock p)
                      (λ n. check_and_persist p (stamp p amount b.current_id n) n) b₁ read)
                  ∙ check_and_persist-panics (stamp p amount b.current_id n) n b₂ h.last h.is_last
                      h.ahead
            ]
      ]

  create_transaction-panics :
      (amount : D) (b : Bank D) → IsAhead p b → (create_transaction p amount b).0 ≡ panic
  unfolding create_transaction
  create_transaction-panics amount b h =
      >>=-panics (prepare_transaction p amount) (record_transaction p) b
        (prepare_transaction-panics amount b h)

  create_transaction-Kept :
      (amount : D) (b : Bank D) → IsAhead p b → Kept b (create_transaction p amount b).1
  create_transaction-Kept amount b h = elim (create_transaction_cases p amount b) [
    | inr kept ↦ kept
    | inl (t, returned, _) ↦
        let stop = create_transaction-panics amount b h in absurd (ground arith)
  ]

  further :
      (id next last : ℤ)
      → add_one p.overflow_checks id ≡ some next
      → IsBelow (suc_ℤ last) id
      → IsBelow (suc_ℤ last) next
  further id next last counts h =
      let e : next ≡ suc_ℤ id = step-eq id next counts in
      rw e (IsBelow-trans (suc_ℤ last) id (suc_ℤ id) h (IsBelow-suc_ℤ id))

  -- The identifier only moves further away.
  create_transaction-IsAhead :
      (amount : D) (b : Bank D) → IsAhead p b → IsAhead p (create_transaction p amount b).1
  create_transaction-IsAhead amount b h =
      let moved : IsBelow (suc_ℤ h.last.id) (create_transaction p amount b).1.current_id =
        elim (Option-cases (add_one p.overflow_checks b.current_id)) [
          | inl over ↦ rw (create_transaction_overflow p amount b over) h.ahead
          | inr (next, counts) ↦
              rw (create_transaction-current_id p amount b next counts)
                (further b.current_id next h.last.id counts h.ahead)
        ] in
      record {
        last = h.last;
        is_last = ap get_last? (create_transaction-Kept amount b h).log ∙ h.is_last;
        ahead = moved;
      }

  void_transaction-Kept :
      (id : ℤ) (b : Bank D)
      → IsAhead p b
      → Kept b (void_transaction p id b).1 × IsAhead p (void_transaction p id b).1
  void_transaction-Kept id b h = elim (void_transaction-state p id b) [
    | inl same ↦ rw same (Kept-refl b, h)
    | inr (amount, same) ↦
        rw same (create_transaction-Kept amount b h, create_transaction-IsAhead amount b h)
  ]

  after-IsAhead :
      (c : Command D) (b : Bank D) → IsAhead p b → Kept b (after p c b) × IsAhead p (after p c b)
  unfolding after list_transactions get_transaction get_balance
  after-IsAhead list b h = (Kept-refl b, h)
  after-IsAhead (get id) b h = (Kept-refl b, h)
  after-IsAhead balance b h = (Kept-refl b, h)
  after-IsAhead (create amount) b h =
      (create_transaction-Kept amount b h, create_transaction-IsAhead amount b h)
  after-IsAhead (void id) b h = void_transaction-Kept id b h

  run-IsAhead :
      (cs : List (Command D)) (b : Bank D)
      → IsAhead p b
      → Kept b (run p cs b) × IsAhead p (run p cs b)
  unfolding run
  run-IsAhead [] b h = (Kept-refl b, h)
  run-IsAhead (c ∷ cs) b h =
      let (kept, still) = after-IsAhead c b h in
      let (kept', at_end) = run-IsAhead cs (after p c b) still in
      (Kept-trans b (after p c b) (run p cs (after p c b)) kept kept', at_end)

  failed-Kept :
      (amount : D) (b : Bank D)
      → ((t : Transaction D) → (create_transaction p amount b).0 ≢ ok t)
      → Kept b (create_transaction p amount b).1
  failed-Kept amount b fails = elim (create_transaction_cases p amount b) [
    | inr kept ↦ kept
    | inl (t, returned, _) ↦ absurd (fails t returned)
  ]

  -- In a build that checks overflow: if a call of `create_transaction` does not return, on a bank
  -- that has transactions and whose next identifier is the last one's successor and can itself be
  -- incremented, then every later call of `create_transaction` panics, and no calls at all change
  -- the log or the balance again.
  pub failed_create_stops :
      (amount : D) (b : Bank D) (last : Transaction D) (next : ℤ)
      → get_last? b.transactions ≡ some last
      → add_one p.overflow_checks last.id ≡ some b.current_id
      → add_one p.overflow_checks b.current_id ≡ some next
      → ((t : Transaction D) → (create_transaction p amount b).0 ≢ ok t)
      → (cs : List (Command D)) (amount' : D)
      → let b' = run p cs (create_transaction p amount b).1 in
        ((create_transaction p amount' b').0 ≡ panic)
        × (b'.transactions ≡ b.transactions)
        × (b'.balance ≡ b.balance)
  failed_create_stops amount b last next is_last in_step counts fails cs amount' =
      let b₁ : Bank D = (create_transaction p amount b).1 in
      let kept = failed-Kept amount b fails in
      let follows : b.current_id ≡ suc_ℤ last.id = step-eq last.id b.current_id in_step in
      let next-eq : next ≡ suc_ℤ b.current_id = step-eq b.current_id next counts in
      let past : IsBelow (suc_ℤ last.id) b₁.current_id =
        rw (create_transaction-current_id p amount b next counts, next-eq, follows)
          (IsBelow-suc_ℤ (suc_ℤ last.id)) in
      let ahead : IsAhead p b₁ = record {
        last = last;
        is_last = ap get_last? kept.log ∙ is_last;
        ahead = past;
      } in
      let (kept', still) = run-IsAhead cs b₁ ahead in
      (
        create_transaction-panics amount' (run p cs b₁) still,
        kept'.log ∙ kept.log,
        kept'.balance ∙ kept.balance,
      )
