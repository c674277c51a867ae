-- ===== src/Bank/Void.antt =====
-- `void_transaction`: the entry that undoes another.
use dst_demo.Prelude.{
  ℕ, ◌≤◌, ◌≡◌, refl, some, none, arith, leb, Option, ◌⊎◌, inl, inr, Option-cases,
}
use dst_demo.Prelude.Id.{ℤ}
use dst_demo.Outcome.{ok, assert, pure, ◌>>=◌, ◌>>◌, Outcome, err, panic}
use dst_demo.Outcome.Laws.{>>=-ok}
use dst_demo.Transaction.{Transaction}
use dst_demo.Platform.{Platform}
use dst_demo.Bank.{Bank, Error, find, create_transaction, void_found, void_transaction}
use dst_demo.Bank.Create.{Created, create_transaction-Created}
use dst_demo.Bank.Failure.{Kept, Kept-refl, create_transaction_cases}

module _ {D : Type 0} (p : Platform D) where
  after_create :
      (t : Transaction D) (n : ℕ) (b b' : Bank D) (r : Option (Transaction D))
      → (assert {E = Error} (leb n t.created_at) >> pure (some t)) b ≡ (ok r, b')
      → (r ≡ some t) × (n ≤ t.created_at) × (b' ≡ b)
  after_create t n b b' r e = ground arith

  -- A call that returns an entry found the transaction with this identifier, and created an entry
  -- of the negated amount that is no older, as `create_transaction` does; one that returns nothing
  -- found none and changed nothing.
  pub void_transaction-Created :
      (id : ℤ) (b : Bank D) (r : Option (Transaction D)) (b' : Bank D)
      → void_transaction p id b ≡ (ok r, b')
      → ((existing : Transaction D) × (t : Transaction D) × (find id b.transactions ≡ some existing)
          × (r ≡ some t)
          × (existing.created_at ≤ t.created_at)
          × Created p (p.neg existing.amount) b t b')
        ⊎ ((find id b.transactions ≡ none) × (r ≡ none) × (b' ≡ b))
  unfolding void_transaction
  void_transaction-Created id b r b' e = elim (Option-cases (find id b.transactions)) [
    | inl missing ↦
        let e' : void_found p none b ≡ (ok r, b') = rw missing at e in
        inr (missing, ground arith, ground arith)
    | inr (existing, found) ↦
        let e' : void_found p (some existing) b ≡ (ok r, b') = rw found at e in
        let (t, b₁, created, e₁) =
          >>=-ok (create_transaction p (p.neg existing.amount))
            (λ t. assert (leb existing.created_at t.created_at) >> pure (some t)) b e' in
        let (returned, no_older, same) = after_create t existing.created_at b₁ b' r e₁ in
        inl (
          existing,
          t,
          found,
          returned,
          no_older,
          create_transaction-Created p (p.neg existing.amount) b t b' (rw same created),
        )
  ]

  assert_last :
      (o : Outcome Error (Transaction D) × Bank D) (n : ℕ) (b : Bank D)
      → (((λ (_ : Bank D). o) >>= λ t. assert (leb n t.created_at) >> pure (some t)) b).1 ≡ o.1
  assert_last (ok t, s) n b = ground arith
  assert_last (err e, s) n b = refl
  assert_last (panic, s) n b = refl

  -- However a call of `void_transaction` ends, an entry of the negated amount of the transaction
  -- with this identifier was created, or the log and the balance are untouched.
  pub void_transaction_cases :
      (id : ℤ) (b : Bank D)
      → ((existing : Transaction D) × (t : Transaction D) × (find id b.transactions ≡ some existing)
          × Created p (p.neg existing.amount) b t (void_transaction p id b).1)
        ⊎ Kept b (void_transaction p id b).1
  unfolding void_transaction
  void_transaction_cases id b = elim (Option-cases (find id b.transactions)) [
    | inl missing ↦ inr (rw missing (Kept-refl b))
    | inr (existing, found) ↦
        let amount = p.neg existing.amount in
        let same = assert_last (create_transaction p amount b) existing.created_at b in
        elim (create_transaction_cases p amount b) [
          | inl (t, _, created) ↦ inl (existing, t, found, rw (found, same) created)
          | inr kept ↦ inr (rw (found, same) kept)
        ]
  ]

  -- The bank behind the call is that of before it, or that behind one call of
  -- `create_transaction`.
  pub void_transaction-state :
      (id : ℤ) (b : Bank D)
      → ((void_transaction p id b).1 ≡ b)
        ⊎ ((amount : D) × ((void_transaction p id b).1 ≡ (create_transaction p amount b).1))
  unfolding void_transaction
  void_transaction-state id b = elim (Option-cases (find id b.transactions)) [
    | inl missing ↦ inl (rw missing)
    | inr (existing, found) ↦
        let amount = p.neg existing.amount in
        inr (amount, rw found (assert_last (create_transaction p amount b) existing.created_at b))
  ]
