-- ===== src/Bank/Failure.antt =====
-- What a failed call leaves behind: an error or a panic changes neither the log nor the balance.
use dst_demo.Prelude.{
  ℕ, ◌≡◌, refl, sym, ◌∙◌, ap, Option, none, some, List, [], ◌∷◌, ◌++◌, get_last?, arith, append-nil,
  append_assoc, take, inl, inr, ◌⊎◌, Option-cases, Bool, true, false, leb, ltb,
}
use mathlib.Core.Path.{subst}
use dst_demo.Prelude.Id.{eq_ℤ, add_one}
use dst_demo.Text.{Text, Bytes}
use dst_demo.Text.Utf8.{into_bytes}
use dst_demo.Outcome.Laws.{>>=-related}
use dst_demo.Outcome.{
  ◌>>=◌, or_throw, unwrap, write_fated, ◌>>◌, Outcome, ok, err, panic, Fate, written, broken,
  assert, pure,
}
use dst_demo.Transaction.{Transaction}
use dst_demo.Platform.{Platform}
use dst_demo.Bank.{
  Bank, BankAction, Error, serde_json, read_clock, assert_follows, take_id, persist,
  check_and_persist, stamp, prepare_transaction, record_transaction, create_transaction, write_file,
}
use dst_demo.Bank.Create.{Created, create_transaction-Created}

written_fates :
    (bytes content : Bytes) (fates : List Fate)
    → (more : Bytes) × ((write_fated content bytes fates).1.content ≡ content ++ more)
written_fates bytes content [] = (bytes, refl)
written_fates bytes content (written ∷ fates) = (bytes, refl)
written_fates bytes content (broken n ∷ fates) = (take n bytes, refl)

module _ {D : Type 0} where
  -- The log and the balance are as before, and nothing in the file was overwritten.
  pub record Kept (b b' : Bank D) : Type 0 where
    pub log : b'.transactions ≡ b.transactions
    pub balance : b'.balance ≡ b.balance
    pub more : Bytes
    pub file : b'.file.content ≡ b.file.content ++ more

  pub Kept-refl : (b : Bank D) → Kept b b
  Kept-refl b = record { log = refl; balance = refl; more = []; file = rw append-nil }

  same_fields :
      (b b' : Bank D)
      → b'.transactions ≡ b.transactions
      → b'.balance ≡ b.balance
      → b'.file.content ≡ b.file.content
      → Kept b b'
  same_fields b b' log balance file = record {
    log = log;
    balance = balance;
    more = [];
    file = rw file (rw append-nil);
  }

  pub assert-Kept : (c : Bool) (b : Bank D) → Kept b (assert {E = Error} c b).1
  assert-Kept true b = Kept-refl b
  assert-Kept false b = Kept-refl b

  unwrap-Kept : {A : Type 0} (o : Option A) (b : Bank D) → Kept b (unwrap {E = Error} o b).1
  unwrap-Kept none b = Kept-refl b
  unwrap-Kept (some a) b = Kept-refl b

  pub Kept-trans : (a b c : Bank D) → Kept a b → Kept b c → Kept a c
  Kept-trans a b c h k = record {
    log = k.log ∙ h.log;
    balance = k.balance ∙ h.balance;
    more = h.more ++ k.more;
    file = k.file ∙ (ap (λ s. s ++ k.more) h.file ∙ append_assoc a.file.content h.more k.more);
  }

  -- A chain of calls that keep the log and the balance keeps them.
  pub >>=-Kept :
      {A B : Type 0} (m : BankAction D A) (f : A → BankAction D B) (b : Bank D)
      → Kept b (m b).1
      → ((a : A) (s : Bank D) → Kept s (f a s).1)
      → Kept b ((m >>= f) b).1
  >>=-Kept m f b h k = >>=-related Kept m f b Kept-trans h k

  write_file-Kept : (bytes : Bytes) (b : Bank D) → Kept b (write_file bytes b).1
  write_file-Kept bytes b =
      let (more, e) = written_fates bytes b.file.content b.file.fates in
      record { log = refl; balance = refl; more = more; file = e }

module _ {D : Type 0} (p : Platform D) where
  pub take_id-Kept : (b : Bank D) → Kept b (take_id p b).1
  unfolding take_id
  take_id-Kept b = same_fields b _ (ground arith) (ground arith) (ground arith)

  pub read_clock-Kept : (b : Bank D) → Kept b (read_clock p b).1
  read_clock-Kept b = same_fields b _ (ground arith) (ground arith) (ground arith)

  pub assert_follows-Kept :
      (t : Transaction D) (last : Option (Transaction D)) (b : Bank D)
      → Kept b (assert_follows p t last b).1
  unfolding assert_follows
  assert_follows-Kept t none b = Kept-refl b
  assert_follows-Kept t (some last) b =
      >>=-Kept (assert (leb last.created_at t.created_at))
        (λ _. unwrap (add_one p.overflow_checks last.id) >>= λ next. assert (eq_ℤ t.id next)) b
        (assert-Kept _ b)
        λ _ s.
          >>=-Kept (unwrap (add_one p.overflow_checks last.id)) (λ next. assert (eq_ℤ t.id next)) s
            (unwrap-Kept _ s) λ next s'. assert-Kept (eq_ℤ t.id next) s'

  write_line-Kept :
      (o : Option Text) (b : Bank D)
      → Kept b
          ((or_throw serde_json o >>= λ line. write_file (into_bytes (line ++ b'\n' ∷ []))) b).1
  write_line-Kept none b = Kept-refl b
  write_line-Kept (some line) b = write_file-Kept (into_bytes (line ++ b'\n' ∷ [])) b

  pub persist-Kept : (t : Transaction D) (b : Bank D) → Kept b (persist p t b).1
  unfolding persist
  persist-Kept t b = write_line-Kept (p.to_json t) b

  check_and_persist-Kept :
      (t : Transaction D) (n : ℕ) (b : Bank D) → Kept b (check_and_persist p t n b).1
  unfolding check_and_persist
  check_and_persist-Kept t n b =
      >>=-Kept (assert_follows p t (get_last? b.transactions))
        (λ _.
          assert (ltb 0 t.created_at) >> (assert (leb t.created_at n) >> (persist p t >> pure t)))
        b (assert_follows-Kept t _ b)
        λ _ s.
          >>=-Kept (assert (ltb 0 t.created_at))
            (λ _. assert (leb t.created_at n) >> (persist p t >> pure t)) s (assert-Kept _ s)
            λ _ s.
              >>=-Kept (assert (leb t.created_at n)) (λ _. persist p t >> pure t) s
                (assert-Kept _ s)
                λ _ s. >>=-Kept (persist p t) (λ _. pure t) s (persist-Kept t s) λ _ s. Kept-refl s

  prepare_transaction-Kept : (amount : D) (b : Bank D) → Kept b (prepare_transaction p amount b).1
  unfolding prepare_transaction
  prepare_transaction-Kept amount b =
      >>=-Kept (take_id p) (λ id. read_clock p >>= λ n. check_and_persist p (stamp p amount id n) n)
        b (take_id-Kept b)
        λ id s.
          >>=-Kept (read_clock p) (λ n. check_and_persist p (stamp p amount id n) n) s
            (read_clock-Kept s) λ n s'. check_and_persist-Kept (stamp p amount id n) n s'

  record_after :
      (o : Outcome Error (Transaction D) × Bank D) (b : Bank D)
      → Kept b o.1
      → ((t : Transaction D) × (b' : Bank D) × (((λ (_ : Bank D). o) >>= record_transaction p) b
            ≡ (ok t, b')))
        ⊎ Kept b (((λ (_ : Bank D). o) >>= record_transaction p) b).1
  unfolding record_transaction
  record_after (err e, s) b h = inr h
  record_after (panic, s) b h = inr h
  record_after (ok t, s) b h = elim (Option-cases (p.add s.balance t.amount)) [
    | inl over ↦
        let same : (record_transaction p t s).1 ≡ s = ground arith in
        inr (subst (Kept b) (sym same) h)
    | inr (sum, fits) ↦
        let s' : Bank D = record s { balance = sum; transactions = s.transactions ++ t ∷ [] } in
        inl (t, s', ground arith)
  ]

  returned :
      (amount : D) (b : Bank D) (t : Transaction D) (b' : Bank D)
      → create_transaction p amount b ≡ (ok t, b')
      → Created p amount b t (create_transaction p amount b).1
  returned amount b t b' e =
      subst (Created p amount b t) (sym (ap (λ r. r.1) e))
        (create_transaction-Created p amount b t b' e)

  -- However a call of `create_transaction` ends: either it returns, and `Created` says what it has
  -- done, or the log and the balance are untouched and the file has at most grown.
  pub create_transaction_cases :
      (amount : D) (b : Bank D)
      → ((t : Transaction D) × ((create_transaction p amount b).0 ≡ ok t)
          × Created p amount b t (create_transaction p amount b).1)
        ⊎ Kept b (create_transaction p amount b).1
  unfolding create_transaction
  create_transaction_cases amount b =
      elim (record_after (prepare_transaction p amount b) b (prepare_transaction-Kept amount b)) [
        | inl (t, b', e) ↦ inl (t, ap (λ r. r.0) e, returned amount b t b' e)
        | inr kept ↦ inr kept
      ]
