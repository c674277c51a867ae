-- ===== src/Bank/Create.antt =====
-- What a call of `create_transaction` does, on each way that it can end.
use dst_demo.Prelude.{
  ℕ, suc, ◌<◌, ◌≤◌, ◌≡◌, refl, Option, none, some, [], ◌∷◌, ◌++◌, get_last?, arith, ap, ◌∙◌,
  Option-cases, inl, inr, leb, ltb,
}
use mathlib.Core.Path.{subst}
use dst_demo.Prelude.Id.{ℤ, add_one, eq_ℤ_iff}
use dst_demo.Text.{Text}
use dst_demo.Text.Utf8.{into_bytes}
use dst_demo.Outcome.{◌>>=◌, ◌>>◌, pure, assert, ok}
use dst_demo.Outcome.Laws.{>>=-ok}
use dst_demo.Transaction.{Transaction}
use dst_demo.Platform.{Platform}
use dst_demo.Bank.{
  Bank, assert_follows, take_id, read_clock, persist, check_and_persist, stamp, prepare_transaction,
  record_transaction, create_transaction,
}

module _ {D : Type 0} (p : Platform D) where
  -- The order that the assertions demand: no earlier time, and the next identifier.
  abbrev pub Follows : Option (Transaction D) → Transaction D → Type 0
  Follows none t = Unit
  Follows (some last) t =
      (last.created_at ≤ t.created_at) × (add_one p.overflow_checks last.id ≡ some t.id)

  -- What a call that returned `t` has done.
  pub record Created (amount : D) (b : Bank D) (t : Transaction D) (b' : Bank D) : Type 0 where
    pub id : t.id ≡ b.current_id
    pub value : t.amount ≡ amount
    pub stamped : p.now b.ticks ≡ some t.created_at
    pub follows : Follows (get_last? b.transactions) t
    pub dated : 0 < t.created_at
    pub next : add_one p.overflow_checks b.current_id ≡ some b'.current_id
    pub line : Text
    pub serialized : p.to_json t ≡ some line
    pub appended : b'.file.content ≡ b.file.content ++ into_bytes (line ++ b'\n' ∷ [])
    pub balance : p.add b.balance amount ≡ some b'.balance
    pub pushed : b'.transactions ≡ b.transactions ++ t ∷ []
    pub ticks : b'.ticks ≡ suc b.ticks

  pub assert_follows-ok :
      (t : Transaction D) (last : Option (Transaction D)) (b b' : Bank D)
      → assert_follows p t last b ≡ (ok tt, b')
      → Follows last t × (b' ≡ b)
  unfolding assert_follows
  assert_follows-ok t none b b' e = ground arith
  assert_follows-ok t (some last) b b' e = elim (Option-cases (add_one p.overflow_checks last.id)) [
    | inl over ↦ absurd (ground arith)
    | inr (next, e') ↦ ground (arith, eq_ℤ_iff t.id next)
  ]

  pub persist-ok :
      (t : Transaction D) (b b' : Bank D)
      → persist p t b ≡ (ok tt, b')
      → (line : Text) × (p.to_json t ≡ some line)
        × (b' ≡ record b {
          file = record {
            content = b.file.content ++ into_bytes (line ++ b'\n' ∷ []);
            fates = b'.file.fates;
          };
        })
  unfolding persist
  persist-ok t b b' e = elim (Option-cases (p.to_json t)) [
    | inl bad ↦ absurd (ground arith)
    | inr (line, good) ↦ (line, good, ground arith)
  ]

  pub take_id-ok :
      (b b' : Bank D) (id : ℤ)
      → take_id p b ≡ (ok id, b')
      → (id ≡ b.current_id)
        × (add_one p.overflow_checks b.current_id ≡ some b'.current_id)
        × (b' ≡ record b { current_id = b'.current_id })
  unfolding take_id
  take_id-ok b b' id e = elim (Option-cases (add_one p.overflow_checks b.current_id)) [
    | inl over ↦ absurd (ground arith)
    | inr (next, fits) ↦ ground arith
  ]

  record_transaction-ok :
      (t t' : Transaction D) (b b' : Bank D)
      → record_transaction p t b ≡ (ok t', b')
      → (t' ≡ t)
        × (p.add b.balance t.amount ≡ some b'.balance)
        × (b' ≡ record b { balance = b'.balance; transactions = b.transactions ++ t ∷ [] })
  unfolding record_transaction
  record_transaction-ok t t' b b' e = ground arith

  -- What `check_and_persist` has done when it returns.
  record Persisted (t : Transaction D) (b : Bank D) (b' : Bank D) : Type 0 where
    follows : Follows (get_last? b.transactions) t
    dated : 0 < t.created_at
    line : Text
    serialized : p.to_json t ≡ some line
    rest : b' ≡ record b {
      file = record {
        content = b.file.content ++ into_bytes (line ++ b'\n' ∷ []);
        fates = b'.file.fates;
      };
    }

  after_checks :
      (t t' : Transaction D) (n : ℕ) (b b' : Bank D)
      → (assert (ltb 0 t.created_at) >> (assert (leb t.created_at n) >> (persist p t >> pure t))) b
        ≡ (ok t', b')
      → (t' ≡ t) × (0 < t.created_at) × (persist p t b ≡ (ok tt, b'))
  after_checks t t' n b b' e = ground arith

  check_and_persist-ok :
      (t t' : Transaction D) (n : ℕ) (b b' : Bank D)
      → check_and_persist p t n b ≡ (ok t', b')
      → (t' ≡ t) × Persisted t b b'
  unfolding check_and_persist
  check_and_persist-ok t t' n b b' e =
      let last = get_last? b.transactions in
      let (_, b₁, checked, e₁) =
        >>=-ok (assert_follows p t last)
          (λ _.
            assert (ltb 0 t.created_at) >> (assert (leb t.created_at n) >> (persist p t >> pure t)))
          b e in
      let (follows, same) = assert_follows-ok t last b b₁ checked in
      let (returned, dated, stored) = after_checks t t' n b b' (rw (← same) e₁) in
      let (line, json, rest) = persist-ok t b b' stored in
      (
        returned,
        record { follows = follows; dated = dated; line = line; serialized = json; rest = rest },
      )

  pub read_clock-ok :
      (n : ℕ) (b b' : Bank D)
      → read_clock p b ≡ (ok n, b')
      → (p.now b.ticks ≡ some n) × (b' ≡ record b { ticks = suc b.ticks })
  read_clock-ok n b b' e = elim (Option-cases (p.now b.ticks)) [
    | inl before_epoch ↦ absurd (ground arith)
    | inr (m, good) ↦ (ground arith, ground arith)
  ]

  -- The facts about the single steps, put together.
  assemble :
      (amount : D) (b b₁ b₂ b₃ b' : Bank D) (n : ℕ)
      → add_one p.overflow_checks b.current_id ≡ some b₁.current_id
      → b₁ ≡ record b { current_id = b₁.current_id }
      → p.now b₁.ticks ≡ some n
      → b₂ ≡ record b₁ { ticks = suc b₁.ticks }
      → Persisted (stamp p amount b.current_id n) b₂ b₃
      → p.add b₃.balance amount ≡ some b'.balance
      → b' ≡ record b₃ {
        balance = b'.balance;
        transactions = b₃.transactions ++ stamp p amount b.current_id n ∷ [];
      }
      → Created amount b (stamp p amount b.current_id n) b'
  assemble amount b b₁ b₂ b₃ b' n next s₁ now s₂ done added s₃ =
      let t = stamp p amount b.current_id n in
      let log : b₂.transactions ≡ b.transactions = ground arith in
      record {
        id = refl;
        value = refl;
        stamped = ground arith;
        follows = subst (λ ts. Follows (get_last? ts) t) log done.follows;
        dated = done.dated;
        next = ground arith;
        line = done.line;
        serialized = done.serialized;
        appended = ground arith;
        balance = ground arith;
        pushed = ground arith;
        ticks = ground arith;
      }

  -- A call that returns has stamped the transaction with the next identifier, the clock's time and
  -- the amount, has passed the assertions, and has appended it to the file, the balance and the
  -- log.
  pub create_transaction-Created :
      (amount : D) (b : Bank D) (t : Transaction D) (b' : Bank D)
      → create_transaction p amount b ≡ (ok t, b')
      → Created amount b t b'
  unfolding create_transaction prepare_transaction
  create_transaction-Created amount b t b' e =
      let (t₁, b₃, prepared, e₃) =
        >>=-ok (prepare_transaction p amount) (record_transaction p) b e in
      let (id, b₁, taken, e₁) =
        >>=-ok (take_id p) (λ id. read_clock p >>= λ n. check_and_persist p (stamp p amount id n) n)
          b prepared in
      let (n, b₂, read, e₂) =
        >>=-ok (read_clock p) (λ n. check_and_persist p (stamp p amount id n) n) b₁ e₁ in
      let (same_id, next, set) = take_id-ok b b₁ id taken in
      let (now, ticked) = read_clock-ok n b₁ b₂ read in
      let (same, persisted) = check_and_persist-ok (stamp p amount id n) t₁ n b₂ b₃ e₂ in
      let (same', added, recorded) = record_transaction-ok t₁ t b₃ b' e₃ in
      let stamped : t₁ ≡ stamp p amount b.current_id n =
        same ∙ ap (λ i. stamp p amount i n) same_id in
      rw (same' ∙ stamped) (
        assemble amount b b₁ b₂ b₃ b' n next set now ticked
          (subst (λ i. Persisted (stamp p amount i n) b₂ b₃) same_id persisted)
          (subst (λ x. p.add b₃.balance x.amount ≡ some b'.balance) stamped added)
          (subst
            (λ x. b' ≡ record b₃ { balance = b'.balance; transactions = b₃.transactions ++ x ∷ [] })
            stamped recorded))
