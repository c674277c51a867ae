-- ===== src/Bank/Torn.antt =====
-- A call of `create_transaction` whose write breaks off, and the file opened again by
-- `LocalBank::new`: `server/src/bank.rs`.
mod Lines
pub mod Restart
mod Tests
use dst_demo.Prelude.{
  ℕ, zero, suc, ◌<◌, ◌≤◌, ◌≡◌, ◌≢◌, refl, sym, ◌∙◌, ap, arith, Option, some, none, List, [], ◌∷◌,
  ◌++◌, take, length, get_last?, get_last?-snoc, append-nil, All, ◌⊎◌, inl, inr, Option-cases, leb,
  ltb,
}
use mathlib.Core.Path.{subst}
use dst_demo.Prelude.Id.{ℤ, add_one}
use dst_demo.Text.{Text, Bytes}
use dst_demo.Text.Utf8.{into_bytes}
use dst_demo.Outcome.{Outcome, ok, err, panic, Sink, Fate, broken, ◌>>=◌, ◌>>◌, pure, assert}
use dst_demo.Outcome.Laws.{>>=-err}
use dst_demo.Transaction.{Transaction}
use dst_demo.Platform.{Platform}
use dst_demo.Bank.{
  Bank, Error, io, stamp, persist, take_id, read_clock, assert_follows, check_and_persist,
  prepare_transaction, record_transaction, create_transaction,
}
use dst_demo.Bank.Create.{assert_follows-ok, take_id-ok, read_clock-ok}

module _ {D : Type 0} (p : Platform D) where
  -- The identifier is taken, and `n` bytes of the line are in the file.
  pub record IsTorn (amount : D) (n : ℕ) (b b' : Bank D) : Type 0 where
    pub entry : Transaction D
    pub value : entry.amount ≡ amount
    pub id : entry.id ≡ b.current_id
    pub next : ℤ
    pub counts : add_one p.overflow_checks b.current_id ≡ some next
    pub line : Text
    pub serialized : p.to_json entry ≡ some line
    pub file : b'.file.content ≡ b.file.content ++ take n (into_bytes (line ++ b'\n' ∷ []))

  persist_broken :
      (t : Transaction D) (n : ℕ) (fates : List Fate) (s s' : Bank D)
      → s.file.fates ≡ broken n ∷ fates
      → persist p t s ≡ (err io, s')
      → (line : Text) × (p.to_json t ≡ some line)
        × (s'.file.content ≡ s.file.content ++ take n (into_bytes (line ++ b'\n' ∷ [])))
  unfolding persist
  persist_broken t n fates s s' h e = elim (Option-cases (p.to_json t)) [
    | inl bad ↦ absurd (ground arith)
    | inr (line, good) ↦ (line, good, ground arith)
  ]

  assert_follows_no_error :
      (t : Transaction D) (last : Option (Transaction D)) (e : Error) (s s' : Bank D)
      → assert_follows p t last s ≢ (err e, s')
  unfolding assert_follows
  assert_follows_no_error t none e s s' h = ground arith
  assert_follows_no_error t (some last) e s s' h = ground arith

  checks_error :
      (t : Transaction D) (n : ℕ) (e : Error) (s s' : Bank D)
      → (assert (ltb 0 t.created_at) >> (assert (leb t.created_at n) >> (persist p t >> pure t))) s
        ≡ (err e, s')
      → persist p t s ≡ (err e, s')
  checks_error t n e s s' h = ground arith

  -- Only the write fails with an error of this kind.
  check_and_persist_error :
      (t : Transaction D) (n : ℕ) (e : Error) (s s' : Bank D)
      → check_and_persist p t n s ≡ (err e, s')
      → persist p t s ≡ (err e, s')
  unfolding check_and_persist
  check_and_persist_error t n e s s' h =
      let last = get_last? s.transactions in
      elim (>>=-err (assert_follows p t last)
        (λ _.
          assert (ltb 0 t.created_at) >> (assert (leb t.created_at n) >> (persist p t >> pure t)))
        s h) [
          | inl wrong ↦ absurd (assert_follows_no_error t last e s s' wrong)
          | inr (_, s₁, checked, rest) ↦
              let (_, same) = assert_follows-ok p t last s s₁ checked in
              checks_error t n e s s' (rw (← same) rest)
        ]

  no_error_at_start :
      (e : Error) (s s' : Bank D) → (take_id p s ≢ (err e, s')) × (read_clock p s ≢ (err e, s'))
  unfolding take_id
  no_error_at_start e s s' = (λ h. ground arith, λ h. ground arith)

  pub no_error_at_end :
      (t : Transaction D) (e : Error) (s s' : Bank D) → record_transaction p t s ≢ (err e, s')
  unfolding record_transaction
  no_error_at_end t e s s' h = ground arith

  pub prepare_transaction_error :
      (amount : D) (e : Error) (b b' : Bank D)
      → prepare_transaction p amount b ≡ (err e, b')
      → (next : ℤ) × (n : ℕ) × (s : Bank D) × (add_one p.overflow_checks b.current_id ≡ some next)
        × (s.file ≡ b.file)
        × (persist p (stamp p amount b.current_id n) s ≡ (err e, b'))
  unfolding prepare_transaction
  prepare_transaction_error amount e b b' h =
      elim (>>=-err (take_id p)
        (λ id. read_clock p >>= λ n. check_and_persist p (stamp p amount id n) n) b h) [
          | inl wrong ↦ absurd ((no_error_at_start e b b').0 wrong)
          | inr (id, b₁, took, rest) ↦
              elim (>>=-err (read_clock p) (λ n. check_and_persist p (stamp p amount id n) n) b₁
                rest) [
                  | inl wrong ↦ absurd ((no_error_at_start e b₁ b').1 wrong)
                  | inr (n, b₂, read, last) ↦
                      let (same, counts, set) = take_id-ok p b b₁ id took in
                      let (now, ticked) = read_clock-ok p n b₁ b₂ read in
                      (
                        b₁.current_id,
                        n,
                        b₂,
                        counts,
                        ap (λ s. s.file) ticked ∙ ap (λ s. s.file) set,
                        subst (λ i. persist p (stamp p amount i n) b₂ ≡ (err e, b')) same
                            (check_and_persist_error (stamp p amount id n) n e b₂ b' last),
                      )
                ]
        ]

  -- A call that fails with an input or output error has left a part of its line in the file.
  pub create_transaction-IsTorn :
      (amount : D) (n : ℕ) (fates : List Fate) (b b' : Bank D)
      → b.file.fates ≡ broken n ∷ fates
      → create_transaction p amount b ≡ (err io, b')
      → IsTorn amount n b b'
  unfolding create_transaction
  create_transaction-IsTorn amount n fates b b' breaks h =
      elim (>>=-err (prepare_transaction p amount) (record_transaction p) b h) [
        | inr (t, b₁, prepared, rest) ↦ absurd (no_error_at_end t io b₁ b' rest)
        | inl failed ↦
            let (next, seconds, s, counts, same, wrote) =
              prepare_transaction_error amount io b b' failed in
            let t = stamp p amount b.current_id seconds in
            let (line, json, file) =
              persist_broken t n fates s b' (ap (λ f. f.fates) same ∙ breaks) wrote in
            record {
              entry = t;
              value = refl;
              id = refl;
              next = next;
              counts = counts;
              line = line;
              serialized = json;
              file = file ∙ ap (λ f. f.content ++ take n (into_bytes (line ++ b'\n' ∷ []))) same;
            }
      ]
