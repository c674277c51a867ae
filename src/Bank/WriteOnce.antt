-- ===== src/Bank/WriteOnce.antt =====
-- What the stages of `create_transaction` make of the file: only `persist` writes, and it writes one
-- line: `server/src/bank.rs`.
use dst_demo.Prelude.{
  ℕ, ◌<◌, ◌≡◌, refl, ◌∙◌, arith, Option, some, none, [], ◌∷◌, ◌++◌, get_last?, ◌⊎◌, inl, inr,
  Option-cases, leb, ltb,
}
use dst_demo.Text.{Text}
use dst_demo.Text.Utf8.{into_bytes}
use dst_demo.Outcome.{ok, ◌>>=◌, ◌>>◌, pure, assert}
use dst_demo.Outcome.Laws.{>>=-ok, >>=-related}
use dst_demo.Transaction.{Transaction}
use dst_demo.Platform.{Platform}
use dst_demo.Bank.{Bank, stamp, persist, take_id, read_clock, assert_follows}
use dst_demo.Bank.Create.{Follows, assert_follows-ok}
use dst_demo.Bank.Stages.{take_and_stamp, check, credit}

module _ {D : Type 0} (p : Platform D) where
  take_id-file : (s : Bank D) → (take_id p s).1.file ≡ s.file
  unfolding take_id
  take_id-file s = ground arith

  pub take_and_stamp-file : (amount : D) (s : Bank D) → (take_and_stamp p amount s).1.file ≡ s.file
  take_and_stamp-file amount s =
      >>=-related (λ s s'. s'.file ≡ s.file) (take_id p)
        (λ id. read_clock p >>= λ n. pure (stamp p amount id n, n)) s (λ a b c e f. f ∙ e)
        (take_id-file s) λ id s'. ground arith

  assert_follows-file :
      (t : Transaction D) (last : Option (Transaction D)) (s : Bank D)
      → (assert_follows p t last s).1.file ≡ s.file
  unfolding assert_follows
  assert_follows-file t none s = refl
  assert_follows-file t (some last) s = ground arith

  pub check-file : (t : Transaction D) (n : ℕ) (s : Bank D) → (check p t n s).1.file ≡ s.file
  check-file t n s =
      >>=-related (λ s s'. s'.file ≡ s.file) (assert_follows p t (get_last? s.transactions))
        (λ _. assert (ltb 0 t.created_at) >> assert (leb t.created_at n)) s (λ a b c e f. f ∙ e)
        (assert_follows-file t _ s) λ id s'. ground arith

  pub credit-file : (t : Transaction D) (s : Bank D) → (credit p t s).1.file ≡ s.file
  credit-file t s = ground arith

  pub check-ok :
      (t : Transaction D) (n : ℕ) (s s' : Bank D)
      → check p t n s ≡ (ok tt, s')
      → Follows p (get_last? s.transactions) t × (0 < t.created_at) × (s' ≡ s)
  check-ok t n s s' e =
      let (_, s₁, checked, e₁) =
        >>=-ok (assert_follows p t (get_last? s.transactions))
          (λ _. assert (ltb 0 t.created_at) >> assert (leb t.created_at n)) s e in
      let (follows, same) = assert_follows-ok p t (get_last? s.transactions) s s₁ checked in
      (follows, ground arith, ground arith)

  -- What a write makes of the file, when writes succeed.
  pub persist_left :
      (t : Transaction D) (s : Bank D)
      → s.file.fates ≡ []
      → ((persist p t s).1.file ≡ s.file)
        ⊎ ((line : Text) × (p.to_json t ≡ some line)
            × ((persist p t s).1.file.content ≡ s.file.content ++ into_bytes (line ++ b'\n' ∷ [])))
  unfolding persist
  persist_left t s h = elim (Option-cases (p.to_json t)) [
    | inl bad ↦ inl (ground arith)
    | inr (line, good) ↦ inr (line, good, ground arith)
  ]
