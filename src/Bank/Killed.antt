-- ===== src/Bank/Killed.antt =====
-- A server that is killed in the course of a call of `create_transaction`, and its file read back:
-- `create_transaction` and `LocalBank::new` of `server/src/bank.rs`.
pub mod Reopens
pub mod Ticks
mod Tests
use dst_demo.Prelude.{
  ℕ, ◌<◌, ◌≤◌, ◌≡◌, refl, sym, ◌∙◌, ap, arith, Option, some, none, List, [], ◌∷◌, ◌++◌, get_last?,
  get_last?-snoc, All, All-append, ◌⊎◌, inl, inr, Option-cases, leb, ltb,
}
use mathlib.Core.Path.{subst}
use dst_demo.Prelude.Id.{ℤ, add_one}
use dst_demo.Text.{Text}
use dst_demo.Text.Utf8.{into_bytes}
use dst_demo.Text.Utf8.RoundTrip.{into_bytes-append}
use dst_demo.Outcome.{Outcome, ok, err, panic, Sink, Fate, ◌>>=◌, ◌>>◌, pure, unwrap, assert}
use dst_demo.Outcome.Laws.{>>=-ok, >>=-related}
use dst_demo.Transaction.{Transaction}
use dst_demo.Platform.{Platform}
use dst_demo.Platform.Laws.{JsonLaws}
use dst_demo.Bank.{
  Bank, BankAction, Error, stamp, persist, take_id, read_clock, assert_follows, write_file,
}
use dst_demo.Bank.Create.{Follows, assert_follows-ok, persist-ok, take_id-ok, read_clock-ok}
use dst_demo.Bank.Open.{new, next_id}
use dst_demo.Bank.Recovery.{IsStored, journal, journal-snoc, new-IsStored}
use dst_demo.Bank.Sound.{Linked, Linked-snoc}
use dst_demo.Bank.Stages.{
  Stage, idle, finding, waiting, taken, checking, writing, crediting, pushing, finished, advance,
  settle, take_and_stamp, check, credit, push,
}
use dst_demo.Bank.WriteOnce.{take_and_stamp-file, check-file, credit-file, check-ok, persist_left}

module _ {D : Type 0} (p : Platform D) (amount : D) (b : Bank D) where
  -- How far a call with the lock of `current_id` has come.
  pub data Work : Stage D → Bank D → Type 0 where
    begun : Work (taken amount) b
    goes :
        {s : Stage D} {b' b'' : Bank D} {r : Outcome Error (Stage D)}
        → Work s b'
        → advance p s b' ≡ (r, b'')
        → Work (settle p r) b''

  -- The transaction is stamped, and nothing is written.
  pub record Stamped (t : Transaction D) (b' : Bank D) : Type 0 where
    pub file : b'.file ≡ b.file
    pub log : b'.transactions ≡ b.transactions
    pub value : t.amount ≡ amount
    pub id : t.id ≡ b.current_id
    pub stamped : p.now b.ticks ≡ some t.created_at
    pub next : ℤ
    pub counts : add_one p.overflow_checks b.current_id ≡ some next

  -- The line of the transaction is in the file.
  pub record OnDisk (t : Transaction D) (content : List ℕ) : Type 0 where
    pub value : t.amount ≡ amount
    pub id : t.id ≡ b.current_id
    pub stamped : p.now b.ticks ≡ some t.created_at
    pub next : ℤ
    pub counts : add_one p.overflow_checks b.current_id ≡ some next
    pub follows : Follows p (get_last? b.transactions) t
    pub dated : 0 < t.created_at
    pub line : Text
    pub serialized : p.to_json t ≡ some line
    pub appended : content ≡ b.file.content ++ into_bytes (line ++ b'\n' ∷ [])

  -- The file is as before, or has one line more.
  abbrev pub Left : Bank D → Type 0
  Left b' = (b'.file ≡ b.file) ⊎ ((t : Transaction D) × OnDisk t b'.file.content)

  abbrev pub IsAt : Stage D → Bank D → Type 0
  IsAt (taken a) b' = (a ≡ amount) × (b' ≡ b)
  IsAt (checking t n) b' = Stamped t b'
  IsAt (writing t) b' = Stamped t b' × Follows p (get_last? b.transactions) t × (0 < t.created_at)
  IsAt (crediting t) b' = OnDisk t b'.file.content
  IsAt (pushing t) b' = OnDisk t b'.file.content
  IsAt (finished (ok t)) b' = OnDisk t b'.file.content
  IsAt (finished (err e)) b' = Left b'
  IsAt (finished panic) b' = Left b'
  IsAt idle b' = ⊥
  IsAt (finding id) b' = ⊥
  IsAt (waiting a) b' = ⊥

  lands :
      {A : Type 0} (o : Outcome Error A × Bank D) (k : A → Stage D) (b' : Bank D)
      → ((a : A) → o ≡ (ok a, o.1) → IsAt (k a) o.1)
      → Left o.1
      → (let (r, b'') = ((λ (_ : Bank D). o) >>= λ a. pure (k a)) b' in IsAt (settle p r) b'')
  lands (ok a, s) k b' h left = h a refl
  lands (err e, s) k b' h left = left
  lands (panic, s) k b' h left = left

  take_and_stamp-Stamped :
      (r : Transaction D × ℕ) (s : Bank D) → take_and_stamp p amount b ≡ (ok r, s) → Stamped r.0 s
  take_and_stamp-Stamped r s e =
      let (id, b₁, took, e₁) =
        >>=-ok (take_id p) (λ id. read_clock p >>= λ n. pure (stamp p amount id n, n)) b e in
      let (n, b₂, read, e₂) = >>=-ok (read_clock p) (λ n. pure (stamp p amount id n, n)) b₁ e₁ in
      let (same, next, set) = take_id-ok p b b₁ id took in
      let (now, ticked) = read_clock-ok p n b₁ b₂ read in
      record {
        file = ground arith;
        log = ground arith;
        value = ground arith;
        id = ground arith;
        stamped = ground arith;
        next = b₁.current_id;
        counts = next;
      }

  Stamped-OnDisk :
      (t : Transaction D) (s : Bank D) (line : Text) (content : List ℕ)
      → Stamped t s
      → Follows p (get_last? b.transactions) t
      → 0 < t.created_at
      → p.to_json t ≡ some line
      → content ≡ s.file.content ++ into_bytes (line ++ b'\n' ∷ [])
      → OnDisk t content
  Stamped-OnDisk t s line content st follows dated json appended = record {
    value = st.value;
    id = st.id;
    stamped = st.stamped;
    next = st.next;
    counts = st.counts;
    follows = follows;
    dated = dated;
    line = line;
    serialized = json;
    appended = appended ∙ ap (λ f. f.content ++ into_bytes (line ++ b'\n' ∷ [])) st.file;
  }

  module _ (succeed : b.file.fates ≡ []) where
    write-IsAt :
        (t : Transaction D) (s : Bank D)
        → IsAt (writing t) s
        → (let (r, s') = (persist p t >>= λ _. pure (crediting t)) s in IsAt (settle p r) s')
    write-IsAt t s (st, follows, dated) =
        lands (persist p t s) (λ _. crediting t) s
          (λ a e.
            let (line, json, same) = persist-ok p t s (persist p t s).1 e in
            Stamped-OnDisk t s line _ st follows dated json (ap (λ x. x.file.content) same))
          (elim (persist_left p t s (ap (λ f. f.fates) st.file ∙ succeed)) [
            | inl same ↦ inl (same ∙ st.file)
            | inr (line, json, appended) ↦
                inr (t, Stamped-OnDisk t s line _ st follows dated json appended)
          ])

    check-IsAt :
        (t : Transaction D) (n : ℕ) (s : Bank D)
        → IsAt (checking t n) s
        → (let (r, s') = (check p t n >>= λ _. pure (writing t)) s in IsAt (settle p r) s')
    check-IsAt t n s st =
        lands (check p t n s) (λ _. writing t) s
          (λ a e.
            let (follows, dated, same) = check-ok p t n s (check p t n s).1 e in
            (
              subst (Stamped t) (sym same) st,
              subst (λ ts. Follows p (get_last? ts) t) st.log follows,
              dated,
            ))
          (inl (check-file p t n s ∙ st.file))

    -- Each stage leads to the next, or ends the call.
    advance-IsAt :
        (s : Stage D) (b' : Bank D)
        → IsAt s b'
        → (let (r, b'') = advance p s b' in IsAt (settle p r) b'')
    unfolding advance
    advance-IsAt (taken a) b' (same, start) =
        rw (same, start)
          (lands (take_and_stamp p amount b) (λ r. checking r.0 r.1) b
            (λ r e. take_and_stamp-Stamped r _ e) (inl (take_and_stamp-file p amount b)))
    advance-IsAt (checking t n) b' h = check-IsAt t n b' h
    advance-IsAt (writing t) b' h = write-IsAt t b' h
    advance-IsAt (crediting t) b' h =
        let kept = subst (λ f. OnDisk t f.content) (sym (credit-file p t b')) h in
        lands (credit p t b') (λ _. pushing t) b' (λ _ e. kept) (inr (t, kept))
    advance-IsAt (pushing t) b' h = h
    advance-IsAt (finished (ok t)) b' h = h
    advance-IsAt (finished (err e)) b' h = h
    advance-IsAt (finished panic) b' h = h
    advance-IsAt idle b' h = h
    advance-IsAt (finding id) b' h = h
    advance-IsAt (waiting a) b' h = h

    -- A call that came so far has done what its stage says.
    pub Work-IsAt : {s : Stage D} {b' : Bank D} → Work s b' → IsAt s b'
    Work-IsAt begun = (refl, refl)
    Work-IsAt (goes {s = s} {b' = b'} {b'' = b''} {r = r} w e) =
        subst (λ o. IsAt (settle p o.0) o.1) e (advance-IsAt s b' (Work-IsAt w))
