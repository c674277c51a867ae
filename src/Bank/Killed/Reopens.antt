-- ===== src/Bank/Killed/Reopens.antt =====
-- The file that a killed call of `create_transaction` has left, opened again by `LocalBank::new`:
-- `server/src/bank.rs`.
use dst_demo.Prelude.{
  ℕ, ◌<◌, ◌≡◌, refl, sym, ◌∙◌, ap, some, List, [], ◌∷◌, ◌++◌, get_last?-snoc, All, All-append, ◌⊎◌,
  inl, inr,
}
use mathlib.Core.Path.{subst}
use dst_demo.Prelude.Id.{ℤ, add_one}
use dst_demo.Text.Utf8.{into_bytes}
use dst_demo.Text.Utf8.RoundTrip.{into_bytes-append}
use dst_demo.Outcome.{ok, err, panic, Sink, Fate}
use dst_demo.Transaction.{Transaction}
use dst_demo.Platform.{Platform}
use dst_demo.Platform.Laws.{JsonLaws}
use dst_demo.Bank.{Bank}
use dst_demo.Bank.Open.{new, next_id}
use dst_demo.Bank.Recovery.{IsStored, journal-snoc, new-IsStored}
use dst_demo.Bank.Sound.{Linked, Linked-snoc}
use dst_demo.Bank.Stages.{
  Stage, idle, finding, waiting, taken, checking, writing, crediting, pushing, finished,
}
use dst_demo.Bank.Killed.{OnDisk, Left, IsAt, Work, Work-IsAt}

module _ {D : Type 0} (p : Platform D) where
  -- The bank that is opened on this file has a log, which is linked and dated, that its file
  -- holds, and of which `P` holds.
  pub record Reopens (P : List (Transaction D) → Type 0) (ticks : ℕ) (file : Sink) : Type 0 where
    pub bank : Bank D
    pub opens : new p ticks (some file) ≡ ok bank
    pub same_file : bank.file ≡ file
    pub same_ticks : bank.ticks ≡ ticks
    pub linked : Linked p bank.transactions
    pub dated : All (λ t. 0 < t.created_at) bank.transactions
    pub stored : IsStored p bank
    pub log : P bank.transactions

module _ {D : Type 0} (p : Platform D) (amount : D) (b : Bank D) where
  -- The log read back has one entry more, of the amount, the next identifier and the time.
  abbrev pub HasEntry : Transaction D → List (Transaction D) → Type 0
  HasEntry t ts =
      (t.amount ≡ amount)
      × (t.id ≡ b.current_id)
      × (p.now b.ticks ≡ some t.created_at)
      × (ts ≡ b.transactions ++ t ∷ [])

  -- What the file of a call that came so far is read back as.
  abbrev pub IsReadBack : Stage D → List (Transaction D) → Type 0
  IsReadBack (taken a) ts = ts ≡ b.transactions
  IsReadBack (checking t n) ts = ts ≡ b.transactions
  IsReadBack (writing t) ts = ts ≡ b.transactions
  IsReadBack (crediting t) ts = HasEntry t ts
  IsReadBack (pushing t) ts = HasEntry t ts
  IsReadBack (finished (ok t)) ts = HasEntry t ts
  IsReadBack (finished (err e)) ts = (ts ≡ b.transactions) ⊎ ((t : Transaction D) × HasEntry t ts)
  IsReadBack (finished panic) ts = (ts ≡ b.transactions) ⊎ ((t : Transaction D) × HasEntry t ts)
  IsReadBack idle ts = ⊥
  IsReadBack (finding id) ts = ⊥
  IsReadBack (waiting a) ts = ⊥

  module _ (json : JsonLaws p) (stored : IsStored p b) (linked : Linked p b.transactions)
      (dated : All (λ t. 0 < t.created_at) b.transactions) where
    old_log-Reopens :
        (P : List (Transaction D) → Type 0) (ticks : ℕ) (fates : List Fate) (content : List ℕ)
        → content ≡ b.file.content
        → P b.transactions
        → Reopens p P ticks (record { content = content; fates = fates })
    old_log-Reopens P ticks fates content same h =
        subst (λ c. Reopens p P ticks (record { content = c; fates = fates })) (sym same)
          (record {
            bank = record b {
              file = record { content = b.file.content; fates = fates };
              balance = p.zero_amount;
              ticks = ticks;
            };
            opens = new-IsStored p json b ticks fates stored;
            same_file = refl;
            same_ticks = refl;
            linked = linked;
            dated = dated;
            stored = record {
              text = stored.text;
              journaled = stored.journaled;
              file = stored.file;
              in_step = stored.in_step;
            };
            log = h;
          })

    -- The bank with the entry whose line is in the file.
    abbrev with_entry : Transaction D → ℤ → Sink → ℕ → Bank D
    with_entry t next file ticks = record {
      file = file;
      transactions = b.transactions ++ t ∷ [];
      current_id = next;
      balance = p.zero_amount;
      ticks = ticks;
    }

    entry-IsStored :
        (t : Transaction D) (file : Sink) (ticks : ℕ) (d : OnDisk p amount b t file.content)
        → IsStored p (with_entry t d.next file ticks)
    unfolding next_id
    entry-IsStored t file ticks d = record {
      text = stored.text ++ (d.line ++ b'\n' ∷ []);
      journaled = journal-snoc p b.transactions t stored.text d.line stored.journaled d.serialized;
      file =
          d.appended
          ∙ (ap (λ bs. bs ++ into_bytes (d.line ++ b'\n' ∷ [])) stored.file
              ∙ sym (into_bytes-append stored.text (d.line ++ b'\n' ∷ [])));
      in_step =
          ap (next_id p) (get_last?-snoc b.transactions t)
          ∙ (ap (add_one p.overflow_checks) d.id ∙ d.counts);
    }

    new_entry-Reopens :
        (P : List (Transaction D) → Type 0) (ticks : ℕ) (fates : List Fate) (content : List ℕ)
        (t : Transaction D)
        → OnDisk p amount b t content
        → P (b.transactions ++ t ∷ [])
        → Reopens p P ticks (record { content = content; fates = fates })
    new_entry-Reopens P ticks fates content t d h =
        let file : Sink = record { content = content; fates = fates } in
        let whole = entry-IsStored t file ticks d in
        record {
          bank = with_entry t d.next file ticks;
          opens = new-IsStored p json (with_entry t d.next file ticks) ticks fates whole;
          same_file = refl;
          same_ticks = refl;
          linked = Linked-snoc p b.transactions t linked d.follows;
          dated = All-append _ b.transactions (t ∷ []) dated (d.dated, tt);
          stored = whole;
          log = h;
        }

    Left-Reopens :
        (ticks : ℕ) (fates : List Fate) (b' : Bank D)
        → Left p amount b b'
        → Reopens p
            (λ ts. (ts ≡ b.transactions) ⊎ ((t : Transaction D) × HasEntry t ts))
            ticks
            (record { content = b'.file.content; fates = fates })
    Left-Reopens ticks fates b' (inl same) =
        old_log-Reopens _ ticks fates b'.file.content (ap (λ f. f.content) same) (inl refl)
    Left-Reopens ticks fates b' (inr (t, d)) =
        new_entry-Reopens _ ticks fates b'.file.content t d
          (inr (t, (d.value, d.id, d.stamped, refl)))

    IsAt-Reopens :
        (s : Stage D) (b' : Bank D) (ticks : ℕ) (fates : List Fate)
        → IsAt p amount b s b'
        → Reopens p (IsReadBack s) ticks (record { content = b'.file.content; fates = fates })
    IsAt-Reopens (taken a) b' ticks fates h =
        old_log-Reopens _ ticks fates _ (ap (λ x. x.file.content) h.1) refl
    IsAt-Reopens (checking t n) b' ticks fates h =
        old_log-Reopens _ ticks fates _ (ap (λ f. f.content) h.file) refl
    IsAt-Reopens (writing t) b' ticks fates h =
        old_log-Reopens _ ticks fates _ (ap (λ f. f.content) h.0.file) refl
    IsAt-Reopens (crediting t) b' ticks fates h =
        new_entry-Reopens _ ticks fates _ t h (h.value, h.id, h.stamped, refl)
    IsAt-Reopens (pushing t) b' ticks fates h =
        new_entry-Reopens _ ticks fates _ t h (h.value, h.id, h.stamped, refl)
    IsAt-Reopens (finished (ok t)) b' ticks fates h =
        new_entry-Reopens _ ticks fates _ t h (h.value, h.id, h.stamped, refl)
    IsAt-Reopens (finished (err e)) b' ticks fates h = Left-Reopens ticks fates b' h
    IsAt-Reopens (finished panic) b' ticks fates h = Left-Reopens ticks fates b' h
    IsAt-Reopens idle b' ticks fates h = absurd h
    IsAt-Reopens (finding id) b' ticks fates h = absurd h
    IsAt-Reopens (waiting a) b' ticks fates h = absurd h

    -- From a bank that its file holds, whose log is linked and dated: if the server is killed in a
    -- call of `create_transaction`, at any of the awaits of a lock at which the call may stand or
    -- after it, however it ended, then opening the file again succeeds and gives a log that is
    -- linked and dated and that the file holds: the log from before the call, if its line is not
    -- written yet; with the entry of its amount, identifier and time at the end, if it is written,
    -- although the balance and the log in memory may not have it yet, and always if the call has
    -- returned; and one of the two, if the call failed. Writes succeed, the clock may have been
    -- read as often as it may, and JSON is one line that is read back.
    pub Work-Reopens :
        (s : Stage D) (b' : Bank D) (ticks : ℕ) (fates : List Fate)
        → b.file.fates ≡ []
        → Work p amount b s b'
        → Reopens p (IsReadBack s) ticks (record { content = b'.file.content; fates = fates })
    Work-Reopens s b' ticks fates succeed w =
        IsAt-Reopens s b' ticks fates (Work-IsAt p amount b succeed w)
