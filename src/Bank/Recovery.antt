-- ===== src/Bank/Recovery.antt =====
-- Reading the bank back from the file that its own calls wrote.

use mathlib.Core.Path.{subst}
use dst_demo.Prelude.{
  ℕ, ◌≡◌, ◌≢◌, refl, sym, ◌∙◌, ap, some, none, [], ◌∷◌, ◌++◌, arith, Option, List, get_last?,
  get_last?-snoc, Option-cases, All, All-append, append_assoc, append-nil, inl, inr,
}
use mathlib.Core.Option.{some-injective, map}
use dst_demo.Prelude.Id.{add_one}
use dst_demo.Text.{Text, split}
use dst_demo.Text.Lines.{split-append}
use dst_demo.Text.Utf8.{into_bytes, from_utf8}
use dst_demo.Text.Utf8.RoundTrip.{IsScalar, from_utf8-into_bytes, into_bytes-append}
use dst_demo.Outcome.{ok, Sink, Fate}
use dst_demo.Transaction.{Transaction}
use dst_demo.Platform.{Platform}
use dst_demo.Platform.Laws.{JsonLaws}
use dst_demo.Bank.{Bank, create_transaction}
use dst_demo.Bank.Open.{
  cons_read, non_empty, read_lines, next_id, start_bank, collected, parse_file, new,
}
use dst_demo.Bank.Create.{create_transaction-Created}

non_empty-cons : (w : Text) (ws : List Text) → w ≢ [] → non_empty (w ∷ ws) ≡ w ∷ non_empty ws
unfolding non_empty
non_empty-cons [] ws h = absurd (h refl)
non_empty-cons (c ∷ w) ws h = refl

module _ {D : Type 0} (p : Platform D) where
  abbrev line_then : Option Text → Option Text → Option Text
  line_then none r = none
  line_then (some line) none = none
  line_then (some line) (some rest) = some (line ++ b'\n' ∷ rest)

  -- The text of the file that holds these transactions, one JSON line for each.
  unfoldable pub journal : List (Transaction D) → Option Text
  journal [] = some []
  journal (t ∷ ts) = line_then (p.to_json t) (journal ts)

  -- The file holds the log, and `current_id` is what `new` would choose.
  pub record IsStored (b : Bank D) : Type 0 where
    pub text : Text
    pub journaled : journal b.transactions ≡ some text
    pub file : b.file.content ≡ into_bytes text
    pub in_step : next_id p (get_last? b.transactions) ≡ some b.current_id

  journal_cons :
      (t : Transaction D) (ts : List (Transaction D)) (text : Text)
      → journal (t ∷ ts) ≡ some text
      → (line : Text) × (rest : Text) × (p.to_json t ≡ some line)
        × (journal ts ≡ some rest)
        × (text ≡ line ++ b'\n' ∷ rest)
  unfolding journal
  journal_cons t ts text e = elim (Option-cases (p.to_json t)) [
    | inl bad ↦ absurd (ground arith)
    | inr (line, good) ↦ elim (Option-cases (journal ts)) [
      | inl bad ↦ absurd (ground arith)
      | inr (rest, later) ↦ (line, rest, good, later, ground arith)
    ]
  ]

  pub journal-snoc :
      (ts : List (Transaction D)) (t : Transaction D) (text line : Text)
      → journal ts ≡ some text
      → p.to_json t ≡ some line
      → journal (ts ++ t ∷ []) ≡ some (text ++ (line ++ b'\n' ∷ []))
  unfolding journal
  journal-snoc [] t text line e f = ground arith
  journal-snoc (u ∷ ts) t text line e f =
      let (first, rest, json, later, whole) = journal_cons u ts text e in
      rw (json, journal-snoc ts t rest line later f, whole)
        (ap some (sym (append_assoc first (b'\n' ∷ rest) (line ++ b'\n' ∷ []))))

  -- A call of `create_transaction` that returns leaves a stored bank stored.
  pub create_transaction-IsStored :
      (amount : D) (b : Bank D) (t : Transaction D) (b' : Bank D)
      → IsStored b
      → create_transaction p amount b ≡ (ok t, b')
      → IsStored b'
  unfolding next_id
  create_transaction-IsStored amount b t b' s e =
      let c = create_transaction-Created p amount b t b' e in
      record {
        text = s.text ++ (c.line ++ b'\n' ∷ []);
        journaled =
            rw c.pushed (journal-snoc b.transactions t s.text c.line s.journaled c.serialized);
        file =
            c.appended
            ∙ (ap (λ bs. bs ++ into_bytes (c.line ++ b'\n' ∷ [])) s.file
                ∙ sym (into_bytes-append s.text (c.line ++ b'\n' ∷ [])));
        in_step =
            rw (c.pushed, get_last?-snoc b.transactions t)
              (ap (add_one p.overflow_checks) c.id ∙ c.next);
      }

  module _ (laws : JsonLaws p) where
    pub journal-IsScalar :
        (ts : List (Transaction D)) (text : Text) → journal ts ≡ some text → All IsScalar text
    unfolding journal
    journal-IsScalar [] text e = subst (All IsScalar) (some-injective [] text e) tt
    journal-IsScalar (t ∷ ts) text e =
        let (line, rest, json, later, whole) = journal_cons t ts text e in
        rw whole (
          All-append IsScalar line (b'\n' ∷ rest) (laws.scalar t line json)
            (inl (omega arith), journal-IsScalar ts rest later))

    map_id : (o : Option (List (Transaction D))) → map (λ us. us) o ≡ o
    map_id none = refl
    map_id (some us) = refl

    cons_some :
        (t : Transaction D) (ts : List (Transaction D)) (o : Option (List (Transaction D)))
        → cons_read p (some t) (map (λ us. ts ++ us) o) ≡ map (λ us. t ∷ ts ++ us) o
    cons_some t ts none = refl
    cons_some t ts (some us) = refl

    -- The lines of a journal are read back as its transactions, whatever comes behind them.
    pub read_lines-journal :
        (ts : List (Transaction D)) (text rest : Text)
        → journal ts ≡ some text
        → read_lines p (non_empty (split b'\n' (text ++ rest)))
          ≡ map (λ us. ts ++ us) (read_lines p (non_empty (split b'\n' rest)))
    unfolding journal read_lines non_empty split
    read_lines-journal [] text rest e =
        subst
          (λ s.
            read_lines p (non_empty (split b'\n' (s ++ rest)))
            ≡ map (λ us. us) (read_lines p (non_empty (split b'\n' rest))))
          (some-injective [] text e) (sym (map_id _))
    read_lines-journal (t ∷ ts) text rest e =
        let (line, later, json, tail, whole) = journal_cons t ts text e in
        ap (λ s. read_lines p (non_empty (split b'\n' s)))
          (ap (λ s. s ++ rest) whole ∙ append_assoc line (b'\n' ∷ later) rest)
        ∙ ap (λ ws. read_lines p (non_empty ws))
            (split-append b'\n' line (later ++ rest) (laws.one_line t line json))
        ∙ ap (read_lines p)
            (non_empty-cons line (split b'\n' (later ++ rest)) (laws.not_empty t line json))
        ∙ ap (λ o. cons_read p o (read_lines p (non_empty (split b'\n' (later ++ rest)))))
            (laws.reads t line json)
        ∙ ap (cons_read p (some t)) (read_lines-journal ts later rest tail)
        ∙ cons_some t ts (read_lines p (non_empty (split b'\n' rest)))

    -- Opening the file of a stored bank gives its transactions and its next identifier again; the
    -- balance starts at zero, whatever it was. The JSON form is one line that is read back.
    pub new-IsStored :
        (b : Bank D) (ticks : ℕ) (fates : List Fate)
        → IsStored b
        → new p ticks (some (record { content = b.file.content; fates = fates }))
          ≡ ok (record {
            file = record { content = b.file.content; fates = fates };
            transactions = b.transactions;
            current_id = b.current_id;
            balance = p.zero_amount;
            ticks = ticks;
          })
    unfolding new read_lines non_empty split
    new-IsStored b ticks fates s =
        let file : Sink = record { content = b.file.content; fates = fates } in
        ap (λ bs. parse_file p ticks file (from_utf8 bs)) s.file
        ∙ ap (parse_file p ticks file)
            (from_utf8-into_bytes s.text (journal-IsScalar b.transactions s.text s.journaled))
        ∙ ap (λ w. collected p ticks file (read_lines p (non_empty (split b'\n' w))))
            (sym (append-nil s.text))
        ∙ ap (collected p ticks file) (
            read_lines-journal b.transactions s.text [] s.journaled
            ∙ ap some (append-nil b.transactions))
        ∙ ap (start_bank p ticks file b.transactions) s.in_step

    -- What is read back of a file that has more behind the lines of its journal.
    pub new-journal :
        (b : Bank D) (rest : Text) (ticks : ℕ) (fates : List Fate)
        → IsStored b
        → All IsScalar rest
        → (let file : Sink = record {
          content = b.file.content ++ into_bytes rest;
          fates = fates;
        } in
            new p ticks (some file)
            ≡ collected p ticks file
                (map (λ us. b.transactions ++ us) (read_lines p (non_empty (split b'\n' rest)))))
    unfolding new
    new-journal b rest ticks fates s plain =
        let file : Sink = record { content = b.file.content ++ into_bytes rest; fates = fates } in
        ap (λ bs. parse_file p ticks file (from_utf8 bs))
          (ap (λ bs. bs ++ into_bytes rest) s.file ∙ sym (into_bytes-append s.text rest))
        ∙ ap (parse_file p ticks file) (
            from_utf8-into_bytes (s.text ++ rest) (
              All-append IsScalar s.text rest (journal-IsScalar b.transactions s.text s.journaled)
                plain))
        ∙ ap (collected p ticks file) (read_lines-journal b.transactions s.text rest s.journaled)
