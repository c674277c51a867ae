-- ===== src/Bank/Torn/Restart.antt =====
-- The file of a call of `create_transaction` whose write broke off, opened again by
-- `LocalBank::new`: `server/src/bank.rs`.
use dst_demo.Prelude.{
  ℕ, zero, suc, ◌<◌, ◌≤◌, ◌≡◌, refl, sym, ◌∙◌, ap, arith, Option, some, none, List, [], ◌∷◌, ◌++◌,
  take, length, take-append_left, take-ne, All-take, get_last?, get_last?-snoc, append-nil, All,
  All-append, ◌⊎◌, inl, inr, ltb, Bool-cases,
}
use mathlib.Core.Path.{subst}
use mathlib.Core.Option.{map}
use dst_demo.Prelude.Id.{ℤ, add_one}
use dst_demo.Text.{Text, split}
use dst_demo.Text.Utf8.{into_bytes}
use dst_demo.Text.Utf8.RoundTrip.{IsAscii, ascii-IsScalar, into_bytes-ascii}
use dst_demo.Outcome.{Outcome, ok, err, Sink, Fate, broken}
use dst_demo.Transaction.{Transaction}
use dst_demo.Platform.{Platform}
use dst_demo.Platform.Laws.{JsonLaws, CutLaws}
use dst_demo.Bank.{Bank, io, create_transaction}
use dst_demo.Bank.Open.{
  OpenError, not_json, non_empty, read_lines, next_id, start_bank, collected, new,
}
use dst_demo.Bank.Recovery.{IsStored, new-journal}
use dst_demo.Bank.Torn.{create_transaction-IsTorn}
use dst_demo.Bank.Torn.Lines.{take_line, one_line, ended_line}

module _ {D : Type 0} (p : Platform D) where
  -- The server starts with this log.
  abbrev pub StartsWith : List (Transaction D) → Outcome OpenError (Bank D) → Type 0
  StartsWith ts o = (bank : Bank D) × (o ≡ ok bank) × (bank.transactions ≡ ts)

  -- What becomes of a start after a write that broke off behind `n` bytes.
  abbrev pub Restarts :
      ℕ → Text → Transaction D → List (Transaction D) → Outcome OpenError (Bank D) → Type 0
  Restarts n line t ts o =
      ((n ≡ 0) × StartsWith ts o)
      ⊎ ((0 < n) × (n < length line) × (o ≡ err not_json))
      ⊎ ((length line ≤ n) × StartsWith (ts ++ t ∷ []) o)

  read_one :
      (w : Text)
      → read_lines p (w ∷ []) ≡ elim (p.from_json w) [ none ↦ none | some t ↦ some (t ∷ []) ]
  unfolding read_lines
  read_one w = ground arith

  module _ (json : JsonLaws p) (cut : CutLaws p) (b : Bank D) (stored : IsStored p b) (ticks : ℕ)
      (fates : List Fate) where
    abbrev opened : Text → Outcome OpenError (Bank D)
    opened rest = new p ticks (some (record { content = b.file.content ++ rest; fates = fates }))

    -- The file has more behind its journal, of which these are the lines.
    opened_with :
        (rest : Text) (o : Option (List (Transaction D)))
        → All IsAscii rest
        → read_lines p (non_empty (split b'\n' rest)) ≡ o
        → opened rest
          ≡ collected p ticks
              (record { content = b.file.content ++ rest; fates = fates })
              (map (λ us. b.transactions ++ us) o)
    opened_with rest o plain e =
        subst
          (λ bs.
            new p ticks (some (record { content = b.file.content ++ bs; fates = fates }))
            ≡ collected p ticks (record { content = b.file.content ++ bs; fates = fates })
                (map (λ us. b.transactions ++ us) o))
          (into_bytes-ascii rest plain)
          (new-journal p json b rest ticks fates stored (ascii-IsScalar rest plain)
            ∙ ap
                (λ l.
                  collected p ticks
                    (record { content = b.file.content ++ into_bytes rest; fates = fates })
                    (map (λ us. b.transactions ++ us) l))
                e)

    started :
        (file : Sink) (ts : List (Transaction D)) (id : ℤ)
        → next_id p (get_last? ts) ≡ some id
        → StartsWith ts (collected p ticks file (some ts))
    started file ts id e = (
      record {
        file = file;
        transactions = ts;
        current_id = id;
        balance = p.zero_amount;
        ticks = ticks;
      },
      ap (start_bank p ticks file ts) e,
      refl,
    )

    opened_old : StartsWith b.transactions (opened [])
    unfolding read_lines non_empty split
    opened_old = subst (StartsWith b.transactions) (sym (opened_with [] (some []) tt refl)) (
        subst
          (λ ts. StartsWith b.transactions (
            collected p ticks (record { content = b.file.content ++ []; fates = fates }) (some ts)))
          (sym (append-nil b.transactions)) (started _ b.transactions b.current_id stored.in_step))

    opened_new :
        (t : Transaction D) (next : ℤ) (rest : Text)
        → All IsAscii rest
        → t.id ≡ b.current_id
        → add_one p.overflow_checks b.current_id ≡ some next
        → read_lines p (non_empty (split b'\n' rest)) ≡ some (t ∷ [])
        → StartsWith (b.transactions ++ t ∷ []) (opened rest)
    unfolding next_id
    opened_new t next rest plain id counts e =
        subst (StartsWith (b.transactions ++ t ∷ []))
          (sym (opened_with rest (some (t ∷ [])) plain e))
          (started _ (b.transactions ++ t ∷ []) next (
            ap (next_id p) (get_last?-snoc b.transactions t)
            ∙ ap (add_one p.overflow_checks) id
            ∙ counts))

    opened_line :
        (n : ℕ) (t : Transaction D) (next : ℤ) (line : Text)
        → p.to_json t ≡ some line
        → t.id ≡ b.current_id
        → add_one p.overflow_checks b.current_id ≡ some next
        → length line ≤ n
        → StartsWith (b.transactions ++ t ∷ []) (opened (take n (line ++ b'\n' ∷ [])))
    opened_line n t next line js id counts all =
        let ascii = cut.ascii t line js in
        let lacks = json.one_line t line js in
        let ne = json.not_empty t line js in
        let whole : (read_lines p (line ∷ []) ≡ some (t ∷ [])) =
          read_one line ∙ rw (json.reads t line js) in
        elim (take_line n line b'\n' all) [
          | inl e ↦
              subst (λ r. StartsWith (b.transactions ++ t ∷ []) (opened r)) (sym e)
                (opened_new t next line ascii id counts
                  (ap (read_lines p) (one_line line ne lacks) ∙ whole))
          | inr e ↦
              subst (λ r. StartsWith (b.transactions ++ t ∷ []) (opened r)) (sym e)
                (opened_new t next (line ++ b'\n' ∷ [])
                  (All-append IsAscii line (b'\n' ∷ []) ascii (omega arith, tt)) id counts
                  (ap (read_lines p) (ended_line line ne lacks) ∙ whole))
        ]

    opened_part :
        (n : ℕ) (t : Transaction D) (line : Text)
        → p.to_json t ≡ some line
        → 0 < n
        → n < length line
        → opened (take n (line ++ b'\n' ∷ [])) ≡ err not_json
    opened_part n t line js pos short =
        let w = take n line in
        let lacks = All-take _ n line (json.one_line t line js) in
        ap opened (take-append_left n line (b'\n' ∷ []) (omega arith))
        ∙ opened_with w none (All-take _ n line (cut.ascii t line js)) (
            ap (read_lines p) (one_line w (take-ne n line pos short) lacks)
            ∙ (read_one w ∙ rw (cut.cut t line n js pos short)))

    -- What was written of the line, nothing, a part or all of it.
    opened_after :
        (n : ℕ) (t : Transaction D) (next : ℤ) (line : Text)
        → p.to_json t ≡ some line
        → t.id ≡ b.current_id
        → add_one p.overflow_checks b.current_id ≡ some next
        → Restarts n line t b.transactions (opened (take n (line ++ b'\n' ∷ [])))
    opened_after zero t next line js id counts = inl (refl, opened_old)
    opened_after (suc n) t next line js id counts = elim (Bool-cases (ltb (suc n) (length line))) [
      | inl part ↦
          let short : suc n < length line = ground arith in
          inr (inl (omega arith, short, opened_part (suc n) t line js (omega arith) short))
      | inr whole ↦
          let all : length line ≤ suc n = ground arith in
          inr (inr (all, opened_line (suc n) t next line js id counts all))
    ]

    -- From a bank that its file holds: if a call of `create_transaction` fails because its write
    -- breaks off behind `n` bytes, the entry of the call being the next one, then the file that it
    -- leaves is opened again with the old log, if nothing was written; never again, since
    -- `LocalBank::new` fails, if a part of the line was written; and with the entry of the failed
    -- call in the log, if the whole line was written, with or without its end. JSON is one line of
    -- ASCII that is read back, and a part of it from its start on is no JSON.
    pub create_transaction-Restarts :
        (amount : D) (n : ℕ) (later : List Fate) (b' : Bank D)
        → b.file.fates ≡ broken n ∷ later
        → create_transaction p amount b ≡ (err io, b')
        → (t : Transaction D) × (line : Text) × (t.amount ≡ amount)
          × (t.id ≡ b.current_id)
          × (p.to_json t ≡ some line)
          × Restarts n line t b.transactions
              (new p ticks (some (record { content = b'.file.content; fates = fates })))
    create_transaction-Restarts amount n later b' breaks e =
        let torn = create_transaction-IsTorn p amount n later b b' breaks e in
        let ascii = cut.ascii torn.entry torn.line torn.serialized in
        let file : b'.file.content ≡ b.file.content ++ take n (torn.line ++ b'\n' ∷ []) =
          torn.file
          ∙ ap (λ bs. b.file.content ++ take n bs)
              (into_bytes-ascii (torn.line ++ b'\n' ∷ [])
                (All-append IsAscii torn.line (b'\n' ∷ []) ascii (omega arith, tt))) in
        (
          torn.entry,
          torn.line,
          torn.value,
          torn.id,
          torn.serialized,
          subst
              (λ c.
                Restarts n torn.line torn.entry b.transactions
                  (new p ticks (some (record { content = c; fates = fates }))))
              (sym file)
              (opened_after n torn.entry torn.next torn.line torn.serialized torn.id torn.counts),
        )
