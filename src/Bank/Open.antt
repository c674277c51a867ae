-- ===== src/Bank/Open.antt =====
-- `LocalBank::new`: the bank is read back from its file.
use dst_demo.Prelude.{ℕ, Option, none, some, List, [], ◌∷◌, get_last?}
use dst_demo.Prelude.Id.{ℤ, pos, add_one}
use dst_demo.Text.{Text, split}
use dst_demo.Text.Utf8.{from_utf8}
use dst_demo.Outcome.{Outcome, ok, err, panic, Sink}
use dst_demo.Transaction.{Transaction}
use dst_demo.Platform.{Platform}
use dst_demo.Bank.{Bank}

-- The `std::io::Error`s of `new`: `open` fails, the file is no UTF-8, or a line is no transaction.
pub data OpenError : Type 0 where
  open_failed not_utf8 not_json : OpenError

-- `filter(|x| !x.is_empty())`
unfoldable pub non_empty : List Text → List Text
non_empty [] = []
non_empty ([] ∷ ws) = non_empty ws
non_empty ((c ∷ w) ∷ ws) = (c ∷ w) ∷ non_empty ws

module _ {D : Type 0} (p : Platform D) where
  abbrev pub cons_read :
      Option (Transaction D) → Option (List (Transaction D)) → Option (List (Transaction D))
  cons_read none r = none
  cons_read (some t) none = none
  cons_read (some t) (some ts) = some (t ∷ ts)

  -- `map(serde_json::from_str).collect::<Result<Vec<Transaction>, _>>()`
  unfoldable pub read_lines : List Text → Option (List (Transaction D))
  read_lines [] = some []
  read_lines (w ∷ ws) = cons_read (p.from_json w) (read_lines ws)

  -- `transactions.last().map_or(1, |x| x.id + 1)`
  unfoldable pub next_id : Option (Transaction D) → Option ℤ
  next_id none = some (pos 1)
  next_id (some last) = add_one p.overflow_checks last.id

  abbrev pub start_bank : ℕ → Sink → List (Transaction D) → Option ℤ → Outcome OpenError (Bank D)
  start_bank ticks file ts none = panic
  start_bank ticks file ts (some id) = ok (record {
    file = file;
    transactions = ts;
    current_id = id;
    balance = p.zero_amount;
    ticks = ticks;
  })

  abbrev pub collected : ℕ → Sink → Option (List (Transaction D)) → Outcome OpenError (Bank D)
  collected ticks file none = err not_json
  collected ticks file (some ts) = start_bank ticks file ts (next_id (get_last? ts))

  abbrev pub parse_file : ℕ → Sink → Option Text → Outcome OpenError (Bank D)
  parse_file ticks file none = err not_utf8
  parse_file ticks file (some text) =
      collected ticks file (read_lines (non_empty (split b'\n' text)))

  -- `ticks` counts the earlier readings of the clock; `none` is a file that cannot be opened.
  unfoldable pub new : ℕ → Option Sink → Outcome OpenError (Bank D)
  new ticks none = err open_failed
  new ticks (some file) = parse_file ticks file (from_utf8 file.content)
