-- ===== src/Transaction/Display.antt =====
-- The text form of a transaction: `impl Display` and `impl FromStr` of `server/src/bank.rs`.
pub mod RoundTrip
pub mod Errors
use mathlib.Core.Option
use dst_demo.Prelude.{ℕ, Bool, Option, none, some, List, [], ◌∷◌, ◌++◌}
use dst_demo.Text.{Text, codes, split_at, split}
use dst_demo.Text.Number.{show_ℕ, show_ℤ, parse_i32, parse_unsigned, u64_max}
use dst_demo.Outcome.{Outcome, ok, err, panic, Action, ◌>>=◌, ◌>>◌, pure, or_throw, unwrap}
use dst_demo.Transaction.{Transaction}
use dst_demo.Platform.{Platform}

-- `TransactionFromStrError`
pub data FromStrError : Type 0 where
  missing_id missing_created_at missing_amount parse_int from_str_decimal : FromStrError

-- `components.next()`
abbrev pub next : Action (List Text) FromStrError (Option Text)
next [] = (ok none, [])
next (w ∷ ws) = (ok (some w), ws)

-- `&s[n..]`
abbrev pub slice_from : ℕ → Text → Option Text
slice_from n s = Option.map (λ (r : Text × Text). r.1) (split_at n s)

module _ {D : Type 0} (p : Platform D) where
  -- `to_string`, by `Display`
  unfoldable pub show_transaction : Transaction D → Text
  show_transaction t =
      codes "id="
      ++ (show_ℤ t.id
          ++ (codes " created_at="
              ++ (show_ℕ t.created_at ++ (codes " amount=$" ++ p.show_cents t.amount))))

  unfoldable pub from_components : Action (List Text) FromStrError (Transaction D)
  from_components = do
    id ← next
    id ← or_throw missing_id id
    id ← unwrap (slice_from 3 id)
    id ← or_throw parse_int (parse_i32 id)
    created_at ← next
    created_at ← or_throw missing_created_at created_at
    created_at ← unwrap (slice_from 11 created_at)
    created_at ← or_throw parse_int (parse_unsigned u64_max created_at)
    amount ← next
    amount ← or_throw missing_created_at amount
    amount ← unwrap (slice_from 8 amount)
    amount ← or_throw from_str_decimal (p.parse_amount amount)
    pure (record { id = id; amount = amount; created_at = created_at })

  -- `Transaction::from_str`; `panic` is a slice past the end of a component.
  unfoldable pub from_str : Text → Outcome FromStrError (Transaction D)
  from_str s = (from_components (split b' ' s)).0
