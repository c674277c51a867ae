-- ===== src/Platform.antt =====
-- What the program uses and does not implement: the decimals of `rust_decimal`, the JSON of
-- `serde_json`, the clock, and whether the build checks integer overflow.
pub mod Laws
use dst_demo.Prelude.{ℕ, Bool, Option}
use dst_demo.Text.{Text}
use dst_demo.Transaction.{Transaction}

pub record Platform (D : Type 0) : Type 0 where
  -- `dec!(0.0)`, `+=` (`none` is its panic on overflow), and unary `-`
  pub zero_amount : D
  pub add : D → D → Option D
  pub neg : D → D
  -- `Decimal::from_str`, and the formats `{}` and `{:.2}`
  pub parse_amount : Text → Option D
  pub show_amount : D → Text
  pub show_cents : D → Text
  -- `serde_json::to_string` and `from_str` at `Transaction`
  pub to_json : Transaction D → Option Text
  pub from_json : Text → Option (Transaction D)
  -- what the n-th call of `switchy::time::now` gives, in whole seconds since the epoch; `none` is a
  -- time before it
  pub now : ℕ → Option ℕ
  -- whether `+` on integers panics on overflow, as in a debug build, or wraps
  pub overflow_checks : Bool
