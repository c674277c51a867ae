-- ===== src/Transaction.antt =====
-- `Transaction` of `server/src/bank.rs`, over a type `D` of decimals.
pub mod Display
mod Tests
use dst_demo.Prelude.{ℕ}
use dst_demo.Prelude.Id.{ℤ}

pub record Transaction (D : Type 0) : Type 0 where
  pub id : ℤ
  pub amount : D
  pub created_at : ℕ
