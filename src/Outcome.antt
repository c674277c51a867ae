-- ===== src/Outcome.antt =====
-- What a call of the program comes to, and the state monad that its stateful functions are
-- written in: a value, an error that the caller receives, or a panic. The state comes back in each
-- case, since what was written before an error or a panic stays written.
mod Sinks
pub mod Laws
pub use Sinks.*
use dst_demo.Prelude.{Bool, true, false, Option, none, some}

pub data Outcome (E A : Type 0) : Type 0 where
  ok : A → Outcome E A
  err : E → Outcome E A
  panic : Outcome E A

abbrev pub Action : Type 0 → Type 0 → Type 0 → Type 0
Action S E A = S → Outcome E A × S

infixl 5 ◌>>=◌ ◌>>◌
abbrev pub ◌>>=◌ : {S E A B : Type 0} → Action S E A → (A → Action S E B) → Action S E B
◌>>=◌ m f s =
    let (r, s') = m s in elim r [ ok a ↦ f a s' | err e ↦ (err e, s') | panic ↦ (panic, s') ]

abbrev pub ◌>>◌ : {S E A B : Type 0} → Action S E A → Action S E B → Action S E B
m >> k = m >>= λ _. k

module _ {S E : Type 0} where
  abbrev pub pure : {A : Type 0} → A → Action S E A
  pure a s = (ok a, s)

  abbrev pub throw : {A : Type 0} → E → Action S E A
  throw e s = (err e, s)

  abbrev pub gets : {A : Type 0} → (S → A) → Action S E A
  gets f s = (ok (f s), s)

  abbrev pub modify : (S → S) → Action S E (Unit {0})
  modify f s = (ok tt, f s)

  -- `unwrap`, and arithmetic that panics on overflow.
  abbrev pub unwrap : {A : Type 0} → Option A → Action S E A
  unwrap none s = (panic, s)
  unwrap (some a) s = (ok a, s)

  -- `ok_or(e)?`
  abbrev pub or_throw : {A : Type 0} → E → Option A → Action S E A
  or_throw e none s = (err e, s)
  or_throw e (some a) s = (ok a, s)

  -- `assert!`
  abbrev pub assert : Bool → Action S E (Unit {0})
  assert true s = (ok tt, s)
  assert false s = (panic, s)
