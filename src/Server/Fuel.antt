-- ===== src/Server/Fuel.antt =====
-- The loop of a client's task ends: each message uses up a NUL, and there are no more bytes than
-- the stream brings.
use dst_demo.Prelude.{
  ℕ, zero, suc, ◌+◌, ◌<◌, ◌≤◌, ◌≡◌, ◌≢◌, refl, arith, Option, none, some, inl, inr, length,
  Option-cases,
}
use dst_demo.Text.{Text}
use dst_demo.Outcome.{Outcome, ok, err, panic}
use dst_demo.Framing.{Read, read_message, message, closed, invalid, panicked}
use dst_demo.Framing.Size.{pending, nul_of, read_message-Costs}
use dst_demo.Platform.{Platform}
use dst_demo.Server.{round, received, serve}
use dst_demo.Server.Actions.{ActionNames}
use dst_demo.Server.Task.{World, Error, on_bank, read, read_outcome, write}
use dst_demo.Server.Chains.{Rules, obey_keeps}

-- A read is paid for, and a message costs at least its NUL.
abbrev nul_read : Outcome Error (Option Text) → ℕ
nul_read (ok (some m)) = 1
nul_read (ok none) = 0
nul_read (err e) = 0
nul_read panic = 0

nul_read_lem : (r : Read) → nul_read (read_outcome r) ≡ nul_of r
nul_read_lem (message m) = refl
nul_read_lem closed = refl
nul_read_lem invalid = refl
nul_read_lem panicked = refl

module _ {D : Type 0} where
  -- The characters in the buffer and the bytes to come.
  unfoldable pub size : World D → ℕ
  size w = length w.message + pending w.reader

  read-size : (w : World D) → nul_read (read w).0 + size (read w).1 ≤ size w
  unfolding read size
  read-size w = omega (
    arith,
    read_message-Costs w.message w.reader,
    nul_read_lem (read_message w.message w.reader).0,
  )

  module _ (p : Platform D) (names : ActionNames) where
    rules : Rules p (λ (v w : World D). size w ≤ size v)
    unfolding write on_bank size
    rules = record {
      reflexive = λ w. omega arith;
      transitive = λ a b c h k. omega arith;
      writes = λ m w. omega arith;
      reads = λ w. omega (arith, read-size w);
      cancels = λ w. omega arith;
      calls = λ c m h w. omega arith;
    }

    received-size :
        (o : Outcome Error (Option Text) × World D) (n : ℕ)
        → nul_read o.0 + size o.1 ≤ n
        → (received p names o).0 ≡ none
        → size (received p names o).1 < n
    received-size (ok none, w) n h e = absurd (ground arith)
    received-size (err _, w) n h e = absurd (ground arith)
    received-size (panic, w) n h e = absurd (ground arith)
    received-size (ok (some a), w) n h e =
        let later = obey_keeps p _ rules names (names.from_str a) w in omega arith

    -- A round after which the loop goes on has left less to read.
    round-size : (w : World D) → (round p names w).0 ≡ none → size (round p names w).1 < size w
    unfolding round
    round-size w e = received-size (read w) (size w) (read-size w) e

    -- The loop of a client's task ends by itself, whatever the client sends and however each
    -- handler ends: fuel above the number of characters in the buffer and bytes to come is never
    -- used up.
    pub serve_ends : (fuel : ℕ) (w : World D) → size w < fuel → (serve p names fuel w).0 ≢ none
    unfolding serve
    serve_ends zero w h = absurd (omega arith)
    serve_ends (suc fuel) w h = elim (Option-cases (round p names w).0) [
      | inl on ↦
          rw (on, serve) (serve_ends fuel (round p names w).1 (omega (arith, round-size w on)))
      | inr (e, over) ↦ rw (over, serve) (ground arith)
    ]
