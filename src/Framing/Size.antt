-- ===== src/Framing/Size.antt =====
-- What a call of `read_message` uses up: the characters of the buffer and the bytes to come.

use dst_demo.Prelude.{
  ℕ, zero, suc, ◌+◌, ◌-◌, ◌≤◌, ◌≡◌, refl, arith, none, some, Option, inl, inr, [], ◌∷◌, ◌++◌,
  length, length-append, Option-cases,
}
use dst_demo.Text.{Text, byte_len, split_at, position, len_utf8}
use dst_demo.Text.Utf8.{from_utf8}
use dst_demo.Text.Utf8.Size.{from_utf8-length}
use dst_demo.Framing.{
  bytes, failed, Reader, Read, message, closed, invalid, panicked, ReadResult, is_nul, deliver,
  take_message, read_loop, read_message,
}

-- The bytes of all chunks.
unfoldable pub pending : Reader → ℕ
pending [] = 0
pending (failed ∷ r) = pending r
pending (bytes bs ∷ r) = length bs + pending r

-- The NUL of a message that was read.
abbrev pub nul_of : Read → ℕ
nul_of (message m) = 1
nul_of closed = 0
nul_of invalid = 0
nul_of panicked = 0

-- The result is paid for by `n` characters and bytes.
abbrev pub Costs : ReadResult → ℕ → Type 0
Costs (res, buffer, r) n = nul_of res + length buffer + pending r ≤ n

split_at-length : (n : ℕ) (s u v : Text) → split_at n s ≡ some (u, v) → length v ≤ length s
unfolding split_at
split_at-length zero s u v e = ground arith
split_at-length (suc n) [] u v e = ground arith
split_at-length (suc n) (c ∷ s) u v e = elim (Option-cases (split_at (suc n - len_utf8 c) s)) [
  | inl short ↦ absurd (ground arith)
  | inr ((w, x), found) ↦
      let below = split_at-length (suc n - len_utf8 c) s w x found in ground arith
]

deliver-Costs :
    (buffer : Text) (r : Reader) (o : Option (Text × Text))
    → ((u v : Text) → o ≡ some (u, v) → length v ≤ length buffer)
    → Costs (deliver buffer r o) (length buffer + pending r)
deliver-Costs buffer r none h = omega arith
deliver-Costs buffer r (some (u, [])) h = omega arith
deliver-Costs buffer r (some (u, c ∷ v)) h = omega (arith, h u (c ∷ v) refl)

take_message-Costs :
    (i : ℕ) (buffer : Text) (r : Reader)
    → Costs (take_message i buffer r) (length buffer + pending r)
unfolding take_message
take_message-Costs i buffer r =
    deliver-Costs buffer r (split_at i buffer) (split_at-length i buffer)

read_loop-Costs :
    (buffer : Text) (r : Reader) → Costs (read_loop buffer r) (length buffer + pending r)
unfolding read_loop pending
read_loop-Costs buffer [] = omega arith
read_loop-Costs buffer (failed ∷ r) = omega arith
read_loop-Costs buffer (bytes [] ∷ r) = omega arith
read_loop-Costs buffer (bytes (b ∷ bs) ∷ r) = elim (Option-cases (from_utf8 (b ∷ bs))) [
  | inl bad ↦ rw (bad, read_loop) (omega arith)
  | inr (value, good) ↦
      let fits = from_utf8-length (b ∷ bs) value good in
      let grown = length-append buffer value in
      elim (Option-cases (position is_nul value)) [
        | inl miss ↦
            let rest = read_loop-Costs (buffer ++ value) r in
            rw (good, miss, read_loop) (omega arith)
        | inr (i, hit) ↦
            let cost =
              take_message-Costs (byte_len (buffer ++ value) - byte_len value + i) (buffer ++ value)
                r in
            rw (good, hit, read_loop) (omega arith)
      ]
]

-- A call of `read_message` never lengthens what the buffer and the chunks hold, and a message that
-- it returns has used up at least its NUL.
pub read_message-Costs :
    (buffer : Text) (r : Reader) → Costs (read_message buffer r) (length buffer + pending r)
unfolding read_message
read_message-Costs buffer r = elim (Option-cases (position is_nul buffer)) [
  | inl miss ↦ rw (miss, read_message) (read_loop-Costs buffer r)
  | inr (i, hit) ↦ rw (hit, read_message) (take_message-Costs i buffer r)
]
