-- ===== src/Framing/Wide.antt =====
-- `read_message` takes a number of characters for a number of bytes: messages that are not ASCII.

use dst_demo.Prelude.{
  ℕ, zero, suc, ◌-◌, ◌≤◌, ◌<◌, ◌≡◌, refl, inl, inr, ◌≢◌, Option, none, some, [], ◌∷◌, ◌++◌, arith,
  length, leb, Bool-cases, Option-cases,
}
use dst_demo.Text.{Text, len_utf8, byte_len, split_at}
use dst_demo.Text.Split.{len_utf8_pos, position-append}
use dst_demo.Framing.{Reader, message, deliver, is_nul, take_message, read_message}
use dst_demo.Framing.Chunks.{NulFree}

length-le-byte_len : (s : Text) → length s ≤ byte_len s
unfolding byte_len
length-le-byte_len [] = omega arith
length-le-byte_len (c ∷ s) = omega (arith, len_utf8_pos c, length-le-byte_len s)

wide_length : (x y : Text) (c : ℕ) → 0x80 ≤ c → length (x ++ c ∷ y) < byte_len (x ++ c ∷ y)
unfolding byte_len
wide_length [] y c h = ground (arith, length-le-byte_len y)
wide_length (d ∷ x) y c h = omega (arith, len_utf8_pos d, wide_length x y c h)

-- What is split off in front has as many bytes as were asked for.
byte_len-split_at : (n : ℕ) (s a b : Text) → split_at n s ≡ some (a, b) → byte_len a ≡ n
unfolding split_at byte_len
byte_len-split_at zero s a b e = ground arith
byte_len-split_at (suc n) [] a b e = ground arith
byte_len-split_at (suc n) (c ∷ s) a b e = elim (Bool-cases (leb (len_utf8 c) (suc n))) [
  | inr over ↦ absurd (ground arith)
  | inl fits ↦ elim (Option-cases (split_at (suc n - len_utf8 c) s)) [
    | inl bad ↦ absurd (ground arith)
    | inr ((a', b'), good) ↦ ground (arith, byte_len-split_at (suc n - len_utf8 c) s a' b' good)
  ]
]

deliver-message :
    (s : Text) (r : Reader) (o : Option (Text × Text)) (m : Text)
    → (deliver s r o).0 ≡ message m
    → (back : Text) × (o ≡ some (m, back))
deliver-message s r none m e = absurd (ground arith)
deliver-message s r (some (value, [])) m e = absurd (ground arith)
deliver-message s r (some (value, d ∷ back)) m e = (d ∷ back, ground arith)

take_message-ne :
    (i : ℕ) (s : Text) (r : Reader) (m : Text) → byte_len m ≢ i → (take_message i s r).0 ≢ message m
unfolding take_message
take_message-ne i s r m h e =
    let (back, cut) = deliver-message s r (split_at i s) m e in h (byte_len-split_at i s m back cut)

-- A message without NUL that holds a character beyond ASCII is never read as it was sent once it is
-- in the buffer: another text is returned, or the task panics.
pub wide_message_garbled :
    (x y rest : Text) (c : ℕ) (r : Reader)
    → 0x80 ≤ c
    → NulFree (x ++ c ∷ y)
    → (read_message ((x ++ c ∷ y) ++ 0 ∷ rest) r).0 ≢ message (x ++ c ∷ y)
unfolding read_message
wide_message_garbled x y rest c r h n =
    rw (position-append is_nul (x ++ c ∷ y) 0 rest n refl, read_message)
      (take_message-ne _ _ r _ (λ e. omega (arith, wide_length x y c h)))
