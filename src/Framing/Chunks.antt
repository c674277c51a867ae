-- ===== src/Framing/Chunks.antt =====
-- Reading messages from a stream of ASCII text, however the network cuts it into chunks.
use dst_demo.Prelude.{
  ℕ, ◌+◌, ◌-◌, ◌≡◌, refl, sym, ◌∙◌, inl, inr, false, [], ◌∷◌, ◌++◌, append_assoc, append-nil, arith,
  All, All-append, All-append_left, All-append_right, ==_iff,
}
use mathlib.Core.Path.{subst}
use dst_demo.Text.{Text, Bytes, byte_len}
use dst_demo.Text.Split.{byte_len-append, split_at-append, Found, position-Found}
use dst_demo.Text.Utf8.RoundTrip.{IsAscii, from_utf8-ascii, byte_len-ascii}
use dst_demo.Framing.{
  bytes, failed, Reader, message, ReadResult, is_nul, take_message, read_loop, read_message,
}

abbrev pub NulFree : Text → Type 0
NulFree = All (λ c. is_nul c ≡ false)

-- The bytes that the stream still brings before it ends or fails.
unfoldable pub stream : Reader → Bytes
stream [] = []
stream (failed ∷ r) = []
stream (bytes [] ∷ r) = []
stream (bytes (b ∷ bs) ∷ r) = (b ∷ bs) ++ stream r

pub not-NulFree : (m rest : Text) → ¬ NulFree (m ++ 0 ∷ rest)
not-NulFree [] rest h = ground arith
not-NulFree (c ∷ m) rest h = not-NulFree m rest h.1

-- The first NUL is in one place only.
pub first_nul :
    (a b s t : Text) → NulFree a → NulFree b → a ++ 0 ∷ s ≡ b ++ 0 ∷ t → (a ≡ b) × (s ≡ t)
first_nul [] [] s t ha hb e = (refl, cc)
first_nul [] (d ∷ b) s t ha hb e = ground arith
first_nul (c ∷ a) [] s t ha hb e = ground arith
first_nul (c ∷ a) (d ∷ b) s t ha hb e =
    let (p, q) = first_nul a b s t ha.1 hb.1 (ground arith) in (ground arith, q)

pub take_message-append :
    (s : Text) (c : ℕ) (rest : Text) (r : Reader)
    → take_message (byte_len s) (s ++ c ∷ rest) r ≡ (message s, rest, r)
unfolding take_message
take_message-append s c rest r = rw (split_at-append s (c ∷ rest))

-- What a call of `read_message` or of its loop has done that read `m`, and left `rest` to read.
abbrev pub Reads : ReadResult → Text → Text → Type 0
Reads res m rest =
    (buffer : Text) × (r : Reader) × (res ≡ (message m, buffer, r)) × (buffer ++ stream r ≡ rest)

-- The position that the loop computes is the end of the message, as long as the chunk is ASCII.
cut_index :
    (buffer value : Text) (i : ℕ) (f : Found is_nul value i)
    → All IsAscii value
    → byte_len (buffer ++ value) - byte_len value + i ≡ byte_len (buffer ++ f.front)
cut_index buffer value i f a =
    let front = All-append_left IsAscii f.front (f.char ∷ f.back) (rw (← f.whole) a) in
    omega (
      arith,
      byte_len-append buffer value,
      byte_len-append buffer f.front,
      byte_len-ascii f.front front,
      f.index,
    )

pub regroup :
    (buffer value : Text) (i : ℕ) (f : Found is_nul value i) (more : Text)
    → buffer ++ (value ++ more) ≡ (buffer ++ f.front) ++ 0 ∷ (f.back ++ more)
regroup buffer value i f more =
    let zero_char : f.char ≡ 0 = (==_iff f.char 0).0 f.passes in
    rw (f.whole, zero_char) (simp append_assoc)

pub round-eq :
    (buffer value : Text) (i : ℕ) (f : Found is_nul value i) (r : Reader)
    → All IsAscii value
    → take_message (byte_len (buffer ++ value) - byte_len value + i) (buffer ++ value) r
      ≡ (message (buffer ++ f.front), f.back, r)
round-eq buffer value i f r a =
    let whole : buffer ++ value ≡ (buffer ++ f.front) ++ f.char ∷ f.back =
      rw f.whole (sym (append_assoc buffer f.front (f.char ∷ f.back))) in
    rw (cut_index buffer value i f a, whole)
      (take_message-append (buffer ++ f.front) f.char f.back r)

held :
    (buffer : Text) (i : ℕ) (f : Found is_nul buffer i) (r : Reader)
    → All IsAscii buffer
    → take_message i buffer r ≡ (message f.front, f.back, r)
held buffer i f r a =
    let front = All-append_left IsAscii f.front (f.char ∷ f.back) (rw (← f.whole) a) in
    let index : i ≡ byte_len f.front = omega (arith, byte_len-ascii f.front front, f.index) in
    rw (index, f.whole) (take_message-append f.front f.char f.back r)

-- A stream that ends or fails has not brought the NUL that `e` speaks of.
ended : (buffer m rest : Text) {P : Type 0} → NulFree buffer → buffer ++ [] ≡ m ++ 0 ∷ rest → P
ended buffer m rest hb e = absurd (not-NulFree m rest (rw (← e) (rw (append-nil buffer) hb)))

read_loop-Reads :
    (buffer : Text) (r : Reader) (m rest : Text)
    → NulFree buffer
    → NulFree m
    → All IsAscii (stream r)
    → buffer ++ stream r ≡ m ++ 0 ∷ rest
    → Reads (read_loop buffer r) m rest
unfolding read_loop stream
read_loop-Reads buffer [] m rest hb hm a e = ended buffer m rest hb e
read_loop-Reads buffer (failed ∷ r) m rest hb hm a e = ended buffer m rest hb e
read_loop-Reads buffer (bytes [] ∷ r) m rest hb hm a e = ended buffer m rest hb e
read_loop-Reads buffer (bytes (b ∷ bs) ∷ r) m rest hb hm a e =
    let value : Text = b ∷ bs in
    let plain = All-append_left IsAscii value (stream r) a in
    let later = All-append_right IsAscii value (stream r) a in
    elim (position-Found is_nul value) [
      | inl (miss, clear) ↦
          rw (from_utf8-ascii value plain, miss, read_loop)
            (read_loop-Reads (buffer ++ value) r m rest (All-append _ buffer value hb clear) hm
              later (append_assoc buffer value (stream r) ∙ e))
      | inr (i, hit, f) ↦
          let (same, left) =
            first_nul (buffer ++ f.front) m (f.back ++ stream r) rest
              (All-append _ buffer f.front hb f.absent) hm
              (sym (regroup buffer value i f (stream r)) ∙ e) in
          rw (from_utf8-ascii value plain, hit, read_loop)
            (f.back, r, rw (← same) (round-eq buffer value i f r plain), left)
    ]

-- However the network cuts ASCII text into chunks: if what the buffer holds and the stream brings
-- is a message without NUL, a NUL and some rest, then `read_message` returns that message, and
-- leaves in the buffer and the stream together exactly the rest.
pub read_message-Reads :
    (buffer : Text) (r : Reader) (m rest : Text)
    → NulFree m
    → All IsAscii (buffer ++ stream r)
    → buffer ++ stream r ≡ m ++ 0 ∷ rest
    → Reads (read_message buffer r) m rest
unfolding read_message
read_message-Reads buffer r m rest hm a e = elim (position-Found is_nul buffer) [
  | inl (miss, clear) ↦
      rw (miss, read_message)
        (read_loop-Reads buffer r m rest clear hm (All-append_right IsAscii buffer (stream r) a) e)
  | inr (i, hit, f) ↦
      let plain = All-append_left IsAscii buffer (stream r) a in
      let (same, left) =
        first_nul f.front m (f.back ++ stream r) rest f.absent hm
          (sym (regroup [] buffer i f (stream r)) ∙ e) in
      rw (hit, read_message) (f.back, r, rw (← same) (held buffer i f r plain), left)
]

cut_chunk :
    (b : ℕ) (bs : Bytes) (r : Reader) (m rest : Text)
    → NulFree m
    → All IsAscii (b ∷ bs)
    → b ∷ bs ≡ m ++ 0 ∷ rest
    → read_loop [] (bytes (b ∷ bs) ∷ r) ≡ (message m, rest, r)
unfolding read_loop
cut_chunk b bs r m rest hm a e = elim (position-Found is_nul (b ∷ bs)) [
  | inl (miss, clear) ↦ absurd (not-NulFree m rest (subst NulFree e clear))
  | inr (i, hit, f) ↦
      let (same, left) =
        first_nul f.front m (f.back ++ []) rest f.absent hm
          (sym (regroup [] (b ∷ bs) i f []) ∙ (append-nil (b ∷ bs) ∙ e)) in
      let rest_eq : f.back ≡ rest = sym (append-nil f.back) ∙ left in
      rw (from_utf8-ascii (b ∷ bs) a, hit, read_loop)
        (round-eq [] (b ∷ bs) i f r a ∙ rw (same, rest_eq) refl)
]

-- A chunk that holds a message, its NUL and more gives the message and leaves the rest in the
-- buffer.
pub read_loop-chunk :
    (m rest : Text) (r : Reader)
    → NulFree m
    → All IsAscii (m ++ 0 ∷ rest)
    → read_loop [] (bytes (m ++ 0 ∷ rest) ∷ r) ≡ (message m, rest, r)
read_loop-chunk [] rest r hm a = cut_chunk 0 rest r [] rest hm a refl
read_loop-chunk (c ∷ m) rest r hm a = cut_chunk c (m ++ 0 ∷ rest) r (c ∷ m) rest hm a refl
