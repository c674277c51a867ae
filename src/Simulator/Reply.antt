-- ===== src/Simulator/Reply.antt =====
-- The `read_message`s of the clients: `simulator/src/lib.rs` and `tcp_client/src/main.rs`.
use dst_demo.Prelude.{
  append_assoc, ◌≡◌, refl, ◌∙◌, ap, arith, [], ◌∷◌, ◌++◌, All, All-append, some, none,
}
use dst_demo.Text.{Text, position}
use dst_demo.Text.Utf8.RoundTrip.{IsAscii}
use dst_demo.Framing.{
  bytes, Reader, ReadResult, message, is_nul, take_message, read_loop, read_message, frame,
}
use dst_demo.Framing.Chunks.{stream, read_message-Reads, read_loop-chunk}
use dst_demo.Framing.Messages.{IsPlain, frame-plain}

-- The simulator's does not look at what the buffer holds.
unfoldable pub read_reply : Text → Reader → ReadResult
read_reply buffer r = read_loop buffer r

-- The TCP client's is the server's.
unfoldable pub read_line : Text → Reader → ReadResult
read_line buffer r = elim (position is_nul buffer) [
  | some index ↦ take_message index buffer r
  | none ↦ read_loop buffer r
]

-- `read_message(&mut String::new(), …)`, as the simulator's clients call it: the buffer is dropped.
abbrev pub read_fresh : Reader → ReadResult
read_fresh r = read_reply [] r

pub read_fresh-read_message : (r : Reader) → read_fresh r ≡ read_message [] r
unfolding read_reply read_message position
read_fresh-read_message r = refl

split_nil : (xs ys : Text) → xs ++ ys ≡ [] → (xs ≡ []) × (ys ≡ [])
split_nil [] ys e = (refl, e)
split_nil (x ∷ xs) ys e = ground arith

-- A plain reply that comes alone, in whatever chunks, is read whole by a call with a fresh buffer,
-- and nothing is left in the buffer that the call drops.
pub read_fresh-frame :
    (m : Text) (r : Reader)
    → IsPlain m
    → stream r ≡ frame m
    → (r' : Reader) × (read_fresh r ≡ (message m, [], r')) × (stream r' ≡ [])
read_fresh-frame m r plain e =
    let whole : stream r ≡ m ++ 0 ∷ [] = e ∙ frame-plain m plain.0 in
    let ascii : All IsAscii (stream r) =
      rw whole (All-append IsAscii m (0 ∷ []) plain.0 (omega arith, tt)) in
    let (buffer, r', done, left) = read_message-Reads [] r m [] plain.1 ascii whole in
    let (dropped, at_end) = split_nil buffer (stream r') left in
    (r', read_fresh-read_message r ∙ done ∙ ap (λ b. (message m, b, r')) dropped, at_end)

-- Two plain replies that come in one chunk: a call with a fresh buffer returns the first, and the
-- second is not in the stream for the next call, since it is left in the buffer that is dropped.
pub read_fresh_loses :
    (m m' : Text) (r : Reader)
    → IsPlain m
    → IsPlain m'
    → read_fresh (bytes (frame m ++ frame m') ∷ r) ≡ (message m, m' ++ 0 ∷ [], r)
unfolding read_reply
read_fresh_loses m m' r plain plain' =
    let after : Text = m' ++ 0 ∷ [] in
    let whole : frame m ++ frame m' ≡ m ++ 0 ∷ after =
      rw (frame-plain m plain.0, frame-plain m' plain'.0) (append_assoc m (0 ∷ []) after) in
    let ascii : All IsAscii (m ++ 0 ∷ after) =
      All-append IsAscii m (0 ∷ after) plain.0
        (omega arith, All-append IsAscii m' (0 ∷ []) plain'.0 (omega arith, tt)) in
    rw whole (read_loop-chunk m after r plain.1 ascii)
