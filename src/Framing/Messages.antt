-- ===== src/Framing/Messages.antt =====
-- Whole conversations: what `write_message` sends is what `read_message` returns.
use dst_demo.Prelude.{
  ◌≡◌, ◌∙◌, List, [], ◌∷◌, ◌++◌, append_assoc, append-nil, arith, All, All-append, All-append_left,
  All-append_right,
}
use dst_demo.Text.{Text, Bytes}
use dst_demo.Text.Split.{position_absent}
use dst_demo.Text.Utf8.RoundTrip.{IsAscii, from_utf8-ascii, into_bytes-ascii}
use dst_demo.Framing.{
  bytes, failed, Reader, message, closed, is_nul, read_loop, read_message, frame,
}
use dst_demo.Framing.Chunks.{NulFree, stream, read_message-Reads}

-- A text that the protocol carries: ASCII, without NUL.
abbrev pub IsPlain : Text → Type 0
IsPlain m = All IsAscii m × NulFree m

pub frame-plain : (m : Text) → All IsAscii m → frame m ≡ m ++ 0 ∷ []
unfolding frame
frame-plain m a = rw (into_bytes-ascii m a)

-- The bytes of several calls of `write_message`, one after the other.
unfoldable pub frames : List Text → Bytes
frames [] = []
frames (m ∷ ms) = frame m ++ frames ms

pub frames-IsAscii : (ms : List Text) → All IsPlain ms → All IsAscii (frames ms)
unfolding frames
frames-IsAscii [] h = tt
frames-IsAscii (m ∷ ms) (h, hs) = rw (frame-plain m h.0) (
    All-append IsAscii (m ++ 0 ∷ []) (frames ms)
      (All-append IsAscii m (0 ∷ []) h.0 (omega arith, tt)) (frames-IsAscii ms hs))

-- Calls of `read_message`, each from where the one before it stopped, return these messages.
abbrev pub ReadsAll : List Text → Text → Reader → Text → Type 0
ReadsAll [] buffer r rest = buffer ++ stream r ≡ rest
ReadsAll (m ∷ ms) buffer r rest =
    (buffer' : Text) × (r' : Reader) × (read_message buffer r ≡ (message m, buffer', r'))
    × ReadsAll ms buffer' r' rest

-- What a series of `write_message` calls sends is read back message by message, in order and
-- unchanged, whatever the chunks that it arrives in, if the texts are ASCII without NUL; what
-- follows is left for later.
pub frames-ReadsAll :
    (ms : List Text) (buffer : Text) (r : Reader) (rest : Text)
    → All IsPlain ms
    → All IsAscii rest
    → buffer ++ stream r ≡ frames ms ++ rest
    → ReadsAll ms buffer r rest
unfolding frames
frames-ReadsAll [] buffer r rest h a e = e
frames-ReadsAll (m ∷ ms) buffer r rest (h, hs) a e =
    let whole : All IsAscii (buffer ++ stream r) =
      rw e (All-append IsAscii (frames (m ∷ ms)) rest (frames-IsAscii (m ∷ ms) (h, hs)) a) in
    let split : buffer ++ stream r ≡ m ++ 0 ∷ (frames ms ++ rest) =
      e ∙ rw (frame-plain m h.0) (simp append_assoc) in
    let (buffer', r', read, left) =
      read_message-Reads buffer r m (frames ms ++ rest) h.1 whole split in
    (buffer', r', read, frames-ReadsAll ms buffer' r' rest hs a left)

read_loop_waits :
    (buffer : Text) (r : Reader)
    → NulFree (stream r)
    → All IsAscii (stream r)
    → (r' : Reader) × (read_loop buffer r ≡ (closed, buffer ++ stream r, r'))
unfolding read_loop stream
read_loop_waits buffer [] n a = ([], rw append-nil)
read_loop_waits buffer (failed ∷ r) n a = (r, rw append-nil)
read_loop_waits buffer (bytes [] ∷ r) n a = (r, rw append-nil)
read_loop_waits buffer (bytes (b ∷ bs) ∷ r) n a =
    let value : Text = b ∷ bs in
    let plain = All-append_left IsAscii value (stream r) a in
    let clear = All-append_left _ value (stream r) n in
    let (r', e) =
      read_loop_waits (buffer ++ value) r (All-append_right _ value (stream r) n)
        (All-append_right IsAscii value (stream r) a) in
    (
      r',
      rw (from_utf8-ascii value plain, position_absent is_nul value clear, read_loop)
          (rw e (rw append_assoc)),
    )

-- Where the input is ASCII and no NUL comes before the stream ends or fails, `read_message` returns
-- no message, and keeps all that it has read in the buffer.
pub read_message_waits :
    (buffer : Text) (r : Reader)
    → NulFree (buffer ++ stream r)
    → All IsAscii (buffer ++ stream r)
    → (r' : Reader) × (read_message buffer r ≡ (closed, buffer ++ stream r, r'))
unfolding read_message
read_message_waits buffer r n a =
    let (r', e) =
      read_loop_waits buffer r (All-append_right _ buffer (stream r) n)
        (All-append_right IsAscii buffer (stream r) a) in
    (r', rw (position_absent is_nul buffer (All-append_left _ buffer (stream r) n), read_message) e)
