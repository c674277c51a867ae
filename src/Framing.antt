-- ===== src/Framing.antt =====
-- The messages of the protocol: text that ends at a NUL, read from a stream in chunks.
-- `server/src/lib.rs` has `read_message` and `write_message`; `simulator/src/lib.rs` and
-- `tcp_client/src/main.rs` have a `read_message` of their own.
-- A stream is the list of what its reads return; at its end reads return no bytes.
pub mod Chunks
pub mod Messages
pub mod Wide
pub mod Size
mod Tests
use dst_demo.Prelude.{ℕ, ◌+◌, ◌-◌, Bool, Option, none, some, List, [], ◌∷◌, ◌++◌, ◌==◌}
use dst_demo.Text.{Text, Bytes, byte_len, split_at, position}
use dst_demo.Text.Utf8.{from_utf8, into_bytes}

-- `reader.read(&mut buf)`: the first `count` bytes of the buffer, or an error.
pub data Chunk : Type 0 where
  bytes : Bytes → Chunk
  failed : Chunk

abbrev pub Reader : Type 0
Reader = List Chunk

-- `Ok(Some(message))`, `Ok(None)`, `Err(FromUtf8)`, and a panic of a string operation.
pub data Read : Type 0 where
  message : Text → Read
  closed : Read
  invalid : Read
  panicked : Read

-- The result, what is left in the `message` buffer, and the reads to come.
abbrev pub ReadResult : Type 0
ReadResult = Read × Text × Reader

-- `x == 0 as char`
abbrev pub is_nul : ℕ → Bool
is_nul c = c == 0

abbrev deliver : Text → Reader → Option (Text × Text) → ReadResult
deliver buffer r none = (panicked, buffer, r)
deliver buffer r (some (value, [])) = (panicked, buffer, r)
deliver buffer r (some (value, _ ∷ remaining)) = (message value, remaining, r)

-- `split_off(index)`, `clone`, `remove(0)`: the message before a position, and the rest of the
-- buffer without its first character.
unfoldable pub take_message : ℕ → Text → Reader → ReadResult
take_message index buffer r = deliver buffer r (split_at index buffer)

-- The `loop`, one round for each read.
unfoldable pub read_loop : Text → Reader → ReadResult
read_loop buffer [] = (closed, buffer, [])
read_loop buffer (failed ∷ r) = (closed, buffer, r)
read_loop buffer (bytes [] ∷ r) = (closed, buffer, r)
read_loop buffer (bytes (b ∷ bs) ∷ r) = elim (from_utf8 (b ∷ bs)) [
  | none ↦ (invalid, buffer, r)
  | some value ↦ elim (position is_nul value) [
    | none ↦ read_loop (buffer ++ value) r
    | some index ↦
        take_message (byte_len (buffer ++ value) - byte_len value + index) (buffer ++ value) r
  ]
]

-- `read_message` of the server: first what the buffer already holds.
unfoldable pub read_message : Text → Reader → ReadResult
read_message buffer r = elim (position is_nul buffer) [
  | some index ↦ take_message index buffer r
  | none ↦ read_loop buffer r
]

-- The bytes that `write_message` and `send_message` send: the text and a NUL.
unfoldable pub frame : Text → Bytes
frame m = into_bytes m ++ 0 ∷ []
