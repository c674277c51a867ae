-- ===== src/Framing/Tests.antt =====
-- Reading and writing messages at concrete texts.
use dst_demo.Prelude.{◌≡◌, ◌≢◌, refl, [], ◌∷◌, ◌++◌, arith}
use dst_demo.Text.{codes, byte_len, split_at, position}
use dst_demo.Text.Utf8.{into_bytes, from_utf8}
use dst_demo.Framing.{
  bytes, Reader, message, invalid, panicked, take_message, read_loop, read_message, frame,
}
use dst_demo.Framing.Chunks.{stream, Reads, read_message-Reads}
use dst_demo.Framing.Messages.{frames, ReadsAll, frames-ReadsAll}
use dst_demo.Framing.Wide.{wide_message_garbled}

reading : Unit {0}
unfolding read_message read_loop take_message split_at position byte_len from_utf8 into_bytes stream
    frame frames
reading = tt

-- Two messages in three chunks, the first chunk ending inside the first message.
abbrev chunks : Reader
chunks =
    bytes (codes "HEAL") ∷ bytes (codes "TH" ++ 0 ∷ codes "CL") ∷ bytes (codes "OSE" ++ 0 ∷ []) ∷ []

first_message :
    read_message [] chunks
    ≡ (message (codes "HEALTH"), codes "CL", bytes (codes "OSE" ++ 0 ∷ []) ∷ [])
unfolding reading
first_message = refl

-- "é" and a NUL: the position of the NUL is 1 character and 2 bytes.
wide_panics : (read_message [] (bytes (0xC3 ∷ 0xA9 ∷ 0 ∷ []) ∷ [])).0 ≡ panicked
unfolding reading
wide_panics = refl

-- A chunk that ends inside "é".
split_character : (read_message [] (bytes (0xC3 ∷ []) ∷ bytes (0xA9 ∷ 0 ∷ []) ∷ [])).0 ≡ invalid
unfolding reading
split_character = refl

read_message-Reads_example :
    Reads (read_message [] chunks) (codes "HEALTH") (codes "CLOSE" ++ 0 ∷ [])
unfolding reading
read_message-Reads_example =
    read_message-Reads [] chunks (codes "HEALTH") (codes "CLOSE" ++ 0 ∷ []) (ground arith)
      (omega arith) refl

frames-ReadsAll_example : ReadsAll (codes "HEALTH" ∷ codes "CLOSE" ∷ []) [] chunks []
unfolding reading
frames-ReadsAll_example =
    frames-ReadsAll (codes "HEALTH" ∷ codes "CLOSE" ∷ []) [] chunks []
      ((omega arith, ground arith), ((omega arith, ground arith), tt)) tt refl

wide_message_garbled_example :
    (read_message ((codes "a" ++ 0xE9 ∷ codes "b") ++ 0 ∷ []) []).0
    ≢ message (codes "a" ++ 0xE9 ∷ codes "b")
wide_message_garbled_example =
    wide_message_garbled (codes "a") (codes "b") [] 0xE9 [] (omega arith) (ground arith)
