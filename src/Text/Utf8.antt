-- ===== src/Text/Utf8.antt =====
-- `String::from_utf8` and `String::into_bytes`: the UTF-8 form of a string.
pub mod RoundTrip
pub mod Size
use mathlib.Core.Option
use dst_demo.Prelude.{
  ℕ, zero, suc, ◌+◌, ◌-◌, ◌*◌, ◌/◌, ◌%◌, ◌<◌, ◌≤◌, Bool, Option, none, some, [], ◌∷◌, ◌++◌, ltb,
  leb, if◌then◌else◌, ◌&&◌, ◌||◌, not,
}
use dst_demo.Text.{Text, Bytes}

encode_char : ℕ → Bytes
encode_char c =
    if ltb c 0x80
    then c ∷ []
    else if ltb c 0x800
    then (0xC0 + c / 64) ∷ (0x80 + c % 64) ∷ []
    else if ltb c 0x10000
    then (0xE0 + c / 4096) ∷ (0x80 + c / 64 % 64) ∷ (0x80 + c % 64) ∷ []
    else (0xF0 + c / 262144) ∷ (0x80 + c / 4096 % 64) ∷ (0x80 + c / 64 % 64) ∷ (0x80 + c % 64) ∷ []

-- `String::into_bytes`, and `as_bytes`.
unfoldable pub into_bytes : Text → Bytes
unfolding encode_char
into_bytes [] = []
into_bytes (c ∷ s) = encode_char c ++ into_bytes s

-- A decoder between two characters, or inside one: how many bytes follow the next one, the value so
-- far, and the least value that a sequence of this length may have.
pub data Decoder : Type 0 where
  ready : Decoder
  pending : (more acc least : ℕ) → Decoder

-- A Unicode scalar value: a code point that is no surrogate.
abbrev is_scalar : ℕ → Bool
is_scalar c = ltb c 0xD800 || (leb 0xE000 c && ltb c 0x110000)

finish : ℕ → ℕ → Option (Decoder × Text)
finish acc least = if leb least acc && is_scalar acc then some (ready, acc ∷ []) else none

-- One byte, with the characters that it completes; `none` where the text is no UTF-8.
decode_byte : Decoder → ℕ → Option (Decoder × Text)
unfolding finish
decode_byte ready b =
    if ltb b 0x80
    then some (ready, b ∷ [])
    else if ltb b 0xC0
    then none
    else if ltb b 0xE0
    then some (pending 0 (b - 0xC0) 0x80, [])
    else if ltb b 0xF0
    then some (pending 1 (b - 0xE0) 0x800, [])
    else if ltb b 0xF8
    then some (pending 2 (b - 0xF0) 0x10000, [])
    else none
decode_byte (pending zero acc least) b =
    if leb 0x80 b && ltb b 0xC0 then finish (acc * 64 + (b - 0x80)) least else none
decode_byte (pending (suc more) acc least) b =
    if leb 0x80 b && ltb b 0xC0 then some (pending more (acc * 64 + (b - 0x80)) least, []) else none

decode : Decoder → Bytes → Option Text
unfolding decode_byte
decode ready [] = some []
decode (pending _ _ _) [] = none
decode d (b ∷ bs) = elim (decode_byte d b) [
  | none ↦ none
  | some (d', out) ↦ Option.map (λ s. out ++ s) (decode d' bs)
]

-- `String::from_utf8`, with `none` for a `FromUtf8Error`.
unfoldable pub from_utf8 : Bytes → Option Text
unfolding decode
from_utf8 bs = decode ready bs
