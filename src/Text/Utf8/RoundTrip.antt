-- ===== src/Text/Utf8/RoundTrip.antt =====
-- Decoding what was encoded, and the plain case of ASCII.
use mathlib.Core.Option
use dst_demo.Prelude.{
  inl, ℕ, suc, ◌+◌, ◌*◌, ◌/◌, ◌%◌, ◌∙◌, ◌≤◌, ◌<◌, ◌≡◌, refl, sym, ap, append_assoc, ◌⊎◌, Option,
  none, some, [], ◌∷◌, ◌++◌, arith, All, length,
}
use dst_demo.Text.{Text, Bytes, byte_len}
use dst_demo.Text.Utf8.{
  encode_char, into_bytes, Decoder, ready, pending, decode_byte, decode, from_utf8,
}

-- A code point that a Rust `char` can hold.
abbrev pub IsScalar : ℕ → Type 0
IsScalar c = (c < 0xD800) ⊎ ((0xE000 ≤ c) × (c < 0x110000))

abbrev pub IsAscii : ℕ → Type 0
IsAscii c = c < 0x80

-- The four kinds of byte that a well-formed text has.
lead_two : (x : ℕ) → x < 32 → decode_byte ready (0xC0 + x) ≡ some (pending 0 x 0x80, [])
unfolding decode_byte
lead_two x h = ground arith

lead_three : (x : ℕ) → x < 16 → decode_byte ready (0xE0 + x) ≡ some (pending 1 x 0x800, [])
unfolding decode_byte
lead_three x h = ground arith

lead_four : (x : ℕ) → x < 8 → decode_byte ready (0xF0 + x) ≡ some (pending 2 x 0x10000, [])
unfolding decode_byte
lead_four x h = ground arith

continue :
    (more acc least x : ℕ)
    → x < 64
    → decode_byte (pending (suc more) acc least) (0x80 + x)
      ≡ some (pending more (acc * 64 + x) least, [])
unfolding decode_byte
continue more acc least x h = ground arith

complete :
    (acc least x c : ℕ)
    → x < 64
    → acc * 64 + x ≡ c
    → least ≤ c
    → IsScalar c
    → decode_byte (pending 0 acc least) (0x80 + x) ≡ some (ready, c ∷ [])
unfolding decode_byte
complete acc least x c h e l s = ground arith

decode-step :
    (d : Decoder) (b : ℕ) (bs : Bytes) {d' : Decoder} {out : Text}
    → decode_byte d b ≡ some (d', out)
    → decode d (b ∷ bs) ≡ Option.map (λ s. out ++ s) (decode d' bs)
unfolding decode
decode-step ready b bs e = rw (e, decode)
decode-step (pending more acc least) b bs e = rw (e, decode)

map-nil_append : (o : Option Text) → Option.map (λ s. [] ++ s) o ≡ o
map-nil_append none = refl
map-nil_append (some s) = refl

skip :
    (d : Decoder) (b : ℕ) (bs : Bytes) {d' : Decoder}
    → decode_byte d b ≡ some (d', [])
    → decode d (b ∷ bs) ≡ decode d' bs
skip d b bs {d'} e = decode-step d b bs e ∙ map-nil_append (decode d' bs)

module _ (c : ℕ) (bs : Bytes) (h : IsScalar c) where
  decode_two :
      0x80 ≤ c
      → c < 0x800
      → decode ready ((0xC0 + c / 64) ∷ (0x80 + c % 64) ∷ bs)
        ≡ Option.map (λ s. c ∷ s) (decode ready bs)
  decode_two lo hi =
      skip ready _ _ (lead_two (c / 64) (omega arith))
      ∙ decode-step _ _ bs (complete (c / 64) 0x80 (c % 64) c (omega arith) (omega arith) lo h)

  decode_three :
      0x800 ≤ c
      → c < 0x10000
      → decode ready ((0xE0 + c / 4096) ∷ (0x80 + c / 64 % 64) ∷ (0x80 + c % 64) ∷ bs)
        ≡ Option.map (λ s. c ∷ s) (decode ready bs)
  decode_three lo hi =
      skip ready _ _ (lead_three (c / 4096) (omega arith))
      ∙ skip _ _ _ (continue 0 (c / 4096) 0x800 (c / 64 % 64) (omega arith))
      ∙ decode-step _ _ bs
          (complete (c / 4096 * 64 + c / 64 % 64) 0x800 (c % 64) c (omega arith) (omega arith) lo h)

  decode_four :
      0x10000 ≤ c
      → decode ready (
          (0xF0 + c / 262144)
          ∷ (0x80 + c / 4096 % 64)
          ∷ (0x80 + c / 64 % 64)
          ∷ (0x80 + c % 64)
          ∷ bs)
        ≡ Option.map (λ s. c ∷ s) (decode ready bs)
  decode_four lo =
      skip ready _ _ (lead_four (c / 262144) (omega arith))
      ∙ skip _ _ _ (continue 1 (c / 262144) 0x10000 (c / 4096 % 64) (omega arith))
      ∙ skip _ _ _
          (continue 0 (c / 262144 * 64 + c / 4096 % 64) 0x10000 (c / 64 % 64) (omega arith))
      ∙ decode-step _ _ bs (
          complete ((c / 262144 * 64 + c / 4096 % 64) * 64 + c / 64 % 64) 0x10000 (c % 64) c
            (omega arith) (omega arith) lo h)

  decode_one : c < 0x80 → decode ready (c ∷ bs) ≡ Option.map (λ s. c ∷ s) (decode ready bs)
  unfolding decode decode_byte
  decode_one hi = ground arith

  -- One character is decoded from the front of any bytes.
  decode-encode_char :
      decode ready (encode_char c ++ bs) ≡ Option.map (λ s. c ∷ s) (decode ready bs)
  unfolding encode_char
  decode-encode_char = ground (arith, decode_one, decode_two, decode_three, decode_four)

-- Decoding the UTF-8 form of a string of scalar values gives the string back.
pub from_utf8-into_bytes : (s : Text) → All IsScalar s → from_utf8 (into_bytes s) ≡ some s
unfolding from_utf8 into_bytes
from_utf8-into_bytes [] h = refl
from_utf8-into_bytes (c ∷ s) h =
    rw (decode-encode_char c (into_bytes s) h.0, from_utf8-into_bytes s h.1)

pub ascii-IsScalar : (s : Text) → All IsAscii s → All IsScalar s
ascii-IsScalar [] h = tt
ascii-IsScalar (c ∷ s) h = (inl (omega (arith, h.0)), ascii-IsScalar s h.1)

pub from_utf8-ascii : (s : Text) → All IsAscii s → from_utf8 s ≡ some s
unfolding from_utf8 decode
from_utf8-ascii [] h = refl
from_utf8-ascii (c ∷ s) h = ground (arith, from_utf8-ascii s h.1)

pub into_bytes-ascii : (s : Text) → All IsAscii s → into_bytes s ≡ s
unfolding into_bytes
into_bytes-ascii [] h = refl
into_bytes-ascii (c ∷ s) h = ground (arith, into_bytes-ascii s h.1)

pub byte_len-ascii : (s : Text) → All IsAscii s → byte_len s ≡ length s
unfolding byte_len
byte_len-ascii [] h = refl
byte_len-ascii (c ∷ s) h = ground (arith, byte_len-ascii s h.1)

pub into_bytes-append : (s t : Text) → into_bytes (s ++ t) ≡ into_bytes s ++ into_bytes t
unfolding into_bytes
into_bytes-append [] t = refl
into_bytes-append (c ∷ s) t =
    ap (λ r. encode_char c ++ r) (into_bytes-append s t)
    ∙ sym (append_assoc (encode_char c) (into_bytes s) (into_bytes t))
