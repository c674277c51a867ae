-- ===== src/Text/Utf8/Size.antt =====
-- A decoded string has no more characters than it had bytes.
use mathlib.Core.Option
use dst_demo.Prelude.{
  ℕ, zero, suc, ◌≤◌, ◌≡◌, refl, arith, Option, none, some, inl, inr, [], ◌∷◌, ◌++◌, length,
  length-append, Option-cases,
}
use dst_demo.Text.{Text, Bytes}
use dst_demo.Text.Utf8.{Decoder, ready, pending, finish, decode_byte, decode, from_utf8}

decode_byte-length :
    (d : Decoder) (b : ℕ) (d' : Decoder) (out : Text)
    → decode_byte d b ≡ some (d', out)
    → length out ≤ 1
unfolding decode_byte finish
decode_byte-length ready b d' out e = ground arith
decode_byte-length (pending zero acc least) b d' out e = ground arith
decode_byte-length (pending (suc more) acc least) b d' out e = ground arith

next-length :
    (o : Option (Decoder × Text)) (bs : Bytes) (s : Text)
    → ((d : Decoder) (out : Text) → o ≡ some (d, out) → length out ≤ 1)
    → ((d : Decoder) (rest : Text) → decode d bs ≡ some rest → length rest ≤ length bs)
    → elim o [ none ↦ none | some (d, out) ↦ Option.map (λ s. out ++ s) (decode d bs) ] ≡ some s
    → length s ≤ suc (length bs)
next-length none bs s h k e = absurd (ground arith)
next-length (some (d, out)) bs s h k e = elim (Option-cases (decode d bs)) [
  | inl none_left ↦ absurd (ground arith)
  | inr (rest, found) ↦
      let whole : s ≡ out ++ rest = ground arith in
      rw whole (omega (arith, length-append out rest, h d out refl, k d rest found))
]

decode-length : (d : Decoder) (bs : Bytes) (s : Text) → decode d bs ≡ some s → length s ≤ length bs
unfolding decode
decode-length ready [] s e = ground arith
decode-length (pending _ _ _) [] s e = ground arith
decode-length ready (b ∷ bs) s e =
    next-length (decode_byte ready b) bs s (λ d out. decode_byte-length ready b d out)
      (λ d rest. decode-length d bs rest) e
decode-length (pending m a l) (b ∷ bs) s e =
    next-length (decode_byte (pending m a l) b) bs s
      (λ d out. decode_byte-length (pending m a l) b d out) (λ d rest. decode-length d bs rest) e

pub from_utf8-length : (bs : Bytes) (s : Text) → from_utf8 bs ≡ some s → length s ≤ length bs
unfolding from_utf8
from_utf8-length bs s e = decode-length ready bs s e
