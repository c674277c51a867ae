-- ===== src/Text.antt =====
-- Rust's `String` and `&str` as lists of code points, with the operations of the standard library
-- that the program calls. A position inside a string is a number of bytes of its UTF-8 form.
pub mod Utf8
pub mod Split
pub mod Lines
pub mod Number
use Prim.Native.Char.{code}
use Prim.Native.String.{String}
use mathlib.Core.Option
use dst_demo.Prelude.{
  ℕ, zero, suc, ◌+◌, ◌-◌, Bool, true, false, Option, none, some, List, [], ◌∷◌, ◌++◌, ltb, leb,
  ◌==◌, if◌then◌else◌, ◌&&◌,
}

-- The code points of a string.
abbrev pub Text : Type 0
Text = List ℕ

abbrev pub Bytes : Type 0
Bytes = List ℕ

-- A literal of the source.
abbrev pub codes : String → Text
codes String.[] = []
codes (String.◌∷◌ c s) = code c ∷ codes s

-- `==` on strings.
abbrev pub text_eq : Text → Text → Bool
text_eq [] [] = true
text_eq [] (_ ∷ _) = false
text_eq (_ ∷ _) [] = false
text_eq (a ∷ s) (b ∷ t) = (a == b) && text_eq s t

-- `char::len_utf8`: the bytes that a code point takes.
abbrev pub len_utf8 : ℕ → ℕ
len_utf8 c = if ltb c 0x80 then 1 else if ltb c 0x800 then 2 else if ltb c 0x10000 then 3 else 4

-- `str::len`: bytes, not characters.
unfoldable pub byte_len : Text → ℕ
byte_len [] = 0
byte_len (c ∷ s) = len_utf8 c + byte_len s

abbrev pub cons_first : ℕ → Text × Text → Text × Text
cons_first c (s, t) = (c ∷ s, t)

-- `str::split_at`, `split_off` and the slices `s[n..]`, `s[..n]`: `none` is the panic at a position
-- that is past the end or inside a character.
unfoldable pub split_at : ℕ → Text → Option (Text × Text)
split_at zero s = some ([], s)
split_at (suc n) [] = none
split_at (suc n) (c ∷ s) =
    let rest = Option.map (cons_first c) (split_at (suc n - len_utf8 c) s) in
    if leb (len_utf8 c) (suc n) then rest else none

-- `s.chars().position(p)`: a number of characters.
unfoldable pub position : (ℕ → Bool) → Text → Option ℕ
position p [] = none
position p (c ∷ s) = let rest = Option.map suc (position p s) in if p c then some 0 else rest

-- `str::strip_prefix`; `starts_with` is that it succeeds.
unfoldable pub strip_prefix : Text → Text → Option Text
strip_prefix [] t = some t
strip_prefix (_ ∷ _) [] = none
strip_prefix (a ∷ s) (b ∷ t) = let rest = strip_prefix s t in if a == b then rest else none

abbrev pub prepend : ℕ → List Text → List Text
prepend c [] = (c ∷ []) ∷ []
prepend c (w ∷ ws) = (c ∷ w) ∷ ws

-- `s.split(c)`: the empty string has one part.
unfoldable pub split : ℕ → Text → List Text
split c [] = [] ∷ []
split c (d ∷ s) = let rest = split c s in if d == c then [] ∷ rest else prepend d rest

-- `parts.join(sep)`
unfoldable pub join : Text → List Text → Text
join sep [] = []
join sep (w ∷ []) = w
join sep (w ∷ v ∷ ws) = w ++ (sep ++ join sep (v ∷ ws))
