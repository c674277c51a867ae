-- ===== src/Text/Number.antt =====
-- Integers as decimal text: `to_string` and `parse` of `i32` and of the unsigned types.
pub mod RoundTrip
use dst_demo.Prelude.{
  ℕ, zero, suc, ◌+◌, ◌-◌, ◌*◌, ◌/◌, ◌%◌, Bool, Option, none, some, [], ◌∷◌, ◌++◌, ltb, leb, ◌==◌,
  ◌&&◌, if◌then◌else◌,
}
use dst_demo.Prelude.Id.{ℤ, pos, negsuc, i32_max}
use dst_demo.Text.{Text}

-- Digits with fuel for one division by ten each; `n` rounds are enough for `n`.
unfoldable pub digits : ℕ → ℕ → Text
digits zero n = (b'0' + n) ∷ []
digits (suc fuel) n =
    let more = digits fuel (n / 10) ++ (b'0' + n % 10) ∷ [] in
    if ltb n 10 then (b'0' + n) ∷ [] else more

-- `to_string` of an unsigned integer.
unfoldable pub show_ℕ : ℕ → Text
unfolding digits
show_ℕ n = digits n n

-- `to_string` of a signed integer.
unfoldable pub show_ℤ : ℤ → Text
unfolding show_ℕ
show_ℤ (pos n) = show_ℕ n
show_ℤ (negsuc n) = b'-' ∷ show_ℕ (suc n)

abbrev pub is_digit : ℕ → Bool
is_digit c = leb b'0' c && leb c b'9'

unfoldable pub parse_digits : ℕ → Text → Option ℕ
parse_digits acc [] = some acc
parse_digits acc (c ∷ s) =
    let rest = parse_digits (acc * 10 + (c - b'0')) s in if is_digit c then rest else none

-- One or more digits.
unfoldable pub parse_ℕ : Text → Option ℕ
unfolding parse_digits
parse_ℕ [] = none
parse_ℕ (c ∷ s) = parse_digits 0 (c ∷ s)

abbrev pub at_most : ℕ → Option ℕ → Option ℕ
at_most limit none = none
at_most limit (some n) = if leb n limit then some n else none

-- `parse` of an unsigned type with this largest value; `none` is a `ParseIntError`, also where the
-- value does not fit. A sign `+` may stand in front.
unfoldable pub parse_unsigned : ℕ → Text → Option ℕ
unfolding parse_ℕ
parse_unsigned limit [] = none
parse_unsigned limit (c ∷ s) = at_most limit (if c == b'+' then parse_ℕ s else parse_ℕ (c ∷ s))

abbrev pub u64_max : ℕ
u64_max = 0xFFFF_FFFF_FFFF_FFFF

abbrev pub positive : Option ℕ → Option ℤ
positive none = none
positive (some n) = some (pos n)

abbrev pub negative : Option ℕ → Option ℤ
negative none = none
negative (some zero) = some (pos 0)
negative (some (suc n)) = some (negsuc n)

-- `parse::<i32>()`
unfoldable pub parse_i32 : Text → Option ℤ
unfolding parse_ℕ
parse_i32 [] = none
parse_i32 (c ∷ s) =
    if c == b'-'
    then negative (at_most (suc i32_max) (parse_ℕ s))
    else positive (at_most i32_max (if c == b'+' then parse_ℕ s else parse_ℕ (c ∷ s)))
