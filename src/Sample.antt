-- ===== src/Sample.antt =====
-- A concrete platform, on which the tests evaluate the model: decimals are whole numbers of cents
-- with a sign, and a transaction is written as its three numbers between commas.
pub mod Laws
pub mod Closed
pub mod Names
use dst_demo.Prelude.{
  ℕ, zero, suc, ◌+◌, ◌-◌, Bool, true, Option, none, some, List, [], ◌∷◌, ◌++◌, leb, ◌==◌,
  if◌then◌else◌,
}
use dst_demo.Prelude.Id.{ℤ, pos, negsuc, pos_part, neg_part}
use dst_demo.Text.{Text, split}
use dst_demo.Text.Number.{show_ℕ, show_ℤ, parse_ℕ, positive, negative}
use dst_demo.Transaction.{Transaction}
use dst_demo.Platform.{Platform}

abbrev pub add_ℤ : ℤ → ℤ → ℤ
add_ℤ a b =
    let up = pos_part a + pos_part b in
    let down = neg_part a + neg_part b in
    if leb down up then pos (up - down) else negsuc (down - up - 1)

abbrev pub neg_ℤ : ℤ → ℤ
neg_ℤ (pos zero) = pos zero
neg_ℤ (pos (suc n)) = negsuc n
neg_ℤ (negsuc n) = pos (suc n)

unfoldable pub read_ℤ : Text → Option ℤ
read_ℤ [] = none
read_ℤ (c ∷ s) = if c == b'-' then negative (parse_ℕ s) else positive (parse_ℕ (c ∷ s))

abbrev pub comma : Text
comma = b',' ∷ []

unfoldable pub write_fields : Transaction ℤ → Text
write_fields t = show_ℤ t.id ++ (b',' ∷ (show_ℕ t.created_at ++ (b',' ∷ show_ℤ t.amount)))

abbrev pub fields : Option ℤ → Option ℕ → Option ℤ → Option (Transaction ℤ)
fields (some id) (some created_at) (some amount) =
    some (record { id = id; amount = amount; created_at = created_at })
fields _ _ _ = none

abbrev pub parse_fields : List Text → Option (Transaction ℤ)
parse_fields (id ∷ created_at ∷ amount ∷ []) =
    fields (read_ℤ id) (parse_ℕ created_at) (read_ℤ amount)
parse_fields _ = none

unfoldable pub read_fields : Text → Option (Transaction ℤ)
read_fields s = parse_fields (split b',' s)

-- The clock starts at 1000 and moves on by two seconds with each reading.
abbrev pub ticking : ℕ → Option ℕ
ticking n = some (1000 + n + n)

abbrev pub sample : Platform ℤ
sample = record {
  zero_amount = pos 0;
  add = λ a b. some (add_ℤ a b);
  neg = neg_ℤ;
  parse_amount = read_ℤ;
  show_amount = show_ℤ;
  show_cents = show_ℤ;
  to_json = λ t. some (write_fields t);
  from_json = read_fields;
  now = ticking;
  overflow_checks = true;
}
