-- ===== src/Sample/Closed.antt =====
-- A concrete platform on which a transaction's text has a closing character, so that no part of it
-- from its start on is read as another transaction.
use dst_demo.Prelude.{
  ℕ, ◌<◌, ◌≡◌, refl, sym, ◌∙◌, ap, arith, false, Option, none, some, inl, [], ◌∷◌, ◌++◌, length,
  length-append, take, take-append_left, All, All-append, All-take, ◌==◌, if◌then◌else◌,
}
use mathlib.Core.Option.{some-injective, map}
use mathlib.Core.Path.{subst}
use dst_demo.Prelude.Id.{ℤ}
use dst_demo.Text.{Text}
use dst_demo.Text.Utf8.RoundTrip.{IsScalar, IsAscii}
use dst_demo.Transaction.{Transaction}
use dst_demo.Platform.{Platform}
use dst_demo.Platform.Laws.{JsonLaws, CutLaws}
use dst_demo.Sample.{sample, write_fields, read_fields}
use dst_demo.Sample.Laws.{
  IsPlain, write_fields-IsPlain, plain-IsScalar, plain-one_line, read-write, append_cons-ne,
}

abbrev pub closing : Text
closing = b'}' ∷ []

abbrev pub ends : Text → Option Text
ends [] = some []
ends (c ∷ s) = none

-- The text before the closing character, which is the last.
unfoldable pub before_close : Text → Option Text
before_close [] = none
before_close (c ∷ s) =
    let rest = before_close s in if c == b'}' then ends s else map (λ w. c ∷ w) rest

abbrev pub read_closed : Option Text → Option (Transaction ℤ)
read_closed none = none
read_closed (some w) = read_fields w

abbrev pub closed : Platform ℤ
closed = record sample {
  to_json = λ t. some (write_fields t ++ closing);
  from_json = λ s. read_closed (before_close s);
}

before_close-closing : (w : Text) → All IsPlain w → before_close (w ++ closing) ≡ some w
unfolding before_close
before_close-closing [] h = refl
before_close-closing (c ∷ w) h =
    let other : (c == b'}') ≡ false = ground arith in rw (other, before_close-closing w h.1)

before_close_open : (w : Text) → All IsPlain w → before_close w ≡ none
unfolding before_close
before_close_open [] h = refl
before_close_open (c ∷ w) h =
    let other : (c == b'}') ≡ false = ground arith in rw (other, before_close_open w h.1)

plain-IsAscii : (s : Text) → All IsPlain s → All IsAscii s
plain-IsAscii [] h = tt
plain-IsAscii (c ∷ s) h = (omega arith, plain-IsAscii s h.1)

cut_short :
    (w : Text) (n : ℕ)
    → All IsPlain w
    → n < length (w ++ closing)
    → before_close (take n (w ++ closing)) ≡ none
cut_short w n h short =
    ap before_close (take-append_left n w closing (omega (arith, short, length-append w closing)))
    ∙ before_close_open (take n w) (All-take _ n w h)

pub closed-JsonLaws : JsonLaws closed
closed-JsonLaws = record {
  reads = λ t s e.
      ap (λ r. read_closed (before_close r)) (sym (some-injective _ _ e))
      ∙ ap read_closed (before_close-closing (write_fields t) (write_fields-IsPlain t))
      ∙ read-write t;
  scalar = λ t s e. subst (All IsScalar) (some-injective _ _ e) (
      All-append IsScalar (write_fields t) closing (plain-IsScalar _ (write_fields-IsPlain t))
        (inl (omega arith), tt));
  one_line = λ t s e. subst (All (λ c. (c == b'\n') ≡ false)) (some-injective _ _ e) (
      All-append _ (write_fields t) closing (plain-one_line _ (write_fields-IsPlain t)) (refl, tt));
  not_empty = λ t s e h. append_cons-ne (write_fields t) b'}' [] (some-injective _ _ e ∙ h);
}

pub closed-CutLaws : CutLaws closed
closed-CutLaws = record {
  ascii = λ t s e. subst (All IsAscii) (some-injective _ _ e) (
      All-append IsAscii (write_fields t) closing (plain-IsAscii _ (write_fields-IsPlain t))
        (omega arith, tt));
  cut = λ t s n e pos short.
      ap (λ r. read_closed (before_close (take n r))) (sym (some-injective _ _ e))
      ∙ ap read_closed (
          cut_short (write_fields t) n (write_fields-IsPlain t)
            (subst (λ r. n < length r) (sym (some-injective _ _ e)) short));
}
