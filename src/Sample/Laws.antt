-- ===== src/Sample/Laws.antt =====
-- The concrete platform keeps what the program relies on.
use dst_demo.Prelude.{
  ℕ, suc, ◌+◌, ◌≤◌, ◌<◌, ◌≡◌, ◌≢◌, refl, sym, ap, ◌∙◌, false, inl, some, [], ◌∷◌, ◌++◌, arith, All,
  All-append, ◌==◌,
}
use mathlib.Core.Option.{some-injective}
use mathlib.Core.Path.{subst}
use dst_demo.Prelude.Id.{ℤ, pos, negsuc}
use dst_demo.Text.{Text}
use dst_demo.Text.Lines.{Lacks, split-append, split_lacking}
use dst_demo.Text.Utf8.RoundTrip.{IsScalar}
use dst_demo.Text.Number.{show_ℕ, show_ℤ, parse_ℕ}
use dst_demo.Text.Number.RoundTrip.{IsDigit, show_ℕ-IsDigit, show_ℕ_cons, parse_ℕ-show}
use dst_demo.Transaction.{Transaction}
use dst_demo.Platform.Laws.{JsonLaws, CentsLaws, AmountLaws, ClockLaws, TotalLaws}
use dst_demo.Sample.{sample, read_ℤ, write_fields, read_fields, parse_fields}

pub read_ℤ-show : (z : ℤ) → read_ℤ (show_ℤ z) ≡ some z
unfolding read_ℤ show_ℤ
read_ℤ-show (pos n) =
    let (c, s, e, d) = show_ℕ_cons n in
    let parsed : parse_ℕ (c ∷ s) ≡ some n = ap parse_ℕ (sym e) ∙ parse_ℕ-show n in
    let no_minus : (c == b'-') ≡ false = ground arith in rw e (rw (no_minus, parsed))
read_ℤ-show (negsuc n) = rw (parse_ℕ-show (suc n))

-- The characters of a number: digits and the sign.
abbrev IsNumeral : ℕ → Type 0
IsNumeral c = (45 ≤ c) × (c < 58)

digits-IsNumeral : (s : Text) → All IsDigit s → All IsNumeral s
digits-IsNumeral [] h = tt
digits-IsNumeral (c ∷ s) h = (omega arith, digits-IsNumeral s h.1)

show_ℤ-IsNumeral : (z : ℤ) → All IsNumeral (show_ℤ z)
unfolding show_ℤ
show_ℤ-IsNumeral (pos n) = digits-IsNumeral (show_ℕ n) (show_ℕ-IsDigit n)
show_ℤ-IsNumeral (negsuc n) =
    (omega arith, digits-IsNumeral (show_ℕ (suc n)) (show_ℕ-IsDigit (suc n)))

-- Commas and numerals.
abbrev pub IsPlain : ℕ → Type 0
IsPlain c = (44 ≤ c) × (c < 58)

numerals-IsPlain : (s : Text) → All IsNumeral s → All IsPlain s
numerals-IsPlain [] h = tt
numerals-IsPlain (c ∷ s) h = (omega arith, numerals-IsPlain s h.1)

pub write_fields-IsPlain : (t : Transaction ℤ) → All IsPlain (write_fields t)
unfolding write_fields
write_fields-IsPlain t =
    All-append IsPlain (show_ℤ t.id) _ (numerals-IsPlain _ (show_ℤ-IsNumeral t.id)) (
      omega arith,
      All-append IsPlain (show_ℕ t.created_at) _
          (numerals-IsPlain _ (digits-IsNumeral _ (show_ℕ-IsDigit t.created_at)))
          (omega arith, numerals-IsPlain _ (show_ℤ-IsNumeral t.amount)),
    )

pub plain-IsScalar : (s : Text) → All IsPlain s → All IsScalar s
plain-IsScalar [] h = tt
plain-IsScalar (c ∷ s) h = (inl (omega arith), plain-IsScalar s h.1)

pub plain-one_line : (s : Text) → All IsPlain s → All (λ c. (c == b'\n') ≡ false) s
plain-one_line [] h = tt
plain-one_line (c ∷ s) h = (ground arith, plain-one_line s h.1)

numerals-Lacks : (s : Text) → All IsNumeral s → Lacks b',' s
numerals-Lacks [] h = tt
numerals-Lacks (c ∷ s) h = (ground arith, numerals-Lacks s h.1)

pub read-write : (t : Transaction ℤ) → read_fields (write_fields t) ≡ some t
unfolding read_fields write_fields
read-write t =
    ap parse_fields (
      split-append b',' (show_ℤ t.id) _ (numerals-Lacks _ (show_ℤ-IsNumeral t.id))
      ∙ ap (λ r. show_ℤ t.id ∷ r)
          (split-append b',' (show_ℕ t.created_at) _
              (numerals-Lacks _ (digits-IsNumeral _ (show_ℕ-IsDigit t.created_at)))
            ∙ ap (λ r. show_ℕ t.created_at ∷ r)
                (split_lacking b',' (show_ℤ t.amount)
                  (numerals-Lacks _ (show_ℤ-IsNumeral t.amount)))))
    ∙ rw (read_ℤ-show t.id, parse_ℕ-show t.created_at, read_ℤ-show t.amount)

pub append_cons-ne : (s : Text) (c : ℕ) (t : Text) → s ++ c ∷ t ≢ []
append_cons-ne [] c t h = ground arith
append_cons-ne (d ∷ s) c t h = ground arith

pub write_fields-ne : (t : Transaction ℤ) → write_fields t ≢ []
unfolding write_fields
write_fields-ne t h = append_cons-ne (show_ℤ t.id) b',' _ h

numerals-ascii : (s : Text) → All IsNumeral s → All (λ c. (32 < c) × (c < 128)) s
numerals-ascii [] h = tt
numerals-ascii (c ∷ s) h = (omega arith, numerals-ascii s h.1)

pub show_ℤ-ascii : (z : ℤ) → All (λ c. (32 < c) × (c < 128)) (show_ℤ z)
show_ℤ-ascii z = numerals-ascii (show_ℤ z) (show_ℤ-IsNumeral z)

pub sample-JsonLaws : JsonLaws sample
sample-JsonLaws = record {
  reads = λ t s e. ap read_fields (sym (some-injective _ _ e)) ∙ read-write t;
  scalar = λ t s e.
      subst (All IsScalar) (some-injective _ _ e) (plain-IsScalar _ (write_fields-IsPlain t));
  one_line = λ t s e.
      subst (All (λ c. (c == b'\n') ≡ false)) (some-injective _ _ e)
        (plain-one_line _ (write_fields-IsPlain t));
  not_empty = λ t s e. subst (λ r. r ≢ []) (some-injective _ _ e) (write_fields-ne t);
}

abbrev pub sample-CentsLaws : CentsLaws sample
sample-CentsLaws = record { round = λ z. z; reads = read_ℤ-show; ascii = show_ℤ-ascii }

pub sample-AmountLaws : AmountLaws sample sample-CentsLaws
sample-AmountLaws = record {
  reads = λ z. (z, read_ℤ-show z);
  ascii = show_ℤ-ascii;
  rounded = λ z. refl;
}

abbrev pub sample-ClockLaws : ClockLaws sample
sample-ClockLaws = record {
  time = λ n. 1000 + n + n;
  reads = λ n. refl;
  positive = λ n. omega arith;
  forward = λ m n h. omega arith;
}

pub sample-TotalLaws : TotalLaws sample
sample-TotalLaws = record { serializes = λ t. (write_fields t, refl) }
