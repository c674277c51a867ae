-- ===== src/Text/Number/RoundTrip.antt =====
-- Parsing what was printed.
use dst_demo.Prelude.{
  ℕ, zero, suc, ◌+◌, ◌-◌, ◌*◌, ◌/◌, ◌%◌, ◌≤◌, ◌<◌, ◌≡◌, refl, sym, ap, ◌∙◌, true, false, some, [],
  ◌∷◌, ◌++◌, ltb, leb, ◌==◌, arith, All, All-append, append_assoc, append-nil, Bool-cases, inl, inr,
}
use dst_demo.Prelude.Id.{ℤ, pos, negsuc, i32_max, InI32}
use dst_demo.Text.{Text}
use dst_demo.Text.Number.{
  digits, show_ℕ, show_ℤ, is_digit, parse_digits, parse_ℕ, parse_unsigned, parse_i32,
}

abbrev pub IsDigit : ℕ → Type 0
IsDigit c = (48 ≤ c) × (c ≤ 57)

digits-IsDigit : (fuel n : ℕ) → n ≤ fuel → All IsDigit (digits fuel n)
unfolding digits
digits-IsDigit zero n h = omega arith
digits-IsDigit (suc fuel) n h = elim (Bool-cases (ltb n 10)) [
  | inl small ↦ rw small (ground arith)
  | inr large ↦ rw large (
      All-append IsDigit (digits fuel (n / 10)) ((48 + n % 10) ∷ [])
        (digits-IsDigit fuel (n / 10) (ground arith)) (omega arith, tt))
]

digit_step :
    (acc d : ℕ) (s : Text)
    → d < 10
    → parse_digits acc ((48 + d) ∷ s) ≡ parse_digits (acc * 10 + d) s
unfolding parse_digits
digit_step acc d s h =
    let digit : is_digit (48 + d) ≡ true = ground arith in
    let value : 48 + d - 48 ≡ d = omega arith in rw (digit, value)

parse_digits-digits :
    (fuel n : ℕ) (s : Text) → n ≤ fuel → parse_digits 0 (digits fuel n ++ s) ≡ parse_digits n s
unfolding digits
parse_digits-digits zero n s h =
    digit_step 0 n s (omega arith) ∙ ap (λ m. parse_digits m s) (omega arith)
parse_digits-digits (suc fuel) n s h = elim (Bool-cases (ltb n 10)) [
  | inl small ↦
      rw small (digit_step 0 n s (ground arith) ∙ ap (λ m. parse_digits m s) (omega arith))
  | inr large ↦
      rw (large, append_assoc (digits fuel (n / 10)) ((48 + n % 10) ∷ []) s)
        (parse_digits-digits fuel (n / 10) ((48 + n % 10) ∷ s) (ground arith)
          ∙ digit_step (n / 10) (n % 10) s (omega arith)
          ∙ ap (λ m. parse_digits m s) (omega arith))
]

digits_cons : (fuel n : ℕ) → n ≤ fuel → (c : ℕ) × (s : Text) × (digits fuel n ≡ c ∷ s) × IsDigit c
unfolding digits
digits_cons zero n h = (48 + n, [], refl, omega arith)
digits_cons (suc fuel) n h = elim (Bool-cases (ltb n 10)) [
  | inl small ↦ (48 + n, [], rw small, ground arith)
  | inr large ↦
      let (c, s, e, d) = digits_cons fuel (n / 10) (ground arith) in
      (c, s ++ (48 + n % 10) ∷ [], rw (large, e), d)
]

pub show_ℕ-IsDigit : (n : ℕ) → All IsDigit (show_ℕ n)
unfolding show_ℕ
show_ℕ-IsDigit n = digits-IsDigit n n (omega arith)

-- A printed number begins with a digit.
pub show_ℕ_cons : (n : ℕ) → (c : ℕ) × (s : Text) × (show_ℕ n ≡ c ∷ s) × IsDigit c
unfolding show_ℕ
show_ℕ_cons n = digits_cons n n (omega arith)

parse_digits-show : (n : ℕ) → parse_digits 0 (show_ℕ n) ≡ some n
unfolding show_ℕ parse_digits
parse_digits-show n =
    ap (parse_digits 0) (sym (append-nil (digits n n))) ∙ parse_digits-digits n n [] (omega arith)

pub parse_ℕ-show : (n : ℕ) → parse_ℕ (show_ℕ n) ≡ some n
unfolding parse_ℕ
parse_ℕ-show n =
    let (c, s, e, d) = show_ℕ_cons n in
    let parsed : parse_digits 0 (c ∷ s) ≡ some n =
      ap (parse_digits 0) (sym e) ∙ parse_digits-show n in
    rw e parsed

-- An unsigned integer that fits is read back from its decimal text.
pub parse_unsigned-show : (limit n : ℕ) → n ≤ limit → parse_unsigned limit (show_ℕ n) ≡ some n
unfolding parse_unsigned
parse_unsigned-show limit n h =
    let (c, s, e, d) = show_ℕ_cons n in
    let parsed : parse_ℕ (c ∷ s) ≡ some n = ap parse_ℕ (sym e) ∙ parse_ℕ-show n in
    let plain : (c == b'+') ≡ false = ground arith in
    let fits : leb n limit ≡ true = ground arith in rw e (rw (plain, parsed, fits))

-- So is a signed 32-bit integer.
pub parse_i32-show : (z : ℤ) → InI32 z → parse_i32 (show_ℤ z) ≡ some z
unfolding parse_i32 show_ℤ
parse_i32-show (pos n) h =
    let (c, s, e, d) = show_ℕ_cons n in
    let parsed : parse_ℕ (c ∷ s) ≡ some n = ap parse_ℕ (sym e) ∙ parse_ℕ-show n in
    let plain : (c == b'+') ≡ false = ground arith in
    let no_minus : (c == b'-') ≡ false = ground arith in
    let fits : leb n i32_max ≡ true = ground arith in rw e (rw (no_minus, plain, parsed, fits))
parse_i32-show (negsuc n) h =
    let fits : leb (suc n) (suc i32_max) ≡ true = ground arith in rw (parse_ℕ-show (suc n), fits)
