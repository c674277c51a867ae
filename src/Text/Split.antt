-- ===== src/Text/Split.antt =====
-- Cutting a string at a position, and finding a character.
use mathlib.Core.Option
use dst_demo.Prelude.{
  ℕ, zero, suc, ◌+◌, ◌-◌, ◌≤◌, ◌<◌, ◌≡◌, refl, Bool, true, false, none, some, [], ◌∷◌, ◌++◌, ap,
  ◌∙◌, arith, All, length, leb, ◌⊎◌, inl, inr, Bool-cases,
}
use dst_demo.Text.{Text, len_utf8, byte_len, cons_first, split_at, position, text_eq}

-- A character takes at least one byte.
pub len_utf8_pos : (c : ℕ) → 1 ≤ len_utf8 c
len_utf8_pos c = ground arith

pub byte_len-append : (s t : Text) → byte_len (s ++ t) ≡ byte_len s + byte_len t
unfolding byte_len
byte_len-append [] t = omega arith
byte_len-append (c ∷ s) t = omega (arith, byte_len-append s t)

split_at_past :
    (m n c : ℕ) (s : Text)
    → m ≡ len_utf8 c + n
    → split_at m (c ∷ s) ≡ Option.map (cons_first c) (split_at n s)
unfolding split_at
split_at_past zero n c s h = absurd (omega (arith, len_utf8_pos c))
split_at_past (suc m) n c s h =
    let e : suc m - len_utf8 c ≡ n = rw h (omega arith) in
    let fits : leb (len_utf8 c) (suc m) ≡ true = rw h (ground arith) in rw (e, fits)

-- A cut at the end of a first part gives the two parts.
pub split_at-append : (s t : Text) → split_at (byte_len s) (s ++ t) ≡ some (s, t)
unfolding byte_len split_at
split_at-append [] t = refl
split_at-append (c ∷ s) t = split_at_past _ (byte_len s) c (s ++ t) refl ∙ rw (split_at-append s t)

-- The first character that passes a test, behind characters that do not.
pub position-append :
    (p : ℕ → Bool) (s : Text) (c : ℕ) (t : Text)
    → All (λ d. p d ≡ false) s
    → p c ≡ true
    → position p (s ++ c ∷ t) ≡ some (length s)
unfolding position
position-append p [] c t h e = rw e
position-append p (d ∷ s) c t h e = rw (h.0, position-append p s c t h.1 e)

pub position_absent : (p : ℕ → Bool) (s : Text) → All (λ d. p d ≡ false) s → position p s ≡ none
unfolding position
position_absent p [] h = refl
position_absent p (d ∷ s) h = rw (h.0, position_absent p s h.1)

-- Where a character is found, and what the string is then made of.
pub record Found (p : ℕ → Bool) (s : Text) (i : ℕ) : Type 0 where
  pub front : Text
  pub char : ℕ
  pub back : Text
  pub whole : s ≡ front ++ char ∷ back
  pub absent : All (λ d. p d ≡ false) front
  pub passes : p char ≡ true
  pub index : length front ≡ i

Found-cons :
    (p : ℕ → Bool) (d : ℕ) (s : Text) (i : ℕ) → p d ≡ false → Found p s i → Found p (d ∷ s) (suc i)
Found-cons p d s i h f = record {
  front = d ∷ f.front;
  char = f.char;
  back = f.back;
  whole = ap (λ r. d ∷ r) f.whole;
  absent = (h, f.absent);
  passes = f.passes;
  index = ap suc f.index;
}

pub position-Found :
    (p : ℕ → Bool) (s : Text)
    → (position p s ≡ none) × All (λ d. p d ≡ false) s
      ⊎ ((i : ℕ) × (position p s ≡ some i) × Found p s i)
unfolding position
position-Found p [] = inl (refl, tt)
position-Found p (d ∷ s) = elim (Bool-cases (p d)) [
  | inl hit ↦ inr (
    0,
    rw hit,
    record {
      front = [];
      char = d;
      back = s;
      whole = refl;
      absent = tt;
      passes = hit;
      index = refl;
    },
  )
  | inr miss ↦ elim (position-Found p s) [
    | inl (e, h) ↦ inl (rw (miss, e), (miss, h))
    | inr (i, e, f) ↦ inr (suc i, rw (miss, e), Found-cons p d s i miss f)
  ]
]

pub text_eq_refl : (s : Text) → text_eq s s ≡ true
text_eq_refl [] = refl
text_eq_refl (c ∷ s) = ground (arith, text_eq_refl s)

pub eq_of_text_eq : (s t : Text) → text_eq s t ≡ true → s ≡ t
eq_of_text_eq [] [] h = refl
eq_of_text_eq [] (_ ∷ _) h = ground arith
eq_of_text_eq (_ ∷ _) [] h = ground arith
eq_of_text_eq (a ∷ s) (b ∷ t) h = ground (arith, eq_of_text_eq s t)

-- A cut past the end panics.
pub split_at_past_end : (n : ℕ) (s : Text) → byte_len s < n → split_at n s ≡ none
unfolding split_at byte_len
split_at_past_end zero s h = elim h [ ]
split_at_past_end (suc n) [] h = refl
split_at_past_end (suc n) (c ∷ s) h = elim (Bool-cases (leb (len_utf8 c) (suc n))) [
  | inl fits ↦ rw (fits, split_at_past_end (suc n - len_utf8 c) s (ground arith))
  | inr over ↦ rw over
]
