-- ===== src/Platform/Laws.antt =====
-- What the program relies on of that code.
use dst_demo.Prelude.{ℕ, ◌≡◌, ◌≢◌, false, none, some, length, take, [], All, ◌==◌, ◌≤◌, ◌<◌}
use dst_demo.Text.{Text}
use dst_demo.Text.Utf8.RoundTrip.{IsScalar, IsAscii}
use dst_demo.Transaction.{Transaction}
use dst_demo.Platform.{Platform}

module _ {D : Type 0} (p : Platform D) where
  -- JSON reads back what it wrote, and the compact form of a record is one line that is not empty.
  pub record JsonLaws : Type 0 where
    pub reads : (t : Transaction D) (s : Text) → p.to_json t ≡ some s → p.from_json s ≡ some t
    pub scalar : (t : Transaction D) (s : Text) → p.to_json t ≡ some s → All IsScalar s
    pub one_line :
        (t : Transaction D) (s : Text) → p.to_json t ≡ some s → All (λ c. (c == b'\n') ≡ false) s
    pub not_empty : (t : Transaction D) (s : Text) → p.to_json t ≡ some s → s ≢ []

  -- An amount shown with two places is one word of ASCII, and reads back as a rounded amount.
  pub record CentsLaws : Type 0 where
    pub round : D → D
    pub reads : (a : D) → p.parse_amount (p.show_cents a) ≡ some (round a)
    pub ascii : (a : D) → All (λ c. (32 < c) × (c < 128)) (p.show_cents a)

  -- The clock is after the epoch and never goes backwards.
  pub record ClockLaws : Type 0 where
    pub time : ℕ → ℕ
    pub reads : (n : ℕ) → p.now n ≡ some (time n)
    pub positive : (n : ℕ) → 0 < time n
    pub forward : (m n : ℕ) → m ≤ n → time m ≤ time n

  -- Every transaction has a JSON form.
  pub record TotalLaws : Type 0 where
    pub serializes : (t : Transaction D) → (s : Text) × (p.to_json t ≡ some s)

  -- An amount shown in full is one word of ASCII that reads back as an amount, and an amount shown
  -- with two places is shown the same after it was rounded to them.
  pub record AmountLaws (cents : CentsLaws) : Type 0 where
    pub reads : (a : D) → (b : D) × (p.parse_amount (p.show_amount a) ≡ some b)
    pub ascii : (a : D) → All (λ c. (32 < c) × (c < 128)) (p.show_amount a)
    pub rounded : (a : D) → p.show_cents (cents.round a) ≡ p.show_cents a

  -- The JSON form is ASCII, and a part of it from its start on is no JSON.
  pub record CutLaws : Type 0 where
    pub ascii : (t : Transaction D) (s : Text) → p.to_json t ≡ some s → All IsAscii s
    pub cut :
        (t : Transaction D) (s : Text) (n : ℕ)
        → p.to_json t ≡ some s
        → 0 < n
        → n < length s
        → p.from_json (take n s) ≡ none
