-- ===== src/Simulator/Http/Length.antt =====
-- What a response that was parsed has of the text that it was parsed from.
use dst_demo.Prelude.{
  ℕ, zero, suc, ◌+◌, ◌-◌, ◌≤◌, ◌≡◌, refl, sym, ◌∙◌, ap, arith, Option, none, some, inl, inr, ◌⊎◌,
  List, [], ◌∷◌, ◌++◌, append-nil, Bool-cases, leb,
}
use mathlib.Core.Option
use mathlib.Core.Option.{some-injective}
use mathlib.Core.Path.{subst}
use dst_demo.Text.{Text, byte_len, split_at, len_utf8, cons_first, join}
use dst_demo.Outcome.{Outcome, ok, err, panic}
use dst_demo.Simulator.Headers.{Header}
use dst_demo.Simulator.Http.{
  split_text, crlf, blank_line, split_whitespace, content_length, truncate, HttpResponse,
  first_part, response, with_headers, with_status, with_status_parts, with_lines, with_parts,
  parse_http_response,
}
use dst_demo.Simulator.Http.Texts.{join-split_text}

cut-cons :
    (n m c : ℕ) (s : Text) (o : Option (Text × Text)) (r : Text × Text)
    → ((a b : Text) → o ≡ some (a, b) → (s ≡ a ++ b) × (byte_len a ≡ m))
    → len_utf8 c + m ≡ n
    → Option.map (cons_first c) o ≡ some r
    → (c ∷ s ≡ r.0 ++ r.1) × (byte_len r.0 ≡ n)
unfolding byte_len
cut-cons n m c s none r h k e = absurd (ground arith)
cut-cons n m c s (some (a, b)) r h k e =
    let (whole, size) = h a b refl in
    subst (λ (r : Text × Text). (c ∷ s ≡ r.0 ++ r.1) × (byte_len r.0 ≡ n)) (some-injective _ _ e)
      (ap (λ t. c ∷ t) whole, ap (λ n. len_utf8 c + n) size ∙ k)

-- What a cut at a position gives: the two parts, the first of so many bytes.
split_at-some :
    (n : ℕ) (s a b : Text) → split_at n s ≡ some (a, b) → (s ≡ a ++ b) × (byte_len a ≡ n)
unfolding byte_len split_at
split_at-some zero s a b e =
    subst (λ (r : Text × Text). (s ≡ r.0 ++ r.1) × (byte_len r.0 ≡ 0)) (some-injective _ _ e)
      (refl, refl)
split_at-some (suc n) [] a b e = absurd (ground arith)
split_at-some (suc n) (c ∷ s) a b e = elim (Bool-cases (leb (len_utf8 c) (suc n))) [
  | inl fits ↦
      let m = suc n - len_utf8 c in
      let count : len_utf8 c + m ≡ suc n = ground arith in
      let opened : split_at (suc n) (c ∷ s) ≡ Option.map (cons_first c) (split_at m s) =
        rw (split_at, fits) refl in
      cut-cons (suc n) m c s (split_at m s) (a, b) (λ a' b' f. split_at-some m s a' b' f) count
        (sym opened ∙ e)
  | inr over ↦
      let shut : split_at (suc n) (c ∷ s) ≡ none = rw (split_at, over) refl in absurd (ground arith)
]

-- The body that is kept of the text behind the blank line, by the length that was announced.
abbrev pub Keeps : Option ℕ → Text → Text → Type 0
Keeps none whole body = whole ≡ body
Keeps (some n) whole body =
    (rest : Text) × (whole ≡ body ++ rest)
    × (byte_len body ≤ n)
    × ((byte_len body ≡ n) ⊎ (rest ≡ []))

abbrev from_ok : {E A : Type 0} → A → Outcome E A → A
from_ok a (ok b) = b
from_ok a (err e) = a
from_ok a panic = a

cut-Keeps :
    (n : ℕ) (whole body : Text) (o : Option (Text × Text))
    → split_at n whole ≡ o
    → first_part o ≡ ok body
    → Keeps (some n) whole body
cut-Keeps n whole body none hit e = absurd (ground arith)
cut-Keeps n whole body (some (a, b)) hit e =
    let (parts, size) = split_at-some n whole a b hit in
    subst (Keeps (some n) whole) (ap (from_ok a) e) (b, parts, omega (arith, size), inl size)

truncate-Keeps :
    (given : Option ℕ) (whole body : Text) → truncate given whole ≡ ok body → Keeps given whole body
unfolding truncate
truncate-Keeps none whole body e = ap (from_ok whole) e
truncate-Keeps (some n) whole body e = elim (Bool-cases (leb n (byte_len whole))) [
  | inl reached ↦
      let opened : truncate (some n) whole ≡ first_part (split_at n whole) =
        rw (truncate, reached) refl in
      cut-Keeps n whole body (split_at n whole) refl (sym opened ∙ e)
  | inr short ↦
      let opened : truncate (some n) whole ≡ ok whole = rw (truncate, short) refl in
      subst (Keeps (some n) whole) (ap (from_ok whole) (sym opened ∙ e))
        ([], sym (append-nil whole), ground arith, inr refl)
]

-- What is to show of a response that was parsed.
abbrev pub KeepsBody : Text → Outcome Text HttpResponse → Type 0
KeepsBody whole (ok r) = Keeps (content_length r.headers) whole r.body
KeepsBody whole (err e) = Unit
KeepsBody whole panic = Unit

response-KeepsBody :
    (status_code : ℕ) (headers : List Header) (whole : Text) (o : Outcome Text Text)
    → truncate (content_length headers) whole ≡ o
    → KeepsBody whole (response status_code headers o)
response-KeepsBody status_code headers whole (ok body) e = truncate-Keeps _ whole body e
response-KeepsBody status_code headers whole (err x) e = tt
response-KeepsBody status_code headers whole panic e = tt

with_headers-KeepsBody :
    (status_code : ℕ) (whole : Text) (o : Outcome Text (List Header))
    → KeepsBody whole (with_headers status_code whole o)
with_headers-KeepsBody status_code whole (ok headers) =
    response-KeepsBody status_code headers whole _ refl
with_headers-KeepsBody status_code whole (err x) = tt
with_headers-KeepsBody status_code whole panic = tt

with_status-KeepsBody :
    (whole : Text) (lines : List Text) (o : Option ℕ) → KeepsBody whole (with_status whole lines o)
with_status-KeepsBody whole lines none = tt
with_status-KeepsBody whole lines (some n) = with_headers-KeepsBody n whole _

with_status_parts-KeepsBody :
    (whole : Text) (lines words : List Text) → KeepsBody whole (with_status_parts whole lines words)
with_status_parts-KeepsBody whole lines [] = tt
with_status_parts-KeepsBody whole lines (_ ∷ []) = tt
with_status_parts-KeepsBody whole lines (_ ∷ _ ∷ []) = tt
with_status_parts-KeepsBody whole lines (_ ∷ _ ∷ _ ∷ _) = with_status-KeepsBody whole lines _

with_lines-KeepsBody : (whole : Text) (lines : List Text) → KeepsBody whole (with_lines whole lines)
with_lines-KeepsBody whole [] = tt
with_lines-KeepsBody whole (status ∷ lines) =
    with_status_parts-KeepsBody whole lines (split_whitespace status)

-- What is to show of a text that was parsed: it is a first section, a blank line and the rest.
abbrev Divides : Text → Outcome Text HttpResponse → Type 0
Divides raw (ok r) =
    (section : Text) × (whole : Text) × (raw ≡ section ++ (blank_line ++ whole))
    × Keeps (content_length r.headers) whole r.body
Divides raw (err e) = Unit
Divides raw panic = Unit

divides :
    (section whole : Text) (o : Outcome Text HttpResponse)
    → KeepsBody whole o
    → Divides (section ++ (blank_line ++ whole)) o
divides section whole (ok r) k = (section, whole, refl, k)
divides section whole (err e) k = tt
divides section whole panic k = tt

with_parts-Divides : (parts : List Text) → Divides (join blank_line parts) (with_parts parts)
unfolding join
with_parts-Divides [] = tt
with_parts-Divides (section ∷ []) = tt
with_parts-Divides (section ∷ part ∷ parts) =
    divides section (join blank_line (part ∷ parts)) _
      (with_lines-KeepsBody (join blank_line (part ∷ parts)) (split_text crlf section))

parse-Divides : (raw : Text) → Divides raw (parse_http_response raw)
unfolding parse_http_response
parse-Divides raw =
    subst (λ t. Divides t (with_parts (split_text blank_line raw)))
      (join-split_text 13 (10 ∷ crlf) raw) (with_parts-Divides (split_text blank_line raw))

-- The body of a response that was parsed is what follows a blank line of the text, up to its end
-- or, where the headers have a `Content-Length` that is a number, up to that many bytes: it is
-- never longer than that, and it is shorter only where the text ends.
pub parse_http_response-Keeps :
    (raw : Text) (r : HttpResponse)
    → parse_http_response raw ≡ ok r
    → (section : Text) × (whole : Text) × (raw ≡ section ++ (blank_line ++ whole))
      × Keeps (content_length r.headers) whole r.body
parse_http_response-Keeps raw r e = subst (Divides raw) e (parse-Divides raw)
