-- ===== src/Simulator/Http/RoundTrip.antt =====
-- A response that is written as HTTP prescribes is read back.
use dst_demo.Prelude.{
  ℕ, ◌+◌, ◌≤◌, ◌≡◌, refl, sym, ◌∙◌, ap, arith, true, false, Option, none, some, inl, inr, ◌⊎◌, List,
  [], ◌∷◌, ◌++◌, All, All-append, map, append_assoc, append-nil, leb,
}
use mathlib.Core.Path.{subst}
use dst_demo.Text.{Text, codes, text_eq, byte_len, split_at, join}
use dst_demo.Text.Split.{split_at-append, byte_len-append}
use dst_demo.Text.Lines.{Lacks}
use dst_demo.Text.Number.{show_ℕ}
use dst_demo.Text.Number.RoundTrip.{IsDigit, show_ℕ-IsDigit, show_ℕ_cons, parse_unsigned-show}
use dst_demo.Transaction.Display.RoundTrip.{show_ℕ-Lacks}
use dst_demo.Outcome.{ok}
use dst_demo.Simulator.Headers.{Header}
use dst_demo.Simulator.Http.{
  split_text, crlf, blank_line, trim, trim_start, find_char, parse_header, text_lt, insert,
  insert_parsed, parse_headers, content_length, truncate, HttpResponse, response, with_headers,
  with_status, with_status_parts, with_lines, with_parts, parse_http_response, split_whitespace,
}
use dst_demo.Simulator.Http.Texts.{split_from_cons, join-split_text}
use dst_demo.Simulator.Http.Lines.{
  IsLine, IsFull, IsWord, split_text-lines, split_text-section, split_whitespace-word,
}

abbrev pub header_line : Header → Text
header_line (key, value) = key ++ (codes ": " ++ value)

-- "HTTP/1.1 200 OK"
abbrev pub status_line : ℕ → Text → Text
status_line status_code reason = codes "HTTP/1.1" ++ b' ' ∷ (show_ℕ status_code ++ b' ' ∷ reason)

-- The status line, a line for each header, a blank line and the body.
unfoldable pub show_response : Text → HttpResponse → Text
show_response reason r =
    join crlf (status_line r.status_code reason ∷ map header_line r.headers)
    ++ (blank_line ++ r.body)

-- A key without colon, and no white space at the ends; both on one line.
abbrev pub IsHeader : Header → Type 0
IsHeader (key, value) =
    Lacks b':' key × (trim key ≡ key) × (trim value ≡ value) × IsLine key × IsLine value

abbrev pub Above : Header → List Header → Type 0
Above h = All (λ e. text_lt e.0 h.0 ≡ true)

-- The entries of a `BTreeMap`: each key once, in their order.
abbrev pub IsMap : List Header → List Header → Type 0
IsMap before [] = Unit
IsMap before (h ∷ hs) = Above h before × IsMap (before ++ h ∷ []) hs

find_char-append : (c : ℕ) (s t : Text) → Lacks c s → find_char c (s ++ c ∷ t) ≡ some (byte_len s)
unfolding find_char byte_len
find_char-append c [] t h = ground arith
find_char-append c (d ∷ s) t h = rw (find_char, h.0, find_char-append c s t h.1) refl

colon_end : (key : Text) → byte_len key + 1 ≡ byte_len (key ++ b':' ∷ [])
unfolding byte_len
colon_end key = omega (arith, byte_len-append key (b':' ∷ []))

header-parsed :
    (key value : Text)
    → IsHeader (key, value)
    → parse_header (header_line (key, value)) ≡ ok (some (key, value))
unfolding parse_header trim_start
header-parsed key value (clear, key_trimmed, value_trimmed, _, _) =
    let after : Text = b' ' ∷ value in
    let cut : split_at (byte_len key) (key ++ b':' ∷ after) ≡ some (key, b':' ∷ after) =
      split_at-append key (b':' ∷ after) in
    let behind : split_at (byte_len key + 1) (key ++ b':' ∷ after)
        ≡ some (key ++ b':' ∷ [], after) =
      ap (λ n. split_at n (key ++ b':' ∷ after)) (colon_end key)
      ∙ ap (split_at (byte_len (key ++ b':' ∷ []))) (sym (append_assoc key (b':' ∷ []) after))
      ∙ split_at-append (key ++ b':' ∷ []) after in
    rw
      (parse_header, find_char-append b':' key after clear, cut, behind, key_trimmed, value_trimmed)
      refl

text_lt_irrefl : (s : Text) → text_lt s s ≡ false
unfolding text_lt
text_lt_irrefl [] = refl
text_lt_irrefl (c ∷ s) = ground (arith, text_lt_irrefl s)

text_lt_ne : (s t : Text) → text_lt s t ≡ true → text_eq t s ≡ false
unfolding text_lt
text_lt_ne s [] h = ground arith
text_lt_ne [] (b ∷ t) h = refl
text_lt_ne (a ∷ s) (b ∷ t) h = ground (arith, text_lt_ne s t)

text_lt_asymm : (s t : Text) → text_lt s t ≡ true → text_lt t s ≡ false
unfolding text_lt
text_lt_asymm s [] h = ground arith
text_lt_asymm [] (b ∷ t) h = refl
text_lt_asymm (a ∷ s) (b ∷ t) h = ground (arith, text_lt_asymm s t)

insert-Above : (h : Header) (es : List Header) → Above h es → insert h es ≡ es ++ h ∷ []
unfolding insert
insert-Above h [] a = refl
insert-Above h (e ∷ es) (first, rest) =
    rw (insert, text_lt_ne e.0 h.0 first, text_lt_asymm e.0 h.0 first, insert-Above h es rest) refl

parse_headers-lines :
    (hs before : List Header)
    → All IsHeader hs
    → IsMap before hs
    → parse_headers (map header_line hs) before ≡ ok (before ++ hs)
unfolding parse_headers
parse_headers-lines [] before w m = ap ok (sym (append-nil before))
parse_headers-lines (h ∷ hs) before (w, ws) (above, m) =
    ap (λ o. insert_parsed o (parse_headers (map header_line hs)) before) (header-parsed h.0 h.1 w)
    ∙ ap (parse_headers (map header_line hs)) (insert-Above h before above)
    ∙ parse_headers-lines hs (before ++ h ∷ []) ws m
    ∙ ap ok (append_assoc before (h ∷ []) hs)

digits-IsWord : (s : Text) → All IsDigit s → IsWord s
digits-IsWord [] h = tt
digits-IsWord (c ∷ s) (h, hs) = (ground arith, digits-IsWord s hs)

show_ℕ-IsFull : (n : ℕ) → IsFull (show_ℕ n)
show_ℕ-IsFull n = let (c, s, e, _) = show_ℕ_cons n in subst IsFull (sym e) tt

status_words :
    (status_code : ℕ) (reason w : Text) (ws : List Text)
    → split_whitespace reason ≡ w ∷ ws
    → split_whitespace (status_line status_code reason)
      ≡ codes "HTTP/1.1" ∷ show_ℕ status_code ∷ w ∷ ws
status_words status_code reason w ws e =
    split_whitespace-word (codes "HTTP/1.1") _ (ground arith) tt
    ∙ ap (λ r. codes "HTTP/1.1" ∷ r)
        (split_whitespace-word (show_ℕ status_code) reason
            (digits-IsWord _ (show_ℕ-IsDigit status_code)) (show_ℕ-IsFull status_code)
          ∙ ap (λ r. show_ℕ status_code ∷ r) e)

status_line-IsLine :
    (status_code : ℕ) (reason : Text) → IsLine reason → IsLine (status_line status_code reason)
status_line-IsLine status_code reason h = All-append _ (codes "HTTP/1.1 ") _ (ground arith) (
    All-append _ (show_ℕ status_code) _ (show_ℕ-Lacks 13 status_code (omega arith))
      (ground arith, h))

header_lines-IsLine : (hs : List Header) → All IsHeader hs → All IsLine (map header_line hs)
header_lines-IsLine [] h = tt
header_lines-IsLine ((key, value) ∷ hs) ((_, _, _, k, v), rest) =
    (All-append _ key _ k (ground arith, (ground arith, v)), header_lines-IsLine hs rest)

append-IsFull : (s : Text) (c : ℕ) (t : Text) → IsFull (s ++ c ∷ t)
append-IsFull [] c t = tt
append-IsFull (d ∷ s) c t = tt

header_lines-IsFull : (hs : List Header) → All IsFull (map header_line hs)
header_lines-IsFull [] = tt
header_lines-IsFull ((key, value) ∷ hs) =
    (append-IsFull key b':' (b' ' ∷ value), header_lines-IsFull hs)

truncate_whole :
    (length_given : Option ℕ) (body : Text)
    → (length_given ≡ none) ⊎ (length_given ≡ some (byte_len body))
    → truncate length_given body ≡ ok body
unfolding truncate
truncate_whole length_given body (inl e) = rw e refl
truncate_whole length_given body (inr e) =
    let reached : leb (byte_len body) (byte_len body) ≡ true = ground arith in
    let cut : split_at (byte_len body) body ≡ some (body, []) =
      ap (split_at (byte_len body)) (sym (append-nil body)) ∙ split_at-append body [] in
    rw (e, truncate, reached, cut) refl

parts_of :
    (section : Text) (rest : List Text)
    → (part : Text) × (parts : List Text) × (rest ≡ part ∷ parts)
    → with_parts (section ∷ rest) ≡ with_lines (join blank_line rest) (split_text crlf section)
parts_of section rest (part, parts, e) = rw e refl

-- A response is read back from its text, with any body: if its status code is at most 65535, its
-- reason is on one line and has a word, its headers are a map whose keys and values are each on one
-- line, without white space at their ends and without a colon in the keys, and a `Content-Length`
-- among them that is a number is the length of the body in bytes.
pub parse_http_response-show :
    (reason w : Text) (ws : List Text) (r : HttpResponse)
    → split_whitespace reason ≡ w ∷ ws
    → IsLine reason
    → r.status_code ≤ 65535
    → All IsHeader r.headers
    → IsMap [] r.headers
    → (content_length r.headers ≡ none) ⊎ (content_length r.headers ≡ some (byte_len r.body))
    → parse_http_response (show_response reason r) ≡ ok r
unfolding parse_http_response show_response
parse_http_response-show reason w ws r words line fits headers sorted given =
    let status : Text = status_line r.status_code reason in
    let lines : List Text = map header_line r.headers in
    let all_lines : All IsLine (status ∷ lines) =
      (status_line-IsLine r.status_code reason line, header_lines-IsLine _ headers) in
    let section : Text = join crlf (status ∷ lines) in
    ap with_parts (split_text-section status lines r.body all_lines (tt, header_lines-IsFull _))
    ∙ parts_of section (split_text blank_line r.body) (split_from_cons blank_line 0 r.body)
    ∙ ap (λ b. with_lines b (split_text crlf section)) (join-split_text 13 (10 ∷ crlf) r.body)
    ∙ ap (with_lines r.body) (split_text-lines status lines all_lines)
    ∙ ap (with_status_parts r.body lines) (status_words r.status_code reason w ws words)
    ∙ ap (with_status r.body lines) (parse_unsigned-show 65535 r.status_code fits)
    ∙ ap (with_headers r.status_code r.body) (parse_headers-lines r.headers [] headers sorted)
    ∙ ap (response r.status_code r.headers) (truncate_whole _ r.body given)
