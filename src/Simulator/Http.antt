-- ===== src/Simulator/Http.antt =====
-- HTTP responses as text: `parse_http_response` of `simulator/src/http.rs`, with the request that
-- `http_request` sends. The string methods are the standard library's: `find` and the slices count
-- bytes, `split_whitespace` and `trim` know Unicode's white space.
pub mod Texts
pub mod Lines
pub mod RoundTrip
pub mod Length
pub mod Request
mod Tests
use mathlib.Core.Option
use dst_demo.Prelude.{
  ℕ, zero, suc, ◌+◌, ◌-◌, Bool, true, false, Option, none, some, List, [], ◌∷◌, ◌++◌, ltb, leb,
  ◌==◌, ◌&&◌, ◌||◌, if◌then◌else◌, length,
}
use dst_demo.Text.{Text, codes, text_eq, len_utf8, byte_len, split_at, strip_prefix, prepend, join}
use dst_demo.Text.Number.{parse_unsigned, u64_max}
use dst_demo.Outcome.{Outcome, ok, err, panic}
use dst_demo.Simulator.Headers.{Header}

-- `s.split(sep)` with a string: the parts between the occurrences of `sep` that do not overlap,
-- from the left; the number is of characters of an occurrence still to pass over.
unfoldable pub split_from : Text → ℕ → Text → List Text
split_from sep k [] = [] ∷ []
split_from sep (suc k) (c ∷ s) = split_from sep k s
split_from sep zero (c ∷ s) = elim (strip_prefix sep (c ∷ s)) [
  | some rest ↦ [] ∷ split_from sep (length sep - 1) s
  | none ↦ prepend c (split_from sep 0 s)
]

abbrev pub split_text : Text → Text → List Text
split_text sep s = split_from sep 0 s

abbrev pub crlf : Text
crlf = 13 ∷ 10 ∷ []

-- "\r\n\r\n"
abbrev pub blank_line : Text
blank_line = crlf ++ crlf

-- `char::is_whitespace`
abbrev pub is_whitespace : ℕ → Bool
is_whitespace c =
    (leb 9 c && leb c 13)
    || c == 32
    || c == 0x85
    || c == 0xA0
    || c == 0x1680
    || (leb 0x2000 c && leb c 0x200A)
    || c == 0x2028
    || c == 0x2029
    || c == 0x202F
    || c == 0x205F
    || c == 0x3000

abbrev pub trim_end_with : ℕ → Text → Text
trim_end_with c [] = if is_whitespace c then [] else c ∷ []
trim_end_with c (d ∷ s) = c ∷ d ∷ s

unfoldable pub trim_end : Text → Text
trim_end [] = []
trim_end (c ∷ s) = trim_end_with c (trim_end s)

unfoldable pub trim_start : Text → Text
trim_start [] = []
trim_start (c ∷ s) = let rest = trim_start s in if is_whitespace c then rest else c ∷ s

abbrev pub trim : Text → Text
trim s = trim_end (trim_start s)

abbrev pub end_word : List Text → List Text
end_word [] = []
end_word ([] ∷ ws) = ws
end_word ((c ∷ w) ∷ ws) = (c ∷ w) ∷ ws

-- The words of a text, the first of which may be empty.
unfoldable pub open_words : Text → List Text
open_words [] = [] ∷ []
open_words (c ∷ s) =
    let rest = open_words s in if is_whitespace c then [] ∷ end_word rest else prepend c rest

-- `split_whitespace`: the words, none of which is empty.
abbrev pub split_whitespace : Text → List Text
split_whitespace s = end_word (open_words s)

-- `line.find(c)`: a number of bytes.
unfoldable pub find_char : ℕ → Text → Option ℕ
find_char c [] = none
find_char c (d ∷ s) =
    let rest = Option.map (λ n. len_utf8 d + n) (find_char c s) in if d == c then some 0 else rest

abbrev pub sliced : Option (Text × Text) → Option (Text × Text) → Outcome Text (Option Header)
sliced none after = panic
sliced (some before) none = panic
sliced (some (key, _)) (some (_, value)) = ok (some (trim key, trim value))

-- A line without a colon is no header.
unfoldable pub parse_header : Text → Outcome Text (Option Header)
parse_header line = elim (find_char b':' line) [
  | none ↦ ok none
  | some colon_pos ↦ sliced (split_at colon_pos line) (split_at (colon_pos + 1) line)
]

-- The order of strings.
unfoldable pub text_lt : Text → Text → Bool
text_lt s [] = false
text_lt [] (_ ∷ _) = true
text_lt (a ∷ s) (b ∷ t) = ltb a b || (a == b && text_lt s t)

-- `BTreeMap::insert`, on the entries in the order of their keys.
unfoldable pub insert : Header → List Header → List Header
insert h [] = h ∷ []
insert h (e ∷ es) =
    let rest = insert h es in
    if text_eq h.0 e.0 then h ∷ es else if text_lt h.0 e.0 then h ∷ e ∷ es else e ∷ rest

abbrev pub insert_parsed :
    Outcome Text (Option Header)
    → (List Header → Outcome Text (List Header))
    → List Header
    → Outcome Text (List Header)
insert_parsed (ok none) go headers = go headers
insert_parsed (ok (some h)) go headers = go (insert h headers)
insert_parsed (err e) go headers = err e
insert_parsed panic go headers = panic

unfoldable pub parse_headers : List Text → List Header → Outcome Text (List Header)
parse_headers [] headers = ok headers
parse_headers (line ∷ lines) headers =
    insert_parsed (parse_header line) (parse_headers lines) headers

-- The value of the first entry whose key is `Content-Length`, in just these letters.
unfoldable pub content_length_str : List Header → Option Text
content_length_str [] = none
content_length_str ((key, value) ∷ headers) =
    let rest = content_length_str headers in
    if text_eq key (codes "Content-Length") then some value else rest

pub record HttpResponse : Type 0 where
  pub status_code : ℕ
  pub headers : List Header
  pub body : Text

abbrev pub content_length : List Header → Option ℕ
content_length headers = elim (content_length_str headers) [
  | none ↦ none
  | some value ↦ parse_unsigned u64_max value
]

abbrev pub first_part : Option (Text × Text) → Outcome Text Text
first_part none = panic
first_part (some (truncated_body, _)) = ok truncated_body

-- The body cut to its announced length; `&body[..content_length]` panics inside a character.
unfoldable pub truncate : Option ℕ → Text → Outcome Text Text
truncate none body = ok body
truncate (some n) body = if leb n (byte_len body) then first_part (split_at n body) else ok body

abbrev pub response : ℕ → List Header → Outcome Text Text → Outcome Text HttpResponse
response status_code headers (ok body) =
    ok (record { status_code = status_code; headers = headers; body = body })
response status_code headers (err e) = err e
response status_code headers panic = panic

abbrev pub with_headers : ℕ → Text → Outcome Text (List Header) → Outcome Text HttpResponse
with_headers status_code body (ok headers) =
    response status_code headers (truncate (content_length headers) body)
with_headers status_code body (err e) = err e
with_headers status_code body panic = panic

abbrev pub with_status : Text → List Text → Option ℕ → Outcome Text HttpResponse
with_status body lines none = err (codes "Invalid status code")
with_status body lines (some status_code) = with_headers status_code body (parse_headers lines [])

-- The words of the status line; the second is the status code.
abbrev pub with_status_parts : Text → List Text → List Text → Outcome Text HttpResponse
with_status_parts body lines (version ∷ code ∷ reason ∷ more) =
    with_status body lines (parse_unsigned 65535 code)
with_status_parts body lines _ = err (codes "Invalid status line")

abbrev pub with_lines : Text → List Text → Outcome Text HttpResponse
with_lines body [] = err (codes "No headers found")
with_lines body (status_line ∷ lines) = with_status_parts body lines (split_whitespace status_line)

-- The parts around the blank lines; those behind the first are the body.
abbrev pub with_parts : List Text → Outcome Text HttpResponse
with_parts (headers_section ∷ part ∷ parts) =
    with_lines (join blank_line (part ∷ parts)) (split_text crlf headers_section)
with_parts _ = err (codes "Invalid HTTP response format")

unfoldable pub parse_http_response : Text → Outcome Text HttpResponse
parse_http_response raw_response = with_parts (split_text blank_line raw_response)

-- What `http_request` sends.
unfoldable pub request_text : Text → Text → Text
request_text method path =
    method
    ++ (codes " "
        ++ (path
            ++ (codes " HTTP/1.1"
                ++ (crlf
                    ++ (codes "Host: 127.0.0.1"
                        ++ (crlf ++ (codes "Connection: close" ++ (crlf ++ crlf))))))))
