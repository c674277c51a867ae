-- ===== src/Simulator/Http/Tests.antt =====
-- HTTP responses at concrete inputs.
use dst_demo.Prelude.{◌≡◌, refl, take, drop, some, inr, [], ◌∷◌, ◌++◌, arith}
use dst_demo.Text.{Text, codes, byte_len, split_at, join, strip_prefix}
use dst_demo.Text.Utf8.{into_bytes}
use dst_demo.Text.Utf8.RoundTrip.{ascii-IsScalar}
use dst_demo.Text.Number.{show_ℕ, parse_unsigned}
use dst_demo.Outcome.{ok, panic}
use dst_demo.Simulator.Http.{
  HttpResponse, request_text, blank_line, content_length_str, open_words, trim_start, trim_end,
  text_lt, split_from, find_char, parse_header, insert, parse_headers, truncate,
  parse_http_response,
}
use dst_demo.Framing.{bytes}
use dst_demo.Framing.Chunks.{stream}
use dst_demo.Simulator.Connection.{TcpStream}
use dst_demo.Simulator.Http.Request.{http_request, http_request-parse_http_response}
use dst_demo.Simulator.Http.RoundTrip.{show_response}
use dst_demo.Simulator.Http.Length.{Keeps, parse_http_response-Keeps}

-- A body that has a blank line in it.
abbrev answer : HttpResponse
answer = record {
  status_code = 200;
  headers = (codes "Accept", codes "a/b: c") ∷ (codes "Content-Length", codes "6") ∷ [];
  body = b'x' ∷ (blank_line ++ b'y' ∷ []);
}

reading : Unit {0}
unfolding show_response byte_len split_at join strip_prefix show_ℕ parse_unsigned content_length_str
    open_words trim_start trim_end text_lt split_from find_char parse_header insert parse_headers
    truncate parse_http_response
reading = tt

-- A body that is longer than it was announced.
abbrev long : Text
long =
    codes "HTTP/1.1 200 OK"
    ++ (b'\r' ∷ b'\n' ∷ codes "Content-Length: 2" ++ (blank_line ++ codes "abc"))

parse_http_response-Keeps_example :
    (section : Text) × (whole : Text) × (long ≡ section ++ (blank_line ++ whole))
    × Keeps (some 2) whole (codes "ab")
unfolding reading
parse_http_response-Keeps_example =
    parse_http_response-Keeps long
      (record {
        status_code = 200;
        headers = (codes "Content-Length", codes "2") ∷ [];
        body = codes "ab";
      })
      refl

-- A length that ends inside a character panics.
parse_inside :
    parse_http_response (
      codes "HTTP/1.1 200 OK"
      ++ (b'\r' ∷ b'\n' ∷ codes "Content-Length: 1" ++ (blank_line ++ 233 ∷ [])))
    ≡ panic
unfolding reading
parse_inside = refl

-- The answer in three chunks, behind which the stream ends.
abbrev text : Text
text = show_response (codes "Not Found") answer

abbrev answering : TcpStream
answering = record {
  reader =
      bytes (take 9 text) ∷ bytes (drop 9 (take 30 text)) ∷ bytes (drop 30 text) ∷ bytes [] ∷ [];
  writer = record { content = []; fates = [] };
}

http_request-parse_http_response_example :
    (raw : Text) × (s : TcpStream) × (http_request (codes "GET") (codes "/balance") answering
      ≡ (ok raw, s))
    × (s.writer.content ≡ [] ++ into_bytes (request_text (codes "GET") (codes "/balance")))
    × (parse_http_response raw ≡ ok answer)
unfolding reading stream into_bytes
http_request-parse_http_response_example =
    http_request-parse_http_response (codes "GET") (codes "/balance") (codes "Not Found")
      (codes "Not") (codes "Found" ∷ []) answer answering refl (ground arith) (omega arith)
      (
        (ground arith, refl, refl, ground arith, ground arith),
        ((ground arith, refl, refl, ground arith, ground arith), tt),
      )
      (tt, ((refl, tt), tt)) (inr refl) (ascii-IsScalar text (omega arith)) refl tt refl
