-- ===== src/Simulator/Http/Request.antt =====
-- A request and its response: `http_request` of `simulator/src/http.rs`. The stream is a library's;
-- its `read_to_string` reads up to the end, and fails where a read fails or the bytes are no UTF-8.
use dst_demo.Prelude.{
  ◌≤◌, ◌≡◌, ◌⊎◌, sym, ◌∙◌, ap, Option, none, some, List, [], ◌∷◌, ◌++◌, All, append_assoc,
  append-nil,
}
use dst_demo.Text.{Text, Bytes, byte_len}
use dst_demo.Text.Utf8.{from_utf8, into_bytes}
use dst_demo.Text.Utf8.RoundTrip.{IsScalar, from_utf8-into_bytes}
use dst_demo.Outcome.{Outcome, ok, err, ◌>>◌, write_all}
use dst_demo.Framing.{bytes, failed, Reader}
use dst_demo.Framing.Chunks.{stream}
use dst_demo.Simulator.Connection.{TcpStream, ClientAction, sent}
use dst_demo.Simulator.Http.{
  HttpResponse, request_text, content_length, split_whitespace, parse_http_response,
}
use dst_demo.Simulator.Http.Lines.{IsLine}
use dst_demo.Simulator.Http.RoundTrip.{IsHeader, IsMap, show_response, parse_http_response-show}

abbrev pub write : Bytes → ClientAction (Unit {0})
write bs stream = sent (write_all bs stream.writer) stream

unfoldable pub read_to_end : Bytes → Reader → Option Bytes × Reader
read_to_end read [] = (some read, [])
read_to_end read (failed ∷ r) = (none, r)
read_to_end read (bytes [] ∷ r) = (some read, r)
read_to_end read (bytes (b ∷ bs) ∷ r) = read_to_end (read ++ b ∷ bs) r

abbrev pub text_or_error : Option Text → Outcome (Unit {0}) Text
text_or_error none = err tt
text_or_error (some response) = ok response

abbrev pub decoded : Option Bytes × Reader → ClientAction Text
decoded (none, r) stream = (err tt, record stream { reader = r })
decoded (some bs, r) stream = (text_or_error (from_utf8 bs), record stream { reader = r })

unfoldable pub read_to_string : ClientAction Text
read_to_string stream = decoded (read_to_end [] stream.reader) stream

-- `flush` does nothing on a socket.
unfoldable pub http_request : Text → Text → ClientAction Text
http_request method path = do
  write (into_bytes (request_text method path))
  write []
  read_to_string

-- No read fails before the end.
abbrev pub ReachesEnd : Reader → Type 0
ReachesEnd [] = Unit
ReachesEnd (failed ∷ r) = ⊥
ReachesEnd (bytes [] ∷ r) = Unit
ReachesEnd (bytes (b ∷ bs) ∷ r) = ReachesEnd r

read_to_end-stream :
    (read : Bytes) (r : Reader)
    → ReachesEnd r
    → (r' : Reader) × (read_to_end read r ≡ (some (read ++ stream r), r'))
unfolding read_to_end stream
read_to_end-stream read [] h = ([], ap (λ bs. (some bs, [])) (sym (append-nil read)))
read_to_end-stream read (failed ∷ r) h = absurd h
read_to_end-stream read (bytes [] ∷ r) h = (r, ap (λ bs. (some bs, r)) (sym (append-nil read)))
read_to_end-stream read (bytes (b ∷ bs) ∷ r) h =
    let (r', e) = read_to_end-stream (read ++ b ∷ bs) r h in
    (r', e ∙ ap (λ bs. (some bs, r')) (append_assoc read (b ∷ bs) (stream r)))

-- A text that arrives in any chunks, also cut inside characters, is read whole.
pub read_to_string-text :
    (t : Text) (s : TcpStream)
    → All IsScalar t
    → ReachesEnd s.reader
    → stream s.reader ≡ into_bytes t
    → (r : Reader) × (read_to_string s ≡ (ok t, record s { reader = r }))
unfolding read_to_string
read_to_string-text t s scalar steady arrives =
    let (r, e) = read_to_end-stream [] s.reader steady in
    (
      r,
      ap (λ o. decoded o s) e
          ∙ ap (λ bs. (text_or_error (from_utf8 bs), record s { reader = r })) arrives
          ∙ ap (λ o. (text_or_error o, record s { reader = r })) (from_utf8-into_bytes t scalar),
    )

-- If writes succeed, no read fails, and the server sends the text of a response, in any chunks, and
-- closes: `http_request` has sent exactly the request, and `parse_http_response` of what it returns
-- is that response. The text consists of Unicode's characters, and the response is one whose status
-- code is at most 65535, whose reason is on one line and has a word, whose headers are a map with
-- keys and values each on one line, without white space at their ends and without a colon in the
-- keys, and where a `Content-Length` that is a number is the length of the body in bytes.
pub http_request-parse_http_response :
    (method path reason w : Text) (ws : List Text) (response : HttpResponse) (s : TcpStream)
    → split_whitespace reason ≡ w ∷ ws
    → IsLine reason
    → response.status_code ≤ 65535
    → All IsHeader response.headers
    → IsMap [] response.headers
    → (content_length response.headers ≡ none)
      ⊎ (content_length response.headers ≡ some (byte_len response.body))
    → All IsScalar (show_response reason response)
    → s.writer.fates ≡ []
    → ReachesEnd s.reader
    → stream s.reader ≡ into_bytes (show_response reason response)
    → (raw : Text) × (s' : TcpStream) × (http_request method path s ≡ (ok raw, s'))
      × (s'.writer.content ≡ s.writer.content ++ into_bytes (request_text method path))
      × (parse_http_response raw ≡ ok response)
unfolding http_request
http_request-parse_http_response method path reason w ws response s words line fits headers sorted
      given scalar steady ends arrives =
    let request = into_bytes (request_text method path) in
    let written : TcpStream = record s {
      writer = record { content = (s.writer.content ++ request) ++ []; fates = [] };
    } in
    let (r, read) =
      read_to_string-text (show_response reason response) written scalar ends arrives in
    (
      show_response reason response,
      record written { reader = r },
      ap (λ f. http_request method path (record s { writer = record s.writer { fates = f } }))
            steady
          ∙ read,
      append-nil (s.writer.content ++ request),
      parse_http_response-show reason w ws response words line fits headers sorted given,
    )
