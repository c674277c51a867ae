-- ===== src/Server/Replies.antt =====
-- What a client that sends plain text is answered, over a connection that takes the replies.
use dst_demo.Prelude.{
  arith, ◌≡◌, refl, ◌∙◌, Option, some, [], ◌∷◌, ◌++◌, All, append_assoc, All-append,
}
use dst_demo.Text.{Text, Bytes}
use dst_demo.Text.Utf8.RoundTrip.{IsAscii}
use dst_demo.Outcome.{ok, ◌>>=◌, ◌>>◌, or_throw}
use dst_demo.Outcome.Laws.{>>=-returns}
use dst_demo.Framing.{Reader, frame}
use dst_demo.Framing.Chunks.{stream, read_message-Reads}
use dst_demo.Framing.Messages.{IsPlain, frame-plain}
use dst_demo.Bank.{Bank}
use dst_demo.Server.Task.{World, TaskAction, Error, io, read, write}

module _ {D : Type 0} where
  -- What the client still sends.
  abbrev pub incoming : World D → Bytes
  incoming w = w.message ++ stream w.reader

  -- The task with these bytes written, this buffer and stream, and this bank.
  abbrev pub moved : World D → Bytes → Text → Reader → Bank D → World D
  moved w out buffer r b = record {
    bank = b;
    message = buffer;
    reader = r;
    writer = record { content = w.writer.content ++ out; fates = [] };
    cancelled = w.cancelled;
  }

  pub write-moved :
      (m : Text) (w : World D)
      → w.writer.fates ≡ []
      → write m w ≡ (ok tt, moved w (frame m) w.message w.reader w.bank)
  unfolding write
  write-moved m w h = rw h refl

  pub read-moved :
      (m : Text) (rest : Bytes) (w : World D)
      → IsPlain m
      → All IsAscii rest
      → incoming w ≡ frame m ++ rest
      → (buffer : Text) × (r : Reader) × (read w
          ≡ (ok (some m), record w { message = buffer; reader = r }))
        × (buffer ++ stream r ≡ rest)
  unfolding read
  read-moved m rest w plain a e =
      let whole : incoming w ≡ m ++ 0 ∷ rest =
        e ∙ rw (frame-plain m plain.0) (append_assoc m (0 ∷ []) rest) in
      let ascii : All IsAscii (incoming w) =
        rw whole (All-append IsAscii m (0 ∷ rest) plain.0 (omega arith, a)) in
      let (buffer, r, done, left) =
        read_message-Reads w.message w.reader m rest plain.1 ascii whole in
      (buffer, r, rw done refl, left)

  -- A prompt and its answer: the rest of the handler starts with the answer, parsed, after the
  -- prompt has been written and the answer has been read.
  pub prompted-moved :
      {A B : Type 0} (prompt : Text) (e : Error) (parse : Text → Option A) (f : A → TaskAction D B)
      (m : Text) (rest : Bytes) (w : World D)
      → w.writer.fates ≡ []
      → IsPlain m
      → All IsAscii rest
      → incoming w ≡ frame m ++ rest
      → (buffer : Text) × (r : Reader) × ((write prompt
              >> (read >>= λ m. or_throw io m >>= λ m. or_throw e (parse m) >>= f))
            w
          ≡ (or_throw e (parse m) >>= f) (moved w (frame prompt) buffer r w.bank))
        × (buffer ++ stream r ≡ rest)
  prompted-moved prompt e parse f m rest w h plain a i =
      let v = moved w (frame prompt) w.message w.reader w.bank in
      let (buffer, r, done, left) = read-moved m rest v plain a i in
      let asked =
        >>=-returns (write prompt)
          (λ _. read >>= λ m. or_throw io m >>= λ m. or_throw e (parse m) >>= f) w
          (write-moved prompt w h) in
      let got = >>=-returns read (λ m. or_throw io m >>= λ m. or_throw e (parse m) >>= f) v done in
      (buffer, r, asked ∙ got, left)
