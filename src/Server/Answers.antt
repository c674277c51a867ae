-- ===== src/Server/Answers.antt =====
-- One round of the server's loop is one request of the protocol.
use dst_demo.Prelude.{◌≡◌, ◌∙◌, ap, Option, none, some, [], ◌++◌, All, append_assoc, append-nil}
use dst_demo.Text.{Text, Bytes}
use dst_demo.Text.Utf8.RoundTrip.{IsAscii}
use dst_demo.Outcome.{Outcome, ok, err, panic, ◌>>=◌, ◌>>◌, or_throw}
use dst_demo.Framing.{Reader, frame}
use dst_demo.Framing.Chunks.{stream}
use dst_demo.Framing.Messages.{IsPlain, frames}
use dst_demo.Platform.{Platform}
use dst_demo.Bank
use dst_demo.Bank.{Bank, BankAction}
use dst_demo.Server.{Ended, crashed}
use dst_demo.Server.Task.{World, Error, io, on_bank, read, write}
use dst_demo.Server.Replies.{incoming, moved, prompted-moved}
use dst_demo.Server.Requests.{Response, after_call, after_answer}

module _ {D : Type 0} (p : Platform D) where
  -- A handler's outcome as the loop sees it.
  abbrev pub settle : Outcome Error (Unit {0}) × World D → Option Ended × World D
  settle (ok _, w) = (none, w)
  settle (err _, w) = (none, w)
  settle (panic, w) = (some crashed, w)

  -- What a task comes to that follows the protocol.
  abbrev pub Follows : World D → Bytes → Option Ended × World D → Response D → Type 0
  Follows w rest result s =
      (buffer : Text) × (r : Reader) × (result
        ≡ (s.ended, moved w (frames s.replies) buffer r s.bank))
      × (buffer ++ stream r ≡ rest)

  call-settles :
      {A : Type 0} (prompt : Text) (show : A → Text) (m : BankAction D A) (w : World D)
      (buffer : Text) (r : Reader) (o : Outcome Bank.Error A × Bank D)
      → settle ((on_bank (λ _. o) >>= λ a. write (show a)) (moved w (frame prompt) buffer r w.bank))
        ≡ (
          (after_call p prompt show o).ended,
          moved w
              (frames (after_call p prompt show o).replies)
              buffer
              r
              (after_call p prompt show o).bank,
        )
  unfolding on_bank write frames
  call-settles prompt show m w buffer r (ok a, b) = simp (append_assoc, append-nil)
  call-settles prompt show m w buffer r (err e, b) = simp append-nil
  call-settles prompt show m w buffer r (panic, b) = simp append-nil

  answer-settles :
      {A B : Type 0} (prompt : Text) (e : Error) (show : B → Text) (call : A → BankAction D B)
      (w : World D) (buffer : Text) (r : Reader) (answer : Option A)
      → settle (
          (or_throw e answer >>= λ a. on_bank (call a) >>= λ b. write (show b))
            (moved w (frame prompt) buffer r w.bank))
        ≡ (
          (after_answer p prompt show call answer w.bank).ended,
          moved w
              (frames (after_answer p prompt show call answer w.bank).replies)
              buffer
              r
              (after_answer p prompt show call answer w.bank).bank,
        )
  unfolding frames on_bank
  answer-settles prompt e show call w buffer r none = simp append-nil
  answer-settles prompt e show call w buffer r (some a) =
      call-settles prompt show (call a) w buffer r (call a w.bank)

  -- A handler with a prompt.
  pub prompted-Follows :
      {A B : Type 0} (prompt : Text) (e : Error) (parse : Text → Option A) (show : B → Text)
      (call : A → BankAction D B) (m : Text) (rest : Bytes) (w : World D)
      → w.writer.fates ≡ []
      → IsPlain m
      → All IsAscii rest
      → incoming w ≡ frame m ++ rest
      → Follows w rest
          (settle (
            (write prompt
                >> (read >>= λ m. or_throw io m >>= λ m.
                    or_throw e (parse m) >>= λ a. on_bank (call a) >>= λ b. write (show b)))
              w))
          (after_answer p prompt show call (parse m) w.bank)
  prompted-Follows prompt e parse show call m rest w h plain a i =
      let (buffer, r, done, left) =
        prompted-moved prompt e parse (λ a. on_bank (call a) >>= λ b. write (show b)) m rest w h
          plain a i in
      (buffer, r, ap settle done ∙ answer-settles prompt e show call w buffer r (parse m), left)
