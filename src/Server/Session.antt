-- ===== src/Server/Session.antt =====
-- The whole connection of a client that sends its requests and then closes its end.
use dst_demo.Prelude.{
  ℕ, zero, suc, ◌<◌, ◌≡◌, refl, sym, ◌∙◌, ap, arith, Option, none, some, inl, inr, List, [], ◌∷◌,
  ◌++◌, length, All, All-append, append_assoc, append-nil, Option-cases,
}
use mathlib.Core.Path.{subst}
use dst_demo.Bank.{Bank}
use dst_demo.Text.{Text}
use dst_demo.Framing.{Reader, frame}
use dst_demo.Framing.Messages.{IsPlain, frames, frames-IsAscii, read_message_waits}
use dst_demo.Platform.{Platform}
use dst_demo.Server.{Ended, dropped, round, serve}
use dst_demo.Server.Actions.{ActionNames, NameLaws}
use dst_demo.Server.Task.{World, read}
use dst_demo.Server.Replies.{incoming, moved}
use dst_demo.Server.Requests.{
  Request, health, list, balance, close, get, create, void, unknown, Response, texts, IsRequest,
  respond, respond_all, and_then,
}
use dst_demo.Server.Rounds.{round-Follows}

frames-append : (xs ys : List Text) → frames (xs ++ ys) ≡ frames xs ++ frames ys
unfolding frames
frames-append [] ys = refl
frames-append (m ∷ xs) ys =
    rw (frames-append xs ys) (sym (append_assoc (frame m) (frames xs) (frames ys)))

module _ (names : ActionNames) where
  -- The messages of all requests.
  unfoldable pub all_texts : List Request → List Text
  all_texts [] = []
  all_texts (q ∷ qs) = texts names q ++ all_texts qs

  texts-IsPlain : (q : Request) → NameLaws names → IsRequest names q → All IsPlain (texts names q)
  unfolding texts IsRequest
  texts-IsPlain health laws h = (laws.plain _, tt)
  texts-IsPlain list laws h = (laws.plain _, tt)
  texts-IsPlain balance laws h = (laws.plain _, tt)
  texts-IsPlain close laws h = (laws.plain _, tt)
  texts-IsPlain (get m) laws h = (laws.plain _, (h, tt))
  texts-IsPlain (create m) laws h = (laws.plain _, (h, tt))
  texts-IsPlain (void m) laws h = (laws.plain _, (h, tt))
  texts-IsPlain (unknown m) laws h = (h.0, tt)

  all_texts-IsPlain :
      (qs : List Request) → NameLaws names → All (IsRequest names) qs → All IsPlain (all_texts qs)
  unfolding all_texts
  all_texts-IsPlain [] laws h = tt
  all_texts-IsPlain (q ∷ qs) laws (h, hs) =
      All-append IsPlain (texts names q) (all_texts qs) (texts-IsPlain q laws h)
        (all_texts-IsPlain qs laws hs)

module _ {D : Type 0} (p : Platform D) (names : ActionNames) where
  abbrev pub ending : Option Ended → Ended
  ending none = dropped
  ending (some e) = e

  -- The task has ended, has written these replies and has left this bank.
  abbrev pub Serviced : World D → Option Ended × World D → Response D → Type 0
  Serviced w result s =
      (result.0 ≡ some (ending s.ended))
      × (result.1.writer.content ≡ w.writer.content ++ frames s.replies)
      × (result.1.bank ≡ s.bank)

  -- At the end of the stream the loop stops.
  round_at_end :
      (w : World D)
      → incoming w ≡ []
      → (buffer : Text) × (r : Reader) × (round p names w
          ≡ (some dropped, record w { message = buffer; reader = r }))
  unfolding round read
  round_at_end w e =
      let (r, done) = read_message_waits w.message w.reader (rw e tt) (rw e tt) in
      (incoming w, r, rw done refl)

  serve_ended :
      (fuel : ℕ) (w w' : World D) (e : Ended)
      → round p names w ≡ (some e, w')
      → serve p names (suc fuel) w ≡ (some e, w')
  unfolding serve
  serve_ended fuel w w' e done =
      ap (λ o. elim o.0 [ some e ↦ (some e, o.1) | none ↦ serve p names fuel o.1 ]) done

  serve_on :
      (fuel : ℕ) (w w' : World D)
      → round p names w ≡ (none, w')
      → serve p names (suc fuel) w ≡ serve p names fuel w'
  unfolding serve
  serve_on fuel w w' done =
      ap (λ o. elim o.0 [ some e ↦ (some e, o.1) | none ↦ serve p names fuel o.1 ]) done

  respond_on :
      (s : Response D) (k : Bank D → Response D)
      → s.ended ≡ none
      → and_then p s k ≡ record (k s.bank) { replies = s.replies ++ (k s.bank).replies }
  respond_on s k on = rw on refl

  respond_over :
      (s : Response D) (k : Bank D → Response D) {e : Ended} → s.ended ≡ some e → and_then p s k ≡ s
  respond_over s k over = rw over refl

  Serviced-later :
      (w w' : World D) (replies : List Text) (s : Response D) (result : Option Ended × World D)
      → w'.writer.content ≡ w.writer.content ++ frames replies
      → Serviced w' result s
      → Serviced w result (record s { replies = replies ++ s.replies })
  Serviced-later w w' replies s result e (ended, content, bank) = (
    ended,
    content
        ∙ (ap (λ c. c ++ frames s.replies) e
            ∙ rw (frames-append replies s.replies)
                (append_assoc w.writer.content (frames replies) (frames s.replies))),
    bank,
  )

  -- A client that sends any requests, each well formed, and then closes its end of the connection
  -- is answered by exactly the replies that `respond_all` gives, in order, and the bank is left as
  -- `respond_all` leaves it: however the network cuts what the client sends, as long as the
  -- connection takes the replies, the names of the actions are plain and are read back as the
  -- actions, and there is more fuel than requests. The loop ends with the requests, or at the one
  -- that ends it.
  pub serve-respond_all :
      (qs : List Request) (fuel : ℕ) (w : World D)
      → NameLaws names
      → All (IsRequest names) qs
      → w.writer.fates ≡ []
      → incoming w ≡ frames (all_texts names qs)
      → length qs < fuel
      → Serviced w (serve p names fuel w) (respond_all p qs w.bank)
  unfolding all_texts frames respond_all
  serve-respond_all qs zero w laws hs h i enough = absurd (omega arith)
  serve-respond_all [] (suc fuel) w laws hs h i enough =
      let (buffer, r, done) = round_at_end w i in
      subst (λ x. Serviced w x (respond_all p [] w.bank)) (sym (serve_ended fuel w _ dropped done))
        (refl, sym (append-nil w.writer.content), refl)
  serve-respond_all (q ∷ qs) (suc fuel) w laws (hq, hs) h i enough =
      let rest = frames (all_texts names qs) in
      let (buffer, r, done, left) =
        round-Follows p names q rest w laws hq h
          (frames-IsAscii (all_texts names qs) (all_texts-IsPlain names qs laws hs))
          (i ∙ frames-append (texts names q) (all_texts names qs)) in
      let s = respond p q w.bank in
      let w' = moved w (frames s.replies) buffer r s.bank in
      elim (Option-cases s.ended) [
        | inl on ↦
            let later = serve-respond_all qs fuel w' laws hs refl left (omega arith) in
            rw
              (serve_on fuel w w' (done ∙ ap (λ o. (o, w')) on), respond_on s (respond_all p qs) on)
              (Serviced-later w w' s.replies (respond_all p qs s.bank) (serve p names fuel w') refl
                later)
        | inr (e, over) ↦
            rw
              (
                serve_ended fuel w w' e (done ∙ ap (λ o. (o, w')) over),
                respond_over s (respond_all p qs) over,
              )
              (ap (λ o. some (ending o)) (sym over), refl, refl)
      ]
