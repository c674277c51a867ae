-- ===== src/Server/Rounds.antt =====
-- One round of the loop, for each request.
use dst_demo.Prelude.{
  ◌≡◌, refl, sym, ◌∙◌, ap, arith, Option, none, some, [], ◌∷◌, ◌++◌, All, append_assoc, append-nil,
  All-append,
}
use dst_demo.Text.{Text, Bytes}
use dst_demo.Text.Number.{parse_i32}
use dst_demo.Text.Utf8.RoundTrip.{IsAscii}
use dst_demo.Outcome.{Outcome, ok, err, panic, ◌>>=◌, ◌>>◌, or_throw}
use dst_demo.Framing.{Reader, frame}
use dst_demo.Framing.Chunks.{stream}
use dst_demo.Framing.Messages.{IsPlain, frame-plain, frames}
use dst_demo.Platform.{Platform}
use dst_demo.Bank
use dst_demo.Bank.{BankAction}
use dst_demo.Transaction.Display.{show_transaction}
use dst_demo.Server.{crashed, closed, round, received, obey, perform}
use dst_demo.Server.Actions.{ServerAction, ActionNames, NameLaws}
use dst_demo.Server.Task.{World, Error, decimal, parse_int, io, on_bank, read, write}
use dst_demo.Server.Handlers.{
  list_transactions, get_transaction, create_transaction, void_transaction, health, get_balance,
  handle, id_prompt, amount_prompt, shown_or_not_found,
}
use dst_demo.Server.Replies.{incoming, moved, write-moved, read-moved}
use dst_demo.Server.Requests.{
  Request, get, create, void, unknown, texts, IsRequest, respond, after_answer,
}
use dst_demo.Server.Answers.{settle, Follows, prompted-Follows}

module _ {D : Type 0} (p : Platform D) (names : ActionNames) where
  frame-IsAscii : (m : Text) → IsPlain m → All IsAscii (frame m)
  frame-IsAscii m h = rw (frame-plain m h.0) (All-append IsAscii m (0 ∷ []) h.0 (omega arith, tt))

  -- The loop has read a message and acts on it.
  round-obeys :
      (n : Text) (more : Bytes) (w : World D)
      → IsPlain n
      → All IsAscii more
      → incoming w ≡ frame n ++ more
      → (buffer : Text) × (r : Reader) × (round p names w
          ≡ obey p names (names.from_str n) (record w { message = buffer; reader = r }))
        × (buffer ++ stream r ≡ more)
  unfolding round
  round-obeys n more w plain a e =
      let (buffer, r, done, left) = read-moved n more w plain a e in
      (buffer, r, ap (received p names) done, left)

  -- The loop has read the name of an action.
  round-performs :
      (action : ServerAction) (more : Bytes) (w : World D)
      → NameLaws names
      → All IsAscii more
      → incoming w ≡ frame (names.as_ref action) ++ more
      → (buffer : Text) × (r : Reader) × (round p names w
          ≡ perform p names action (record w { message = buffer; reader = r }))
        × (buffer ++ stream r ≡ more)
  round-performs action more w laws a e =
      let (buffer, r, done, left) =
        round-obeys (names.as_ref action) more w (laws.plain action) a e in
      let v = record w { message = buffer; reader = r } in
      (buffer, r, done ∙ ap (λ o. obey p names o v) (laws.reads action), left)

  settle_lem :
      (o : Outcome Error (Unit {0}) × World D)
      → (elim o.0 [ ok _ ↦ none | err _ ↦ none | panic ↦ some crashed ], o.1) ≡ settle p o
  settle_lem (ok u, w) = refl
  settle_lem (err e, w) = refl
  settle_lem (panic, w) = refl

  quiet :
      (w : World D) (buffer : Text) (r : Reader)
      → w.writer.fates ≡ []
      → record w { message = buffer; reader = r } ≡ moved w [] buffer r w.bank
  quiet w buffer r h =
      let v = record w { message = buffer; reader = r } in
      ap (λ c. record v { writer = record { content = c; fates = w.writer.fates } })
        (sym (append-nil w.writer.content))
      ∙ ap (λ f. record v { writer = record { content = w.writer.content ++ []; fates = f } }) h

  -- An action that only writes.
  said :
      (m : Text) (w : World D) (buffer : Text) (r : Reader)
      → w.writer.fates ≡ []
      → settle p (write m (record w { message = buffer; reader = r }))
        ≡ (none, moved w (frames (m ∷ [])) buffer r w.bank)
  unfolding frames
  said m w buffer r h =
      ap (settle p) (write-moved m (record w { message = buffer; reader = r }) h) ∙ simp append-nil

  -- The name of an action and the answer to its prompt.
  prompts :
      {A B : Type 0} (prompt : Text) (e : Error) (parse : Text → Option A) (show : B → Text)
      (call : A → BankAction D B) (action : ServerAction) (m : Text) (rest : Bytes) (w : World D)
      → NameLaws names
      → IsPlain m
      → w.writer.fates ≡ []
      → All IsAscii rest
      → incoming w ≡ frames (names.as_ref action ∷ m ∷ []) ++ rest
      → ((v : World D)
          → perform p names action v
            ≡ settle p (
                (write prompt
                    >> (read >>= λ m. or_throw io m >>= λ m.
                        or_throw e (parse m) >>= λ a. on_bank (call a) >>= λ b. write (show b)))
                  v))
      → Follows p w rest (round p names w) (after_answer p prompt show call (parse m) w.bank)
  unfolding frames
  prompts prompt e parse show call action m rest w laws plain h a i same =
      let more : All IsAscii (frame m ++ rest) =
        All-append IsAscii (frame m) rest (frame-IsAscii m plain) a in
      let (buffer, r, done, left) =
        round-performs action (frame m ++ rest) w laws more (i ∙ simp (append_assoc, append-nil)) in
      let v = record w { message = buffer; reader = r } in
      let (buffer', r', answered, left') =
        prompted-Follows p prompt e parse show call m rest v h plain a left in
      (buffer', r', done ∙ (same v ∙ answered), left')

  pub round-Follows :
      (q : Request) (rest : Bytes) (w : World D)
      → NameLaws names
      → IsRequest names q
      → w.writer.fates ≡ []
      → All IsAscii rest
      → incoming w ≡ frames (texts names q) ++ rest
      → Follows p w rest (round p names w) (respond p q w.bank)
  unfolding texts frames IsRequest respond perform handle list_transactions get_transaction
      create_transaction void_transaction health get_balance on_bank write Bank.list_transactions
      Bank.get_balance
  round-Follows Request.health rest w laws q h a e =
      let (buffer, r, done, left) =
        round-performs ServerAction.health rest w laws a (e ∙ simp append-nil) in
      (buffer, r, done ∙ (settle_lem _ ∙ said _ w buffer r h), left)
  round-Follows Request.list rest w laws q h a e =
      let (buffer, r, done, left) =
        round-performs ServerAction.list_transactions rest w laws a (e ∙ simp append-nil) in
      (buffer, r, done ∙ (settle_lem _ ∙ said _ w buffer r h), left)
  round-Follows Request.balance rest w laws q h a e =
      let (buffer, r, done, left) =
        round-performs ServerAction.get_balance rest w laws a (e ∙ simp append-nil) in
      (buffer, r, done ∙ (settle_lem _ ∙ said _ w buffer r h), left)
  round-Follows Request.close rest w laws q h a e =
      let (buffer, r, done, left) =
        round-performs ServerAction.close rest w laws a (e ∙ simp append-nil) in
      (buffer, r, done ∙ ap (λ v. (some closed, v)) (quiet w buffer r h), left)
  round-Follows (unknown m) rest w laws (plain, nameless) h a e =
      let (buffer, r, done, left) = round-obeys m rest w plain a (e ∙ simp append-nil) in
      let v = record w { message = buffer; reader = r } in
      (
        buffer,
        r,
        done ∙ (ap (λ o. obey p names o v) nameless ∙ ap (λ v. (none, v)) (quiet w buffer r h)),
        left,
      )
  round-Follows (get m) rest w laws plain h a e =
      prompts id_prompt parse_int parse_i32 (shown_or_not_found p) Bank.get_transaction
        ServerAction.get_transaction m rest w laws plain h a e λ v. settle_lem _
  round-Follows (create m) rest w laws plain h a e =
      prompts amount_prompt decimal p.parse_amount (show_transaction p) (Bank.create_transaction p)
        ServerAction.create_transaction m rest w laws plain h a e λ v. settle_lem _
  round-Follows (void m) rest w laws plain h a e =
      prompts id_prompt parse_int parse_i32 (shown_or_not_found p) (Bank.void_transaction p)
        ServerAction.void_transaction m rest w laws plain h a e λ v. settle_lem _
