-- ===== src/Simulator/Banker/Served.antt =====
-- An interaction of a banker with a bank that answers it.
use dst_demo.Prelude.{◌≡◌, refl, ◌∙◌, ap, arith, true, Option, some, none, List, [], ◌∷◌, ◌++◌, All}
use dst_demo.Prelude.Id.{ℤ, InI32}
use mathlib.Core.Path.{subst}
use mathlib.Core.Option.{some-injective}
use dst_demo.Text.{Text, Bytes}
use dst_demo.Text.Number.{show_ℤ, parse_i32}
use dst_demo.Text.Number.RoundTrip.{parse_i32-show}
use dst_demo.Outcome.{Outcome, ok, err, panic}
use dst_demo.Framing.{Reader}
use dst_demo.Framing.Messages.{IsPlain, frames}
use dst_demo.Transaction.{Transaction}
use dst_demo.Transaction.Display.{show_transaction}
use dst_demo.Transaction.Display.RoundTrip.{Fits, from_str-show}
use dst_demo.Platform.{Platform}
use dst_demo.Platform.Laws.{CentsLaws, AmountLaws}
use dst_demo.Bank
use dst_demo.Bank.{Bank, find}
use dst_demo.Server.Actions.{ActionNames}
use dst_demo.Server.Handlers.{id_prompt, shown_or_not_found}
use dst_demo.Server.Requests
use dst_demo.Server.Requests.{Request, after_call, after_answer, texts, respond}
use dst_demo.Simulator.Checks.{shown_or_not_found-accepts}
use dst_demo.Simulator.BankerPlan.{
  BankerInteractionPlan, Interaction, sleep, list_transactions, get_transaction, create_transaction,
  void_transaction, get_balance,
}
use dst_demo.Simulator.Connection.{TcpStream, open_stream}
use dst_demo.Simulator.Banker.{check_balance, is_ok, interact}
use dst_demo.Simulator.Banker.Asks.{
  Succeeds, ask_transaction-Succeeds, ask_list-Succeeds, ask_create-Succeeds, ask_void-Succeeds,
  ask_balance-Succeeds,
}
use dst_demo.Simulator.Connection.Groups.{Brings}
use dst_demo.Simulator.Banker.Requests.{request, IsAnswered}
use dst_demo.Simulator.Banker.Checked.{
  show_transaction-IsPlain, lines-IsPlain, show_amount-IsPlain, check_reply-passes,
}

module _ {D : Type 0} (p : Platform D) (names : ActionNames) (cents : CentsLaws p)
    (amounts : AmountLaws p cents) where
  -- What is to show for an interaction that is a given request.
  abbrev Satisfies : BankerInteractionPlan D → Interaction D → Bank D → Request → Type 0
  Satisfies plan i b q =
      (after r : Reader) (c : Bytes)
      → Brings (respond p q b).replies after r
      → Succeeds p names (interact p names plan i (open_stream r c)) c (texts names q)

  shown_or_not_found-IsPlain : (o : Option (Transaction D)) → IsPlain (shown_or_not_found p o)
  shown_or_not_found-IsPlain none = (omega arith, ground arith)
  shown_or_not_found-IsPlain (some t) = show_transaction-IsPlain p cents t

  cents-parsed : (amount : D) → check_balance p (some (p.show_amount amount)) ≡ true
  cents-parsed amount = let (a, e) = amounts.reads amount in rw (check_balance, e) refl

  transaction-Satisfies :
      (plan : BankerInteractionPlan D) (id : ℤ) (b : Bank D)
      → All Fits b.transactions
      → InI32 id
      → Satisfies plan (get_transaction id) b (Requests.get (show_ℤ id))
  unfolding interact respond texts Bank.get_transaction
  transaction-Satisfies plan id b fits h after r c = rw (parse_i32-show id h) (
      ask_transaction-Succeeds p names id (shown_or_not_found p (find id b.transactions)) after r c
        (shown_or_not_found-IsPlain _) (shown_or_not_found-accepts p cents id _ fits))

  create-Satisfies :
      (plan : BankerInteractionPlan D) (amount a : D) (t : Transaction D) (b b' : Bank D)
      → p.parse_amount (p.show_amount amount) ≡ some a
      → Bank.create_transaction p a b ≡ (ok t, b')
      → Fits t
      → Satisfies plan (create_transaction amount) b (Requests.create (p.show_amount amount))
  unfolding interact respond texts
  create-Satisfies plan amount a t b b' parsed created fits after r c =
      rw (parsed, created)
        (ask_create-Succeeds p names amount (show_transaction p t) after r c
          (show_transaction-IsPlain p cents t) (ap (is_ok p) (from_str-show p cents t fits)))

  balance-Satisfies :
      (plan : BankerInteractionPlan D) (b : Bank D) → Satisfies plan get_balance b Requests.balance
  unfolding interact respond texts
  balance-Satisfies plan b after r c =
      let (ascii, free) = show_amount-IsPlain p cents amounts b.balance in
      ask_balance-Succeeds p names (p.show_amount b.balance) after r c
        ((omega arith, ascii), (ground arith, free)) (cents-parsed b.balance)

  list-Satisfies :
      (plan : BankerInteractionPlan D) (b : Bank D)
      → All Fits b.transactions
      → IsAnswered p plan list_transactions b
      → Satisfies plan list_transactions b Requests.list
  unfolding interact respond texts IsAnswered
  list-Satisfies plan b fits recorded after r c =
      ask_list-Succeeds p names plan _ after r c (lines-IsPlain p cents b.transactions)
        (λ s. check_reply-passes p cents amounts _ b.transactions s fits recorded)

  call_replies :
      (o : Outcome Bank.Error (Option (Transaction D)) × Bank D)
      → (replies : List Text) × ((after_call p id_prompt (shown_or_not_found p) o).replies
          ≡ id_prompt ∷ replies)
  call_replies (ok found, b) = (shown_or_not_found p found ∷ [], refl)
  call_replies (err e, b) = ([], refl)
  call_replies (panic, b) = ([], refl)

  void_replies :
      (answer : Option ℤ) (b : Bank D)
      → (replies : List Text) × ((after_answer p id_prompt
            (shown_or_not_found p)
            (Bank.void_transaction p)
            answer
            b).replies
          ≡ id_prompt ∷ replies)
  void_replies none b = ([], refl)
  void_replies (some id) b = call_replies (Bank.void_transaction p id b)

  void-Satisfies :
      (plan : BankerInteractionPlan D) (id : ℤ) (b : Bank D)
      → Satisfies plan (void_transaction id) b (Requests.void (show_ℤ id))
  unfolding interact respond texts
  void-Satisfies plan id b after r c brings =
      let (replies, e) = void_replies (parse_i32 (show_ℤ id)) b in
      ask_void-Succeeds p names id replies after r c (subst (λ ms. Brings ms after r) e brings)

  pub interaction-Satisfies :
      (plan : BankerInteractionPlan D) (i : Interaction D) (q : Request) (b : Bank D)
      → request p i ≡ some q
      → All Fits b.transactions
      → IsAnswered p plan i b
      → Satisfies plan i b q
  unfolding request IsAnswered
  interaction-Satisfies plan (sleep _) q b e fits h = absurd (ground arith)
  interaction-Satisfies plan list_transactions q b e fits h =
      subst (Satisfies plan list_transactions b) (some-injective _ _ e)
        (list-Satisfies plan b fits h)
  interaction-Satisfies plan (get_transaction id) q b e fits h =
      subst (Satisfies plan (get_transaction id) b) (some-injective _ _ e)
        (transaction-Satisfies plan id b fits h)
  interaction-Satisfies plan (create_transaction amount) q b e fits
        (a, t, b', parsed, created, ok_t) =
      subst (Satisfies plan (create_transaction amount) b) (some-injective _ _ e)
        (create-Satisfies plan amount a t b b' parsed created ok_t)
  interaction-Satisfies plan (void_transaction id) q b e fits h =
      subst (Satisfies plan (void_transaction id) b) (some-injective _ _ e)
        (void-Satisfies plan id b)
  interaction-Satisfies plan get_balance q b e fits h =
      subst (Satisfies plan get_balance b) (some-injective _ _ e) (balance-Satisfies plan b)

  -- A banker's interaction, other than a sleep, with the bank: if each reply that the server has
  -- for it comes in chunks of its own, all writes succeed, the transactions of the log fit their
  -- machine integers, and amounts are shown, in full and with two places, as ASCII words that are
  -- read back, and with two places as before they were rounded; if for a list the log holds, in
  -- their order, the amounts that the plan has had created, for a creation the bank returned a
  -- transaction that fits, and for a lookup the identifier fits; then no assertion fails, the call
  -- returns true, and what it has written is exactly the request of the protocol.
  pub interact-Succeeds :
      (plan : BankerInteractionPlan D) (i : Interaction D) (q : Request) (b : Bank D)
      (after : Reader) (s : TcpStream)
      → request p i ≡ some q
      → All Fits b.transactions
      → IsAnswered p plan i b
      → Brings (respond p q b).replies after s.reader
      → s.writer.fates ≡ []
      → (r : Reader) × (interact p names plan i s
          ≡ (ok tt, open_stream r (s.writer.content ++ frames (texts names q))))
  interact-Succeeds plan i q b after s e fits answered brings steady =
      let (r, done) =
        interaction-Satisfies plan i q b e fits answered after s.reader s.writer.content brings in
      (
        r,
        ap (λ f. interact p names plan i (record s { writer = record s.writer { fates = f } }))
              steady
            ∙ done,
      )
