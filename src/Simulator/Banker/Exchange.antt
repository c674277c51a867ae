-- ===== src/Simulator/Banker/Exchange.antt =====
-- A banker and a task of the server at the two ends of one connection.
use dst_demo.Prelude.{◌≡◌, ◌∙◌, ap, sym, arith, some, [], ◌++◌, All, append-nil}
use mathlib.Core.Path.{subst}
use mathlib.Core.Option.{some-injective}
use dst_demo.Outcome.{Outcome, ok}
use dst_demo.Framing.{Reader}
use dst_demo.Framing.Messages.{frames}
use dst_demo.Transaction.Display.RoundTrip.{Fits}
use dst_demo.Platform.{Platform}
use dst_demo.Platform.Laws.{CentsLaws, AmountLaws}
use dst_demo.Server.{round}
use dst_demo.Server.Actions.{ActionNames, NameLaws}
use dst_demo.Server.Task.{World}
use dst_demo.Server.Replies.{incoming}
use dst_demo.Server.Requests.{Request, texts, IsRequest, respond}
use dst_demo.Server.Rounds.{round-Follows}
use dst_demo.Simulator.BankerPlan.{
  BankerInteractionPlan, Interaction, sleep, list_transactions, get_transaction, create_transaction,
  void_transaction, get_balance,
}
use dst_demo.Simulator.Connection.{TcpStream}
use dst_demo.Simulator.Connection.Groups.{Brings}
use dst_demo.Simulator.Banker.{interact}
use dst_demo.Simulator.Banker.Requests.{request, IsAnswered}
use dst_demo.Simulator.Banker.Checked.{show_ℤ-IsPlain, show_amount-IsPlain}
use dst_demo.Simulator.Banker.Served.{interact-Succeeds}

module _ {D : Type 0} (p : Platform D) (names : ActionNames) (cents : CentsLaws p)
    (amounts : AmountLaws p cents) where
  -- What a banker sends is plain text.
  request-IsRequest : (i : Interaction D) (q : Request) → request p i ≡ some q → IsRequest names q
  unfolding request IsRequest
  request-IsRequest (sleep _) q e = absurd (ground arith)
  request-IsRequest list_transactions q e = subst (IsRequest names) (some-injective _ _ e) tt
  request-IsRequest (get_transaction id) q e =
      subst (IsRequest names) (some-injective _ _ e) (show_ℤ-IsPlain id)
  request-IsRequest (create_transaction amount) q e =
      subst (IsRequest names) (some-injective _ _ e) (show_amount-IsPlain p cents amounts amount)
  request-IsRequest (void_transaction id) q e =
      subst (IsRequest names) (some-injective _ _ e) (show_ℤ-IsPlain id)
  request-IsRequest get_balance q e = subst (IsRequest names) (some-injective _ _ e) tt

  -- The two ends fit together. Let a banker have a fresh connection whose other end is a task of
  -- the server: what the task still reads is what the banker's call writes, in any chunks, and what
  -- the banker reads begins with the replies of the protocol, each in chunks of its own. If all
  -- writes succeed; the names of the actions are plain and are read back; the transactions of the
  -- log fit their machine integers; amounts are shown, in full and with two places, as ASCII words
  -- that are read back, and with two places as before they were rounded; and for a list the log
  -- holds, in their order, the amounts that the plan has had created, for a creation the bank
  -- returned a transaction that fits, and for a lookup the identifier fits; then the banker's call
  -- returns true, and a round of the task ends as the protocol says, writes exactly those replies,
  -- leaves the bank of the protocol and has read all that was sent.
  pub interact-round :
      (plan : BankerInteractionPlan D) (i : Interaction D) (q : Request) (after : Reader)
      (s : TcpStream) (w : World D)
      → NameLaws names
      → request p i ≡ some q
      → All Fits w.bank.transactions
      → IsAnswered p plan i w.bank
      → s.writer.content ≡ []
      → s.writer.fates ≡ []
      → w.writer.fates ≡ []
      → Brings (respond p q w.bank).replies after s.reader
      → incoming w ≡ (interact p names plan i s).1.writer.content
      → ((interact p names plan i s).0 ≡ ok tt)
        × ((round p names w).0 ≡ (respond p q w.bank).ended)
        × ((round p names w).1.writer.content
            ≡ w.writer.content ++ frames (respond p q w.bank).replies)
        × ((round p names w).1.bank ≡ (respond p q w.bank).bank)
        × (incoming (round p names w).1 ≡ [])
  interact-round plan i q after s w laws e fits answered fresh steady steady' brings arrives =
      let (r, done) =
        interact-Succeeds p names cents amounts plan i q w.bank after s e fits answered brings
          steady in
      let sent : (interact p names plan i s).1.writer.content ≡ frames (texts names q) =
        ap (λ (o : Outcome (Unit {0}) (Unit {0}) × TcpStream). o.1.writer.content) done
        ∙ ap (λ c. c ++ frames (texts names q)) fresh in
      let (buffer, r', follows, left) =
        round-Follows p names q [] w laws (request-IsRequest i q e) steady' tt
          (arrives ∙ (sent ∙ sym (append-nil (frames (texts names q))))) in
      (
        ap (λ (o : Outcome (Unit {0}) (Unit {0}) × TcpStream). o.0) done,
        ap (λ o. o.0) follows,
        ap (λ o. o.1.writer.content) follows,
        ap (λ o. o.1.bank) follows,
        ap (λ o. incoming o.1) follows ∙ left,
      )
