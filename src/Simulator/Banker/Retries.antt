-- ===== src/Simulator/Banker/Retries.antt =====
-- `perform_interaction`: an interaction is tried on new connections until one call returns true.
use dst_demo.Prelude.{
  ℕ, ◌≡◌, inl, inr, refl, sym, ◌∙◌, arith, some, List, [], ◌∷◌, ◌++◌, All, take, length,
}
use mathlib.Core.Path.{subst}
use dst_demo.Text.{Bytes, codes, text_eq, strip_prefix}
use dst_demo.Text.Number.{show_ℤ}
use dst_demo.Text.Utf8.RoundTrip.{IsAscii}
use dst_demo.Outcome.{Fate, broken, ◌>>=◌, ◌>>◌, assert}
use dst_demo.Framing.{Reader}
use dst_demo.Framing.Chunks.{NulFree, stream}
use dst_demo.Framing.Messages.{frames}
use dst_demo.Transaction.Display.{from_str}
use dst_demo.Transaction.Display.RoundTrip.{Fits}
use dst_demo.Platform.{Platform}
use dst_demo.Platform.Laws.{CentsLaws, AmountLaws}
use dst_demo.Bank.{Bank}
use dst_demo.Server.Actions.{ActionNames}
use dst_demo.Server.Requests.{Request, texts, respond}
use dst_demo.Server.Handlers.{id_prompt, amount_prompt}
use dst_demo.Simulator.Checks.{accepts_transaction}
use dst_demo.Simulator.BankerPlan.{
  BankerInteractionPlan, Interaction, sleep, list_transactions, get_transaction, create_transaction,
  void_transaction, get_balance,
}
use dst_demo.Simulator.Connection.{
  TcpStream, send_message, receive, Attempt, connected, Performed, finished, attempt, IsLost,
  connections, open_stream,
}
use dst_demo.Simulator.Connection.Lost.{Fails, unanswered, attempt-lost}
use dst_demo.Simulator.Banker.{
  is_ok, check_reply, created_amounts, send_action, check_balance, ask_transaction, ask_list,
  ask_create, ask_void, ask_balance, interact,
}
use dst_demo.Simulator.Connection.Groups.{Brings}
use dst_demo.Simulator.Banker.Requests.{request, IsAnswered}
use dst_demo.Simulator.Banker.Served.{interact-Succeeds}

module _ {D : Type 0} (p : Platform D) (names : ActionNames) where
  unfoldable pub perform_interaction :
      BankerInteractionPlan D → Interaction D → List Attempt → Performed
  perform_interaction plan (sleep _) attempts = (finished, [])
  perform_interaction plan list_transactions attempts =
      attempt (interact p names plan list_transactions) attempts
  perform_interaction plan (get_transaction id) attempts =
      attempt (interact p names plan (get_transaction id)) attempts
  perform_interaction plan (create_transaction amount) attempts =
      attempt (interact p names plan (create_transaction amount)) attempts
  perform_interaction plan (void_transaction id) attempts =
      attempt (interact p names plan (void_transaction id)) attempts
  perform_interaction plan get_balance attempts =
      attempt (interact p names plan get_balance) attempts

  -- With a first write that fails.
  unsent :
      (plan : BankerInteractionPlan D) (i : Interaction D) (q : Request) (r : Reader) (c : Bytes)
      (n : ℕ) (later : List Fate)
      → request p i ≡ some q
      → Fails (
          interact p names plan i
            (record { reader = r; writer = record { content = c; fates = broken n ∷ later } }))
  unfolding request interact ask_list ask_transaction ask_create ask_void ask_balance send_action
      send_message
  unsent plan (sleep _) q r c n later e = absurd (ground arith)
  unsent plan list_transactions q r c n later e = (_, refl)
  unsent plan (get_transaction id) q r c n later e = (_, refl)
  unsent plan (create_transaction amount) q r c n later e = (_, refl)
  unsent plan (void_transaction id) q r c n later e = (_, refl)
  unsent plan get_balance q r c n later e = (_, refl)

  -- With a stream that ends too soon.
  unserved :
      (plan : BankerInteractionPlan D) (i : Interaction D) (q : Request) (r : Reader) (c : Bytes)
      → request p i ≡ some q
      → NulFree (stream r)
      → All IsAscii (stream r)
      → Fails (interact p names plan i (open_stream r c))
  unfolding request interact ask_list ask_transaction ask_create ask_void ask_balance send_action
      send_message
  unserved plan (sleep _) q r c e free ascii = absurd (ground arith)
  unserved plan list_transactions q r c e free ascii =
      unanswered (check_reply p (created_amounts (take plan.step plan.plan))) r _ free ascii
  unserved plan (get_transaction id) q r c e free ascii =
      unanswered
        (λ m.
          assert (text_eq m id_prompt)
          >> (send_message (show_ℤ id) >> (receive >>= λ m. assert (accepts_transaction p id m))))
        r _ free ascii
  unserved plan (create_transaction amount) q r c e free ascii =
      unanswered
        (λ m.
          assert (text_eq m amount_prompt) >> (receive >>= λ m. assert (is_ok p (from_str p m))))
        r _ free ascii
  unserved plan (void_transaction id) q r c e free ascii =
      unanswered (λ m. assert (text_eq m id_prompt)) r _ free ascii
  unserved plan get_balance q r c e free ascii =
      unanswered (λ m. assert (check_balance p (strip_prefix (codes "$") m))) r _ free ascii

  lost-Fails :
      (plan : BankerInteractionPlan D) (i : Interaction D) (q : Request) (s : TcpStream)
      → request p i ≡ some q
      → IsLost (connected s)
      → Fails (interact p names plan i s)
  lost-Fails plan i q s e (inl (n, later, fate)) =
      subst
        (λ f. Fails (interact p names plan i (record s { writer = record s.writer { fates = f } })))
        (sym fate) (unsent plan i q s.reader s.writer.content n later e)
  lost-Fails plan i q s e (inr (fate, free, ascii)) =
      subst
        (λ f. Fails (interact p names plan i (record s { writer = record s.writer { fates = f } })))
        (sym fate) (unserved plan i q s.reader s.writer.content e free ascii)

  performs :
      (plan : BankerInteractionPlan D) (i : Interaction D) (q : Request) (attempts : List Attempt)
      → request p i ≡ some q
      → perform_interaction plan i attempts ≡ attempt (interact p names plan i) attempts
  unfolding request perform_interaction
  performs plan (sleep _) q attempts e = absurd (ground arith)
  performs plan list_transactions q attempts e = refl
  performs plan (get_transaction id) q attempts e = refl
  performs plan (create_transaction amount) q attempts e = refl
  performs plan (void_transaction id) q attempts e = refl
  performs plan get_balance q attempts e = refl

  -- An interaction that is a request is tried again after every attempt to connect that is refused,
  -- whose first write fails, or whose stream ends before a message is whole. It is finished with
  -- the first attempt on which each reply that the protocol has for it comes in chunks of its own
  -- and all writes succeed, if the transactions of the log fit their machine integers; amounts are
  -- shown, in full and with two places, as ASCII words that are read back, and with two places as
  -- before they were rounded; and for a list the log holds, in their order, the amounts that the
  -- plan has had created, for a creation the bank returned a transaction that fits, and for a
  -- lookup the identifier fits. One connection was used for each earlier attempt that connected,
  -- none after, and the last has received exactly the request of the protocol.
  pub perform_interaction-finished :
      (cents : CentsLaws p) (amounts : AmountLaws p cents) (plan : BankerInteractionPlan D)
      (i : Interaction D) (q : Request) (b : Bank D) (after : Reader) (lost more : List Attempt)
      (s : TcpStream)
      → request p i ≡ some q
      → All IsLost lost
      → All Fits b.transactions
      → IsAnswered p plan i b
      → Brings (respond p q b).replies after s.reader
      → s.writer.fates ≡ []
      → (used : List TcpStream) × (r : Reader) × (perform_interaction plan i
            (lost ++ connected s ∷ more)
          ≡ (finished, used ++ open_stream r (s.writer.content ++ frames (texts names q)) ∷ []))
        × (length used ≡ connections lost)
  perform_interaction-finished cents amounts plan i q b after lost more s e h fits answered brings
        steady =
      let (r, done) =
        interact-Succeeds p names cents amounts plan i q b after s e fits answered brings steady in
      let (used, whole, count) =
        attempt-lost (interact p names plan i) lost s _ more (λ l. lost-Fails plan i q l e) h
          done in
      (used, r, performs plan i q _ e ∙ whole, count)
