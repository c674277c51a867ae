-- ===== src/Simulator/Banker/Asks.antt =====
-- The calls of a banker, each with replies that come one at a time and pass its assertions.
use dst_demo.Prelude.{
  ◌≡◌, refl, ◌∙◌, ap, arith, Bool, true, some, List, [], ◌∷◌, ◌++◌, append_assoc, append-nil, take,
}
use dst_demo.Prelude.Id.{ℤ}
use dst_demo.Text.{Text, Bytes, codes, text_eq, strip_prefix}
use dst_demo.Text.Number.{show_ℤ}
use dst_demo.Outcome.{Outcome, ok, ◌>>=◌, ◌>>◌, assert}
use dst_demo.Framing.{Reader, frame}
use dst_demo.Framing.Messages.{IsPlain, frames}
use dst_demo.Transaction.Display.{from_str}
use dst_demo.Platform.{Platform}
use dst_demo.Server.Actions
use dst_demo.Server.Actions.{ActionNames}
use dst_demo.Server.Handlers.{id_prompt, amount_prompt}
use dst_demo.Simulator.Checks.{accepts_transaction}
use dst_demo.Simulator.BankerPlan.{BankerInteractionPlan}
use dst_demo.Simulator.Banker.{
  created_amounts, check_reply, check_balance, is_ok, ask_transaction, ask_list, ask_create,
  ask_void, ask_balance, send_action,
}
use dst_demo.Simulator.Connection.{TcpStream, send_message, receive, open_stream}
use dst_demo.Simulator.Connection.Groups.{Brings, receives}

passes :
    (b : Bool) (s : TcpStream) → b ≡ true → assert {S = TcpStream} {E = Unit {0}} b s ≡ (ok tt, s)
passes b s h = rw h refl

wrote_two :
    (r : Reader) (c : Bytes) (a b : Text)
    → open_stream r ((c ++ frame a) ++ frame b) ≡ open_stream r (c ++ frames (a ∷ b ∷ []))
unfolding frames
wrote_two r c a b = simp (append_assoc, append-nil)

wrote_one :
    (r : Reader) (c : Bytes) (a : Text)
    → open_stream r (c ++ frame a) ≡ open_stream r (c ++ frames (a ∷ []))
unfolding frames
wrote_one r c a = simp append-nil

module _ {D : Type 0} (p : Platform D) (names : ActionNames) where
  -- A call that returned `true` and wrote these messages.
  abbrev pub Succeeds : Outcome (Unit {0}) (Unit {0}) × TcpStream → Bytes → List Text → Type 0
  Succeeds result c ms = (r : Reader) × (result ≡ (ok tt, open_stream r (c ++ frames ms)))

  pub ask_transaction-Succeeds :
      (id : ℤ) (reply : Text) (after r : Reader) (c : Bytes)
      → IsPlain reply
      → accepts_transaction p id reply ≡ true
      → Brings (id_prompt ∷ reply ∷ []) after r
      → Succeeds
          (ask_transaction p names id (open_stream r c))
          c
          (names.as_ref Actions.get_transaction ∷ show_ℤ id ∷ [])
  unfolding ask_transaction send_action send_message
  ask_transaction-Succeeds id reply after r c plain accepted
        (g, r₁, e, l, s, (g', r₂, e', l', s', _)) =
      (
        r₂,
        receives
              (λ m.
                assert (text_eq m id_prompt)
                >> (send_message (show_ℤ id)
                    >> (receive >>= λ m. assert (accepts_transaction p id m))))
              id_prompt g r₁ r (c ++ frame (names.as_ref Actions.get_transaction))
              (omega arith, ground arith) e l s
            ∙ receives (λ m. assert (accepts_transaction p id m)) reply g' r₂ r₁
                ((c ++ frame (names.as_ref Actions.get_transaction)) ++ frame (show_ℤ id)) plain e'
                l' s'
            ∙ passes _ _ accepted
            ∙ ap (λ v. (ok tt, v)) (wrote_two r₂ c _ _),
      )

  pub ask_list-Succeeds :
      (plan : BankerInteractionPlan D) (reply : Text) (after r : Reader) (c : Bytes)
      → IsPlain reply
      → ((s : TcpStream)
          → check_reply p (created_amounts (take plan.step plan.plan)) reply s ≡ (ok tt, s))
      → Brings (reply ∷ []) after r
      → Succeeds
          (ask_list p names plan (open_stream r c))
          c
          (names.as_ref Actions.list_transactions ∷ [])
  unfolding ask_list send_action send_message
  ask_list-Succeeds plan reply after r c plain checked (g, r₁, e, l, s, _) = (
    r₁,
    receives (check_reply p (created_amounts (take plan.step plan.plan))) reply g r₁ r
          (c ++ frame (names.as_ref Actions.list_transactions)) plain e l s
        ∙ checked _
        ∙ ap (λ v. (ok tt, v)) (wrote_one r₁ c _),
  )

  pub ask_create-Succeeds :
      (amount : D) (reply : Text) (after r : Reader) (c : Bytes)
      → IsPlain reply
      → is_ok p (from_str p reply) ≡ true
      → Brings (amount_prompt ∷ reply ∷ []) after r
      → Succeeds
          (ask_create p names amount (open_stream r c))
          c
          (names.as_ref Actions.create_transaction ∷ p.show_amount amount ∷ [])
  unfolding ask_create send_action send_message
  ask_create-Succeeds amount reply after r c plain accepted
        (g, r₁, e, l, s, (g', r₂, e', l', s', _)) =
      (
        r₂,
        receives
              (λ m.
                assert (text_eq m amount_prompt)
                >> (receive >>= λ m. assert (is_ok p (from_str p m))))
              amount_prompt g r₁ r
              ((c ++ frame (names.as_ref Actions.create_transaction))
                ++ frame (p.show_amount amount))
              (omega arith, ground arith) e l s
            ∙ receives (λ m. assert (is_ok p (from_str p m))) reply g' r₂ r₁
                ((c ++ frame (names.as_ref Actions.create_transaction))
                  ++ frame (p.show_amount amount))
                plain e' l' s'
            ∙ passes _ _ accepted
            ∙ ap (λ v. (ok tt, v)) (wrote_two r₂ c _ _),
      )

  pub ask_void-Succeeds :
      (id : ℤ) (replies : List Text) (after r : Reader) (c : Bytes)
      → Brings (id_prompt ∷ replies) after r
      → Succeeds
          (ask_void p names id (open_stream r c))
          c
          (names.as_ref Actions.void_transaction ∷ show_ℤ id ∷ [])
  unfolding ask_void send_action send_message
  ask_void-Succeeds id replies after r c (g, r₁, e, l, s, _) = (
    r₁,
    receives (λ m. assert (text_eq m id_prompt)) id_prompt g r₁ r
          ((c ++ frame (names.as_ref Actions.void_transaction)) ++ frame (show_ℤ id))
          (omega arith, ground arith) e l s
        ∙ ap (λ v. (ok tt, v)) (wrote_two r₁ c _ _),
  )

  pub ask_balance-Succeeds :
      (shown : Text) (after r : Reader) (c : Bytes)
      → IsPlain (b'$' ∷ shown)
      → check_balance p (some shown) ≡ true
      → Brings ((b'$' ∷ shown) ∷ []) after r
      → Succeeds (ask_balance p names (open_stream r c)) c (names.as_ref Actions.get_balance ∷ [])
  unfolding ask_balance send_action send_message strip_prefix
  ask_balance-Succeeds shown after r c plain accepted (g, r₁, e, l, s, _) = (
    r₁,
    receives (λ m. assert (check_balance p (strip_prefix (codes "$") m))) (b'$' ∷ shown) g r₁ r
          (c ++ frame (names.as_ref Actions.get_balance)) plain e l s
        ∙ passes _ _ accepted
        ∙ ap (λ v. (ok tt, v)) (wrote_one r₁ c _),
  )
