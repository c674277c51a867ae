-- ===== src/Bank/Ends.antt =====
-- How a call of `create_transaction` of `server/src/bank.rs` ends at a bank that its file holds.
use dst_demo.Prelude.{◌≡◌, ◌≢◌, refl, ◌∙◌, ap, arith, some, none, [], inl, inr, ◌⊎◌, Option-cases}
use dst_demo.Prelude.Id.{add_one}
use dst_demo.Text.{Text}
use dst_demo.Outcome.{Outcome, ok, err, panic}
use dst_demo.Outcome.Laws.{>>=-err}
use dst_demo.Transaction.{Transaction}
use dst_demo.Platform.{Platform}
use dst_demo.Platform.Laws.{ClockLaws, TotalLaws}
use dst_demo.Bank.{
  Bank, Error, stamp, persist, prepare_transaction, record_transaction, create_transaction,
}
use dst_demo.Bank.Create.{Created, create_transaction-Created}
use dst_demo.Bank.Success.{created, create_transaction-created}
use dst_demo.Bank.CurrentId.{create_transaction_overflow}
use dst_demo.Bank.Torn.{no_error_at_end, prepare_transaction_error}
use dst_demo.Bank.Healthy.{IsHealthy, healthy-Ready, created-IsHealthy}

module _ {D : Type 0} (p : Platform D) (clock : ClockLaws p) (total : TotalLaws p) where
  persist_no_error :
      (t : Transaction D) (line : Text) (e : Error) (s s' : Bank D)
      → s.file.fates ≡ []
      → p.to_json t ≡ some line
      → persist p t s ≢ (err e, s')
  unfolding persist
  persist_no_error t line e s s' h json failed = ground arith

  -- Writes succeed, and so does the JSON form.
  no_error :
      (amount : D) (e : Error) (b b' : Bank D)
      → IsHealthy p clock total b
      → create_transaction p amount b ≢ (err e, b')
  unfolding create_transaction
  no_error amount e b b' h failed =
      elim (>>=-err (prepare_transaction p amount) (record_transaction p) b failed) [
        | inr (t, b₁, _, rest) ↦ no_error_at_end p t e b₁ b' rest
        | inl before ↦
            let (_, n, s, _, same, wrote) = prepare_transaction_error p amount e b b' before in
            let t = stamp p amount b.current_id n in
            let (line, json) = total.serializes t in
            persist_no_error t line e s b' (ap (λ f. f.fates) same ∙ h.steady) json wrote
      ]

  -- A call whose sum overflows: it neither returns nor fails.
  panics :
      (amount : D) (b : Bank D) (o : Outcome Error (Transaction D) × Bank D)
      → create_transaction p amount b ≡ o
      → IsHealthy p clock total b
      → p.add b.balance amount ≡ none
      → o.0 ≡ panic
  panics amount b (ok t, b') e h over =
      let done = create_transaction-Created p amount b t b' e in
      absurd (ground (arith, done.balance))
  panics amount b (err x, b') e h over = absurd (no_error amount x b b' h e)
  panics amount b (panic, b') e h over = refl

  -- The call returns, and has done what it should; or it panics, since the identifier cannot be
  -- incremented or the sum of the balance overflows.
  abbrev pub Ends : D → Bank D → Type 0
  Ends amount b =
      ((t : Transaction D) × (b' : Bank D) × (create_transaction p amount b ≡ (ok t, b'))
        × Created p amount b t b'
        × IsHealthy p clock total b')
      ⊎ (((create_transaction p amount b).0 ≡ panic)
          × ((add_one p.overflow_checks b.current_id ≡ none) ⊎ (p.add b.balance amount ≡ none)))

  -- At a bank that its file holds, whose log is not later than the clock: a call of
  -- `create_transaction` never fails with an error. Either it returns, has stamped its entry with
  -- the next identifier, the clock and the amount, written its line and moved the balance and the
  -- log, and leaves a bank that its file holds again, whose log is not later than the clock; or it
  -- panics, and then the identifier could not be incremented or the sum of the balance overflowed.
  -- Writes succeed, every transaction has a JSON form, and the clock is after the epoch and never
  -- goes backwards.
  pub create_transaction-Ends :
      (amount : D) (b : Bank D) → IsHealthy p clock total b → Ends amount b
  create_transaction-Ends amount b h =
      elim (Option-cases (add_one p.overflow_checks b.current_id)) [
        | inl over ↦ inr (ap (λ o. o.0) (create_transaction_overflow p amount b over), inl over)
        | inr (next, counts) ↦ elim (Option-cases (p.add b.balance amount)) [
          | inl over ↦ inr (panics amount b (create_transaction p amount b) refl h over, inr over)
          | inr (sum, adds) ↦
              let r = healthy-Ready p clock total amount b next sum h counts adds in
              let t = stamp p amount b.current_id r.time in
              let b' = created p amount b r in
              let e = create_transaction-created p amount b r in
              inl (
                t,
                b',
                e,
                create_transaction-Created p amount b t b' e,
                created-IsHealthy p clock total amount b r h,
              )
        ]
      ]
