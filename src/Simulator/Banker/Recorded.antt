-- ===== src/Simulator/Banker/Recorded.antt =====
-- Why the bank's log holds what a banker looks for in it.
use dst_demo.Prelude.{
  suc, ◌<◌, ◌≡◌, refl, sym, ◌∙◌, ap, arith, Option, some, none, List, [], ◌∷◌, ◌++◌, All,
  append-nil, map, map-append, take, take-suc, Sublist-append_right, Sublist-snoc, get_elem?,
  Sublist,
}
use mathlib.Core.Path.{subst}
use mathlib.Core.Option.{some-injective}
use dst_demo.Outcome.{ok}
use dst_demo.Transaction.{Transaction}
use dst_demo.Platform.{Platform}
use dst_demo.Bank
use dst_demo.Bank.{Bank}
use dst_demo.Bank.Create.{create_transaction-Created}
use dst_demo.Bank.Serves.{Serves}
use dst_demo.Bank.Sound.{Linked, IsSound, run-IsSound}
use dst_demo.Simulator.Plan.{next, advance}
use dst_demo.Simulator.BankerPlan.{
  BankerInteractionPlan, step, Interaction, sleep, list_transactions, get_transaction,
  create_transaction, void_transaction, get_balance,
}
use dst_demo.Simulator.Banker.{created_amounts}

module _ {D : Type 0} where
  created_amounts-append :
      (is js : List (Interaction D))
      → created_amounts (is ++ js) ≡ created_amounts is ++ created_amounts js
  unfolding created_amounts
  created_amounts-append [] js = refl
  created_amounts-append (create_transaction a ∷ is) js =
      ap (λ r. a ∷ r) (created_amounts-append is js)
  created_amounts-append (sleep _ ∷ is) js = created_amounts-append is js
  created_amounts-append (list_transactions ∷ is) js = created_amounts-append is js
  created_amounts-append (get_transaction _ ∷ is) js = created_amounts-append is js
  created_amounts-append (void_transaction _ ∷ is) js = created_amounts-append is js
  created_amounts-append (get_balance ∷ is) js = created_amounts-append is js

  abbrev pub amounts : Bank D → List D
  amounts b = map (λ t. t.amount) b.transactions

  -- The log holds, in their order, the amounts that the plan has had created.
  abbrev pub IsRecorded : BankerInteractionPlan D → Bank D → Type 0
  IsRecorded plan b = Sublist (created_amounts (take plan.step plan.plan)) (amounts b)

module _ {D : Type 0} (p : Platform D) where
  -- What has happened to the bank while an interaction was performed: a creation has returned, and
  -- otherwise there were any calls.
  unfoldable pub IsPerformed : Interaction D → Bank D → Bank D → Type 0
  IsPerformed (create_transaction amount) b b' =
      (t : Transaction D) × (Bank.create_transaction p amount b ≡ (ok t, b'))
  IsPerformed (sleep _) b b' = Serves p b b'
  IsPerformed list_transactions b b' = Serves p b b'
  IsPerformed (get_transaction _) b b' = Serves p b b'
  IsPerformed (void_transaction _) b b' = Serves p b b'
  IsPerformed get_balance b b' = Serves p b b'

  abbrev pub IsSoundLog : Bank D → Type 0
  IsSoundLog b = Linked p b.transactions × All (λ t. 0 < t.created_at) b.transactions

  pub served : (b b' : Bank D) → Serves p b b' → IsSoundLog b → IsSound p b b'
  unfolding Serves
  served b b' (cs, e) (linked, dated) =
      subst (IsSound p b) (sym e) (run-IsSound p cs b linked dated)

  pub grown :
      (wanted : List D) (b b' : Bank D)
      → Serves p b b'
      → IsSoundLog b
      → Sublist wanted (amounts b)
      → Sublist wanted (amounts b')
  grown wanted b b' serves log h =
      let sound = served b b' serves log in
      subst (Sublist wanted)
        (sym (
          ap (map (λ (t : Transaction D). t.amount)) sound.log
          ∙ map-append (λ (t : Transaction D). t.amount) b.transactions sound.added))
        (Sublist-append_right wanted (amounts b) _ h)

  kept :
      (wanted : List D) (b b' : Bank D)
      → Serves p b b'
      → IsSoundLog b
      → Sublist wanted (amounts b)
      → Sublist (wanted ++ []) (amounts b')
  kept wanted b b' serves log h =
      subst (λ xs. Sublist xs (amounts b')) (sym (append-nil wanted))
        (grown wanted b b' serves log h)

  created :
      (wanted : List D) (amount : D) (b b' : Bank D) (t : Transaction D)
      → Bank.create_transaction p amount b ≡ (ok t, b')
      → Sublist wanted (amounts b)
      → Sublist (wanted ++ amount ∷ []) (amounts b')
  created wanted amount b b' t e h =
      let c = create_transaction-Created p amount b t b' e in
      let whole : amounts b' ≡ amounts b ++ amount ∷ [] =
        ap (map (λ (t : Transaction D). t.amount)) c.pushed
        ∙ map-append (λ (t : Transaction D). t.amount) b.transactions (t ∷ [])
        ∙ ap (λ a. amounts b ++ a ∷ []) c.value in
      subst (Sublist (wanted ++ amount ∷ [])) (sym whole) (Sublist-snoc wanted (amounts b) amount h)

  performed-Sublist :
      (i : Interaction D) (wanted : List D) (b b' : Bank D)
      → IsPerformed i b b'
      → IsSoundLog b
      → Sublist wanted (amounts b)
      → Sublist (wanted ++ created_amounts (i ∷ [])) (amounts b')
  unfolding IsPerformed created_amounts
  performed-Sublist (create_transaction amount) wanted b b' (t, e) log h =
      created wanted amount b b' t e h
  performed-Sublist (sleep _) wanted b b' done log h = kept wanted b b' done log h
  performed-Sublist list_transactions wanted b b' done log h = kept wanted b b' done log h
  performed-Sublist (get_transaction _) wanted b b' done log h = kept wanted b b' done log h
  performed-Sublist (void_transaction _) wanted b b' done log h = kept wanted b b' done log h
  performed-Sublist get_balance wanted b b' done log h = kept wanted b b' done log h

  pub stepped :
      (i : Interaction D) (plan plan' : BankerInteractionPlan D) (o : Option (Interaction D))
      → get_elem? plan.plan plan.step ≡ o
      → advance o plan ≡ (some i, plan')
      → take plan'.step plan'.plan ≡ take plan.step plan.plan ++ i ∷ []
  stepped i plan plan' none at e = absurd (ground arith)
  stepped i plan plan' (some j) at e =
      let same : j ≡ i =
        some-injective _ _ (ap (λ (r : Option (Interaction D) × BankerInteractionPlan D). r.0) e) in
      let moved : record plan { step = suc plan.step } ≡ plan' =
        ap (λ (r : Option (Interaction D) × BankerInteractionPlan D). r.1) e in
      subst
        (λ (v : BankerInteractionPlan D). take v.step v.plan ≡ take plan.step plan.plan ++ i ∷ [])
        moved (take-suc plan.step plan.plan i (at ∙ ap some same))

  -- The log keeps up with a banker's plan: if it holds, in their order, the amounts that the plan has
  -- had created, and is linked and dated, then it does so again after the plan's next interaction,
  -- whatever calls of other clients come before it, where a creation of the banker has
  -- returned for exactly its amount, and any other interaction comes with any calls of the bank.
  pub step-IsRecorded :
      (i : Interaction D) (plan plan' : BankerInteractionPlan D) (b b₁ b₂ : Bank D)
      → IsRecorded plan b
      → Linked p b.transactions
      → All (λ t. 0 < t.created_at) b.transactions
      → step plan ≡ (some i, plan')
      → Serves p b b₁
      → IsPerformed i b₁ b₂
      → IsRecorded plan' b₂
  unfolding next
  step-IsRecorded i plan plan' b b₁ b₂ h linked dated e meanwhile done =
      let wanted = created_amounts (take plan.step plan.plan) in
      let sound = served b b₁ meanwhile (linked, dated) in
      subst (λ is. Sublist (created_amounts is) (amounts b₂))
        (sym (stepped i plan plan' (get_elem? plan.plan plan.step) refl e))
        (subst (λ xs. Sublist xs (amounts b₂))
          (sym (created_amounts-append (take plan.step plan.plan) (i ∷ [])))
          (performed-Sublist i wanted b₁ b₂ done (sound.linked, sound.dated)
            (grown wanted b b₁ meanwhile (linked, dated) h)))
