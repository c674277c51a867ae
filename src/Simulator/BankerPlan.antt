-- ===== src/Simulator/BankerPlan.antt =====
-- The plan of a banker: `simulator/src/client/banker/plan.rs`.
pub mod Numbered
pub mod Returns
pub mod Sleeps
use dst_demo.Prelude.{
  ℕ, zero, suc, ◌+◌, ◌<◌, ◌≡◌, refl, sym, ◌∙◌, ap, arith, Bool, Option, none, some, inl, inr, List,
  [], ◌∷◌, ◌++◌, length, get_elem?, length-append, append_assoc, Option-cases,
}
use dst_demo.Prelude.Id.{ℤ, pos, add_one, add_one-eq}
use dst_demo.Transaction.{Transaction}
use dst_demo.Bank.{find}
use dst_demo.Simulator.Plan.{Plan, next}

pub record InteractionPlanContext (D : Type 0) : Type 0 where
  pub curr_id : ℤ
  pub transactions : List (Transaction D)

-- A duration is in milliseconds.
pub data Interaction (D : Type 0) : Type 0 where
  sleep : ℕ → Interaction D
  list_transactions : Interaction D
  get_transaction : ℤ → Interaction D
  create_transaction : D → Interaction D
  void_transaction : ℤ → Interaction D
  get_balance : Interaction D

pub data InteractionType : Type 0 where
  sleep list_transactions get_transaction create_transaction void_transaction get_balance :
      InteractionType

-- The random numbers, which a library makes: what each draw gives, and the generator after it.
-- `choose` is the place of the element that is chosen from a number of them; an amount that is no
-- decimal is `none`.
pub record Random (D G : Type 0) : Type 0 where
  pub interaction_type : G → InteractionType × G
  pub choose : ℕ → G → ℕ × G
  pub gen_id : G → ℤ × G
  pub gen_millis : G → ℕ × G
  pub gen_amount : G → Option D × G

abbrev pub BankerInteractionPlan : Type 0 → Type 0
BankerInteractionPlan D = Plan (InteractionPlanContext D) (Interaction D)

module _ {D : Type 0} where
  abbrev pub new_context : InteractionPlanContext D
  new_context = record { curr_id = pos 1; transactions = [] }

  abbrev pub get_transactions : InteractionPlanContext D → List (Transaction D)
  get_transactions c = c.transactions

  abbrev pub clear : InteractionPlanContext D → InteractionPlanContext D
  clear c = record c { transactions = []; curr_id = pos 1 }

  abbrev pub new : BankerInteractionPlan D
  new = record { context = new_context; step = 0; plan = [] }

  abbrev pub step : BankerInteractionPlan D → Option (Interaction D) × BankerInteractionPlan D
  step = next

  abbrev pub expect_with :
      D → InteractionPlanContext D → Option ℤ → Option (InteractionPlanContext D)
  expect_with amount c none = none
  expect_with amount c (some id) = some (record {
    curr_id = id;
    transactions =
        c.transactions ++ record { id = c.curr_id; amount = amount; created_at = 0 } ∷ [];
  })

  -- The push of an expected transaction and `curr_id += 1`; `none` is its overflow.
  abbrev pub expect : Bool → D → InteractionPlanContext D → Option (InteractionPlanContext D)
  expect checked amount c = expect_with amount c (add_one checked c.curr_id)

  abbrev pub expect_void :
      Bool → Option (Transaction D) → InteractionPlanContext D → Option (InteractionPlanContext D)
  expect_void checked none c = some c
  expect_void checked (some existing) c = expect checked existing.amount c

  -- The `match` of `add_interaction`.
  unfoldable pub note :
      Bool → Interaction D → InteractionPlanContext D → Option (InteractionPlanContext D)
  note checked (sleep _) c = some c
  note checked list_transactions c = some c
  note checked get_balance c = some c
  note checked (get_transaction _) c = some c
  note checked (create_transaction amount) c = expect checked amount c
  note checked (void_transaction id) c = expect_void checked (find id c.transactions) c

  abbrev pub added :
      Interaction D
      → BankerInteractionPlan D
      → Option (InteractionPlanContext D)
      → Option (BankerInteractionPlan D)
  added i s none = none
  added i s (some c) = some (record s { context = c; plan = s.plan ++ i ∷ [] })

  unfoldable pub add_interaction :
      Bool → Interaction D → BankerInteractionPlan D → Option (BankerInteractionPlan D)
  add_interaction checked i s = added i s (note checked i s.context)

module _ {D G : Type 0} (checked : Bool) (random : Random D G) where
  -- `get_random_existing_transaction_id(rng).unwrap_or_else(|| rng.gen())`
  abbrev pub chosen : Option (Transaction D) → G → ℤ × G
  chosen none g = random.gen_id g
  chosen (some t) g = (t.id, g)

  unfoldable pub random_id : List (Transaction D) → G → ℤ × G
  random_id [] g = random.gen_id g
  random_id (t ∷ ts) g =
      let (n, g') = random.choose (length (t ∷ ts)) g in chosen (get_elem? (t ∷ ts) n) g'

  abbrev pub amount_interaction : Option D × G → Option (Interaction D × G)
  amount_interaction (none, g) = none
  amount_interaction (some amount, g) = some (create_transaction amount, g)

  -- The `match` on the type of interaction, up to the call of `add_interaction`.
  unfoldable pub generate :
      InteractionType → InteractionPlanContext D → G → Option (Interaction D × G)
  generate sleep c g = let (n, g') = random.gen_millis g in some (sleep n, g')
  generate list_transactions c g = some (list_transactions, g)
  generate get_transaction c g =
      let (id, g') = random_id c.transactions g in some (get_transaction id, g')
  generate create_transaction c g = amount_interaction (random.gen_amount g)
  generate void_transaction c g =
      let (id, g') = random_id c.transactions g in some (void_transaction id, g')
  generate get_balance c g = some (get_balance, g)

  abbrev pub with_generator :
      G → Option (BankerInteractionPlan D) → Option (BankerInteractionPlan D × G)
  with_generator g none = none
  with_generator g (some s) = some (s, g)

  abbrev pub add_generated :
      BankerInteractionPlan D → Option (Interaction D × G) → Option (BankerInteractionPlan D × G)
  add_generated s none = none
  add_generated s (some (i, g)) = with_generator g (add_interaction checked i s)

  -- One round of the loop.
  unfoldable pub gen_one : BankerInteractionPlan D → G → Option (BankerInteractionPlan D × G)
  gen_one s g =
      let (kind, g') = random.interaction_type g in add_generated s (generate kind s.context g')

  -- `none` is a panic.
  unfoldable pub gen_interactions :
      ℕ → BankerInteractionPlan D → G → Option (BankerInteractionPlan D × G)
  gen_interactions zero s g = some (s, g)
  gen_interactions (suc count) s g = elim (gen_one s g) [
    | none ↦ none
    | some (s', g') ↦ gen_interactions count s' g'
  ]
