-- ===== src/Simulator/FaultPlan.antt =====
-- The plan of the fault injector: `simulator/src/client/fault_injector/plan.rs`.
use dst_demo.Prelude.{
  ℕ, zero, suc, ◌*◌, ◌≤◌, Bool-cases, ◌≡◌, ◌≢◌, ◌⊎◌, refl, sym, ◌∙◌, ap, arith, Bool, Option, none,
  some, inl, inr, List, [], ◌∷◌, ◌++◌, length, append_assoc, append-nil, Option-cases,
  if◌then◌else◌,
}
use dst_demo.Text.{Text}
use dst_demo.Text.Number.{u64_max}
use dst_demo.Simulator.Plan.{Plan, next}
use dst_demo.Simulator.TimeLimit.{fit_u64, fit_u64-some}

-- A duration is in milliseconds.
pub data Interaction : Type 0 where
  sleep : ℕ → Interaction
  bounce : Text → Interaction

pub data InteractionType : Type 0 where
  sleep bounce : InteractionType

-- The random numbers and the simulation's `step_multiplier`, which libraries make.
pub record Random (G : Type 0) : Type 0 where
  pub interaction_type : G → InteractionType × G
  pub gen_millis : G → ℕ × G
  pub gen_bool : G → Bool × G
  pub step_multiplier : ℕ

-- `InteractionPlanContext`, which has no fields.
pub data FaultContext : Type 0 where
  none_kept : FaultContext

abbrev pub FaultInjectionInteractionPlan : Type 0
FaultInjectionInteractionPlan = Plan FaultContext Interaction

abbrev pub new : FaultInjectionInteractionPlan
new = record { context = none_kept; step = 0; plan = [] }

abbrev pub step : FaultInjectionInteractionPlan → Option Interaction × FaultInjectionInteractionPlan
step = next

abbrev pub add_interaction :
    Interaction → FaultInjectionInteractionPlan → FaultInjectionInteractionPlan
add_interaction item s = record s { plan = s.plan ++ item ∷ [] }

module _ {G : Type 0} (checked : Bool) (random : Random G) (host : Text) where
  abbrev pub slept : Option ℕ → Option (Option Interaction)
  slept none = none
  slept (some millis) = some (some (sleep millis))

  -- The `match` in the inner loop: the interaction to add, or `continue`; `none` is a panic, of the
  -- product of u64s.
  unfoldable pub draw : InteractionType → G → Option (Option Interaction) × G
  draw sleep g =
      let (n, g') = random.gen_millis g in
      (slept (fit_u64 checked (n * random.step_multiplier)), g')
  draw bounce g =
      let (skip, g') = random.gen_bool g in
      ((if skip then some none else some (some (bounce host))), g')

  abbrev pub attempt : G → Option (Option Interaction) × G
  attempt g = let (kind, g') = random.interaction_type g in draw kind g'

  -- The inner loop, with fuel for its rounds; `none` is a run that panicked or was cut off.
  unfoldable pub gen_one : ℕ → G → Option (Interaction × G)
  gen_one zero g = none
  gen_one (suc fuel) g =
      let (item, g') = attempt g in
      elim item [ none ↦ none | some o ↦ elim o [ some i ↦ some (i, g') | none ↦ gen_one fuel g' ] ]

  -- The outer loop; each inner loop has the same fuel.
  unfoldable pub gen_interactions :
      ℕ → ℕ → FaultInjectionInteractionPlan → G → Option (FaultInjectionInteractionPlan × G)
  gen_interactions fuel zero s g = some (s, g)
  gen_interactions fuel (suc count) s g = elim (gen_one fuel g) [
    | none ↦ none
    | some (i, g') ↦ gen_interactions fuel count (add_interaction i s) g'
  ]

  -- One of the first `n` attempts from here is no `continue`.
  abbrev pub Settles : ℕ → G → Type 0
  Settles zero g = ⊥
  Settles (suc n) g = ((attempt g).0 ≢ some none) ⊎ Settles n (attempt g).1

  -- Every drawn time, multiplied, is a u64.
  abbrev pub IsInRange : Type 0
  IsInRange = (g : G) → (random.gen_millis g).0 * random.step_multiplier ≤ u64_max

  resumed : ℕ → Option (Option Interaction) × G → Option (Interaction × G)
  resumed n (item, g) = elim item [
    | none ↦ none
    | some o ↦ elim o [ some i ↦ some (i, g) | none ↦ gen_one n g ]
  ]

  draw-returns :
      (kind : InteractionType) (g : G)
      → IsInRange
      → (o : Option Interaction) × ((draw kind g).0 ≡ some o)
  unfolding draw
  draw-returns sleep g range = (
    some (sleep ((random.gen_millis g).0 * random.step_multiplier)),
    ap slept (fit_u64-some checked _ (range g)),
  )
  draw-returns bounce g range = elim (Bool-cases (random.gen_bool g).0) [
    | inl skip ↦ (none, ground arith)
    | inr keep ↦ (some (bounce host), ground arith)
  ]

  gen_one-returns :
      (n : ℕ) (g : G)
      → IsInRange
      → Settles n g
      → (i : Interaction) × (g' : G) × (gen_one n g ≡ some (i, g'))
  unfolding gen_one resumed
  gen_one-returns zero g range h = absurd h
  gen_one-returns (suc n) g range h =
      let (o, drawn) =
        draw-returns (random.interaction_type g).0 (random.interaction_type g).1 range in
      elim (Option-cases o) [
        | inr (i, hit) ↦
            (i, (attempt g).1, ap (λ o. resumed n (o, (attempt g).1)) (drawn ∙ ap some hit))
        | inl skip ↦
            let skipped : (attempt g).0 ≡ some none = drawn ∙ ap some skip in
            let later : Settles n (attempt g).1 = elim h [
              | inl hit ↦ absurd (hit skipped)
              | inr s ↦ s
            ] in
            let (i, g', e) = gen_one-returns n (attempt g).1 range later in
            (i, g', ap (λ o. resumed n (o, (attempt g).1)) skipped ∙ e)
      ]

  -- If no generator skips more than `fuel` bounces in a row, and every time that can be drawn, as
  -- often as `step_multiplier` says, fits a u64, then generating returns, with `count` more
  -- interactions behind those that the plan had, and the plan is performed as far as before.
  pub gen_interactions-returns :
      (fuel count : ℕ) (s : FaultInjectionInteractionPlan) (g : G)
      → IsInRange
      → ((g : G) → Settles fuel g)
      → (new : List Interaction) × (g' : G) × (gen_interactions fuel count s g
          ≡ some (record s { plan = s.plan ++ new }, g'))
        × (length new ≡ count)
  unfolding gen_interactions
  gen_interactions-returns fuel zero s g range h =
      ([], g, ap (λ xs. some (record s { plan = xs }, g)) (sym (append-nil s.plan)), refl)
  gen_interactions-returns fuel (suc count) s g range h =
      let (i, g₁, one) = gen_one-returns fuel g range (h g) in
      let s' : FaultInjectionInteractionPlan = add_interaction i s in
      let (new, g', rest, grown) = gen_interactions-returns fuel count s' g₁ range h in
      (
        i ∷ new,
        g',
        rw (one, gen_interactions)
            (rest
              ∙ ap (λ xs. some (record s { plan = xs }, g')) (append_assoc s.plan (i ∷ []) new)),
        omega (arith, grown),
      )
