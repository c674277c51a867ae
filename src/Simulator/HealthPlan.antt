-- ===== src/Simulator/HealthPlan.antt =====
-- The plan of the health checker: `simulator/src/client/health_checker/plan.rs`.
use dst_demo.Prelude.{
  ℕ, zero, suc, ◌+◌, ◌%◌, ◌≡◌, refl, sym, ◌∙◌, ap, arith, Option, List, [], ◌∷◌, ◌++◌, length, ◌==◌,
  if◌then◌else◌, append_assoc, append-nil,
}
use dst_demo.Text.{Text}
use dst_demo.Simulator.Plan.{Plan, next}

-- A duration is in milliseconds.
pub data Interaction : Type 0 where
  sleep : ℕ → Interaction
  health_check : Text → Interaction

-- `InteractionPlanContext`, which has no fields.
pub data HealthContext : Type 0 where
  none_kept : HealthContext

abbrev pub HealthCheckInteractionPlan : Type 0
HealthCheckInteractionPlan = Plan HealthContext Interaction

abbrev pub new : HealthCheckInteractionPlan
new = record { context = none_kept; step = 0; plan = [] }

abbrev pub step : HealthCheckInteractionPlan → Option Interaction × HealthCheckInteractionPlan
step = next

-- `format!("{HOST}:{PORT}")` is the address.
module _ (address : Text) where
  abbrev pub add_interaction : Interaction → HealthCheckInteractionPlan → HealthCheckInteractionPlan
  add_interaction item s = record s { plan = s.plan ++ item ∷ [] }

  abbrev pub interaction_at : ℕ → Interaction
  interaction_at n = if n % 2 == 0 then sleep 1000 else health_check address

  -- The rounds of the loop from `i` on, `n` of them.
  unfoldable pub gen_from : ℕ → ℕ → ℕ → HealthCheckInteractionPlan → HealthCheckInteractionPlan
  gen_from len i zero s = s
  gen_from len i (suc n) s = gen_from len (suc i) n (add_interaction (interaction_at (i + len)) s)

  unfoldable pub gen_interactions : ℕ → HealthCheckInteractionPlan → HealthCheckInteractionPlan
  gen_interactions count s = gen_from (length s.plan) 1 count s

  -- The interactions by their places from `k` on, counted from 1.
  unfoldable pub pattern : ℕ → ℕ → List Interaction
  pattern k zero = []
  pattern k (suc n) = interaction_at k ∷ pattern (suc k) n

  pub pattern-append : (k m n : ℕ) → pattern k (m + n) ≡ pattern k m ++ pattern (k + m) n
  unfolding pattern
  pattern-append k zero n =
      let start : k + 0 ≡ k = omega arith in
      let none_before : 0 + n ≡ n = omega arith in rw (start, none_before) refl
  pattern-append k (suc m) n =
      let start : k + suc m ≡ suc k + m = omega arith in
      let count : suc m + n ≡ suc (m + n) = omega arith in
      rw (start, count, pattern) (ap (λ xs. interaction_at k ∷ xs) (pattern-append (suc k) m n))

  pub length-pattern : (k n : ℕ) → length (pattern k n) ≡ n
  unfolding pattern
  length-pattern k zero = refl
  length-pattern k (suc n) = ap suc (length-pattern (suc k) n)

  gen_from-plan :
      (len i n : ℕ) (s : HealthCheckInteractionPlan)
      → (gen_from len i n s).plan ≡ s.plan ++ pattern (i + len) n
  unfolding gen_from pattern
  gen_from-plan len i zero s = sym (append-nil s.plan)
  gen_from-plan len i (suc n) s =
      let s' : HealthCheckInteractionPlan = add_interaction (interaction_at (i + len)) s in
      let shift : suc i + len ≡ suc (i + len) = omega arith in
      gen_from-plan len (suc i) n s'
      ∙ ap (λ k. s'.plan ++ pattern k n) shift
      ∙ append_assoc s.plan (interaction_at (i + len) ∷ []) (pattern (suc (i + len)) n)

  gen_from-step :
      (len i n : ℕ) (s : HealthCheckInteractionPlan) → (gen_from len i n s).step ≡ s.step
  unfolding gen_from
  gen_from-step len i zero s = refl
  gen_from-step len i (suc n) s =
      let s' : HealthCheckInteractionPlan = add_interaction (interaction_at (i + len)) s in
      gen_from-step len (suc i) n s'

  -- However the plan is generated in portions, it is one alternation that begins with a health
  -- check: adding `count` interactions to a plan of that form gives the plan of that form that is
  -- longer by `count`, and moves no step.
  pub gen_interactions-pattern :
      (count : ℕ) (s : HealthCheckInteractionPlan)
      → s.plan ≡ pattern 1 (length s.plan)
      → ((gen_interactions count s).plan ≡ pattern 1 (length s.plan + count))
        × ((gen_interactions count s).step ≡ s.step)
  unfolding gen_interactions
  gen_interactions-pattern count s e =
      let len = length s.plan in
      (
        gen_from-plan len 1 count s
            ∙ (ap (λ xs. xs ++ pattern (1 + len) count) e ∙ sym (pattern-append 1 len count)),
        gen_from-step len 1 count s,
      )
