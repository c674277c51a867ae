-- ===== src/Simulator/BankerCount.antt =====
-- The number of bankers: `simulator/src/lib.rs`. The statics behind their locks and the generator
-- of random numbers are an explicit state; the environment does not change.
use dst_demo.Prelude.{ℕ, ◌≡◌, ap, Option, none, some}
use dst_demo.Text.{Text}
use dst_demo.Text.Number.{parse_unsigned, u64_max}
use dst_demo.Outcome.{Outcome, ok, panic, Action, ◌>>=◌, ◌>>◌, pure, gets, modify, unwrap}
use dst_demo.Outcome.Laws.{>>=-returns}

-- `BANKER_COUNT`; the banker's `ID`; and the generator.
pub record Statics (G : Type 0) : Type 0 where
  pub banker_count : Option ℕ
  pub id : ℕ
  pub random : G

-- No error is returned; what can go wrong is a panic.
abbrev pub StaticAction : Type 0 → Type 0 → Type 0
StaticAction G A = Action (Statics G) ⊥ A

-- `rng().gen_range(1..30)`, and the variable `SIMULATOR_BANKER_COUNT`.
module _ {G : Type 0} (gen_range : G → ℕ × G) (variable : Option Text) where
  abbrev pub drawn : StaticAction G ℕ
  drawn s = let (value, g) = gen_range s.random in (ok value, record s { random = g })

  -- `map_or(value, |x| x.parse().unwrap())`; `none` is a panic.
  abbrev pub chosen : Option Text → ℕ → Option ℕ
  chosen none value = some value
  chosen (some x) value = parse_unsigned u64_max x

  -- A number is drawn whether it is needed or not.
  unfoldable pub gen_banker_count : StaticAction G ℕ
  gen_banker_count = do value ← drawn; unwrap (chosen variable value)

  abbrev pub keep : ℕ → StaticAction G (Unit {0})
  keep value = modify (λ s. record s { banker_count = some value })

  unfoldable pub reset_banker_count : StaticAction G ℕ
  reset_banker_count = do value ← gen_banker_count; keep value; pure value

  abbrev pub value_or : Option ℕ → StaticAction G ℕ
  value_or (some value) = pure value
  value_or none = do value ← gen_banker_count; keep value; pure value

  unfoldable pub banker_count : StaticAction G ℕ
  banker_count = do value ← gets (λ s. s.banker_count); value_or value

  -- The number that would be generated.
  abbrev pub next_count : G → Option ℕ
  next_count g = chosen variable (gen_range g).0

  -- The statics after a reset.
  abbrev pub after_reset : ℕ → Statics G → Statics G
  after_reset count s = record s { banker_count = some count; random = (gen_range s.random).1 }

  abbrev generated : Option ℕ → Statics G → Outcome ⊥ ℕ × Statics G
  generated o s = unwrap o (record s { random = (gen_range s.random).1 })

  pub reset_banker_count-keeps :
      (count : ℕ) (s : Statics G)
      → next_count s.random ≡ some count
      → reset_banker_count s ≡ (ok count, after_reset count s)
  unfolding reset_banker_count gen_banker_count
  reset_banker_count-keeps count s e =
      >>=-returns gen_banker_count (λ value. keep value >> pure value) s (ap (λ o. generated o s) e)

  -- A variable that holds no number ends the program.
  pub reset_banker_count-panics :
      (s : Statics G)
      → next_count s.random ≡ none
      → reset_banker_count s ≡ (panic, record s { random = (gen_range s.random).1 })
  unfolding reset_banker_count gen_banker_count
  reset_banker_count-panics s e =
      ap (λ o. ((λ _. generated o s) >>= λ value. keep value >> pure value) s) e

  -- What has been kept is given again, and no further number is drawn.
  pub banker_count-kept :
      (count : ℕ) (s : Statics G) → s.banker_count ≡ some count → banker_count s ≡ (ok count, s)
  unfolding banker_count
  banker_count-kept count s e = ap (λ o. value_or o s) e
