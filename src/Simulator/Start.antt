-- ===== src/Simulator/Start.antt =====
-- The start of a simulation: `SimBootstrap` of `simulator/src/main.rs`, with the `start`s of the
-- host and of the clients. What runs in them, and the simulation, are not part of this file.
mod Tests
use dst_demo.Prelude.{
  ℕ, zero, suc, ◌+◌, ◌*◌, ◌%◌, ◌≤◌, ◌<◌, ◌≡◌, ◌≢◌, refl, sym, ◌∙◌, ap, arith, Bool, true, false,
  Option, none, some, inl, inr, List, [], ◌∷◌, ◌++◌, All, map, drop, ltb, leb, if◌then◌else◌,
  Bool-cases,
}
use mathlib.Core.Path.{subst}
use mathlib.Core.Option.{some-injective}
use dst_demo.Text.{Text, codes}
use dst_demo.Text.Number.{show_ℕ, parse_ℕ, u64_max}
use dst_demo.Text.Number.RoundTrip.{parse_ℕ-show}
use dst_demo.Outcome.{ok, ◌>>=◌, ◌>>◌, pure, modify, unwrap}
use dst_demo.Outcome.Laws.{>>=-returns}
use dst_demo.Simulator.Host.{host_name}
use dst_demo.Simulator.BankerCount.{
  Statics, StaticAction, reset_banker_count, banker_count, next_count, after_reset,
  reset_banker_count-keeps, banker_count-kept,
}

-- `sim.host` and `sim.client`, by their names, in the order of the calls.
pub data Started : Type 0 where
  host client : Text → Started

abbrev pub reset_id : {G : Type 0} → Statics G → Statics G
reset_id s = record s { id = 1 }

-- `max(banker_count(), 1) * 64` on a u64; `none` is a panic on overflow.
abbrev pub tcp_capacity : Bool → ℕ → Option ℕ
tcp_capacity checked count =
    let n = if ltb count 1 then 1 else count in
    if leb (n * 64) u64_max
    then some (n * 64)
    else if checked
    then none
    else some (n * 64 % 0x1_0000_0000_0000_0000)

abbrev pub banker_name : ℕ → Text
banker_name id = codes "banker_" ++ show_ℕ id

-- On a u32, which wraps.
abbrev pub fetch_add : ℕ → ℕ
fetch_add id = (id + 1) % 0x1_0000_0000

-- `client::banker::start`, so many times.
unfoldable pub start_bankers : ℕ → ℕ → List Started × ℕ
start_bankers zero id = ([], id)
start_bankers (suc n) id =
    let (started, id') = start_bankers n (fetch_add id) in (client (banker_name id) ∷ started, id')

-- What is started besides the bankers.
abbrev pub fixed : List Started
fixed = host host_name ∷ client (codes "health_check") ∷ client (codes "fault_injector") ∷ []

module _ {G : Type 0} (gen_range : G → ℕ × G) (variable : Option Text) where
  -- `build_sim`: the capacity for the configuration.
  unfoldable pub build_sim : Bool → StaticAction G ℕ
  build_sim checked = do
    reset_banker_count gen_range variable
    modify reset_id
    count ← banker_count gen_range variable
    unwrap (tcp_capacity checked count)

  abbrev pub shown_count : ℕ → StaticAction G (List (Text × Text))
  shown_count count = pure ((codes "banker_count", show_ℕ count) ∷ [])

  -- The properties that the simulation shows.
  unfoldable pub props : StaticAction G (List (Text × Text))
  props = banker_count gen_range variable >>= shown_count

  -- The loop over `0..banker_count()`.
  abbrev pub bankers_start : ℕ → StaticAction G (List Started)
  bankers_start count s =
      let (started, id) = start_bankers count s.id in (ok started, record s { id = id })

  abbrev pub start_all : ℕ → StaticAction G (List Started)
  start_all count = do bankers ← bankers_start count; pure (fixed ++ bankers)

  unfoldable pub on_start : StaticAction G (List Started)
  on_start = banker_count gen_range variable >>= start_all

pub data ExitCode : Type 0 where
  success failure : ExitCode

-- `main`, on whether each result of `run_simulation` is a success.
unfoldable pub exit_code : List Bool → ExitCode
exit_code [] = success
exit_code (true ∷ results) = exit_code results
exit_code (false ∷ results) = failure

-- Bankers that are numbered from `k` on, `n` of them.
abbrev pub numbered : ℕ → ℕ → List Started
numbered k zero = []
numbered k (suc n) = client (banker_name k) ∷ numbered (suc k) n

abbrev pub name : Started → Text
name (host n) = n
name (client n) = n

abbrev pub AreDistinct : List Text → Type 0
AreDistinct [] = Unit
AreDistinct (t ∷ ts) = All (λ u. t ≢ u) ts × AreDistinct ts

start_bankers-numbered :
    (n id : ℕ) → id + n ≤ 0x1_0000_0000 → (start_bankers n id).0 ≡ numbered id n
unfolding start_bankers
start_bankers-numbered zero id h = refl
start_bankers-numbered (suc zero) id h = refl
start_bankers-numbered (suc (suc n)) id h =
    let next : fetch_add id ≡ suc id = omega arith in
    ap (λ k. client (banker_name id) ∷ (start_bankers (suc n) k).0) next
    ∙ ap (λ r. client (banker_name id) ∷ r) (start_bankers-numbered (suc n) (suc id) (omega arith))

banker_name_injective : (j k : ℕ) → banker_name j ≡ banker_name k → j ≡ k
banker_name_injective j k e =
    some-injective _ _ (sym (parse_ℕ-show j) ∙ ap (λ t. parse_ℕ (drop 7 t)) e ∙ parse_ℕ-show k)

other_names : (j k n : ℕ) → j < k → All (λ u. banker_name j ≢ u) (map name (numbered k n))
other_names j k zero h = tt
other_names j k (suc n) h =
    (λ e. ground (arith, banker_name_injective j k e), other_names j (suc k) n (omega arith))

fixed_name :
    (c : ℕ) (s : Text) (k n : ℕ) → c ≢ b'b' → All (λ u. c ∷ s ≢ u) (map name (numbered k n))
fixed_name c s k zero h = tt
fixed_name c s k (suc n) h = (λ e. ground arith, fixed_name c s (suc k) n h)

numbered-AreDistinct : (k n : ℕ) → AreDistinct (map name (numbered k n))
numbered-AreDistinct k zero = tt
numbered-AreDistinct k (suc n) =
    (other_names k (suc k) n (omega arith), numbered-AreDistinct (suc k) n)

capacity_enough :
    (n : ℕ) → n < 0x1_0000_0000 → (c : ℕ) × (tcp_capacity true n ≡ some c) × (n * 64 ≤ c) × (64 ≤ c)
capacity_enough n h = elim (Bool-cases (ltb n 1)) [
  | inl none_wanted ↦ (64, ground arith, ground arith, ground arith)
  | inr wanted ↦ (n * 64, ground arith, ground arith, ground arith)
]

all_AreDistinct : (n : ℕ) → AreDistinct (map name (fixed ++ numbered 1 n))
all_AreDistinct n = (
  (λ e. ground arith, (λ e. ground arith, fixed_name b'd' _ 1 n (λ e. ground arith))),
  (
    (λ e. ground arith, fixed_name b'h' _ 1 n (λ e. ground arith)),
    (fixed_name b'f' _ 1 n (λ e. ground arith), numbered-AreDistinct 1 n),
  ),
)

module _ {G : Type 0} (gen_range : G → ℕ × G) (variable : Option Text) where
  -- The statics of a simulation that has been built.
  abbrev pub built : ℕ → Statics G → Statics G
  built count before = reset_id (after_reset gen_range variable count before)

  build_sim-built :
      (count capacity : ℕ) (before : Statics G)
      → next_count gen_range variable before.random ≡ some count
      → tcp_capacity true count ≡ some capacity
      → build_sim gen_range variable true before ≡ (ok capacity, built count before)
  unfolding build_sim
  build_sim-built count capacity before next fits =
      let counted : ℕ → StaticAction G ℕ = λ count. unwrap (tcp_capacity true count) in
      >>=-returns (reset_banker_count gen_range variable)
        (λ _. modify reset_id >> banker_count gen_range variable >>= counted) before
        (reset_banker_count-keeps gen_range variable count before next)
      ∙ >>=-returns (banker_count gen_range variable) counted (built count before)
          (banker_count-kept gen_range variable count (built count before) refl)
      ∙ ap (λ o. unwrap o (built count before)) fits

  -- Whatever the statics held before, a simulation that is built where `gen_banker_count` gives a
  -- number below 2 ^ 32 is given a capacity of at least 64 connections, and 64 for each banker; it
  -- shows that number, and it starts the server, the health checker, the fault injector and the
  -- bankers with the numbers from 1 to it, whose names are all different; and no other number is
  -- drawn.
  pub build_sim-on_start :
      (count : ℕ) (before : Statics G)
      → next_count gen_range variable before.random ≡ some count
      → count < 0x1_0000_0000
      → (capacity : ℕ) × (s s' : Statics G) × (build_sim gen_range variable true before
          ≡ (ok capacity, s))
        × (count * 64 ≤ capacity)
        × (64 ≤ capacity)
        × (props gen_range variable s ≡ (ok ((codes "banker_count", show_ℕ count) ∷ []), s))
        × (on_start gen_range variable s ≡ (ok (fixed ++ numbered 1 count), s'))
        × (s'.random ≡ (gen_range before.random).1)
        × AreDistinct (map name (fixed ++ numbered 1 count))
  unfolding on_start props
  build_sim-on_start count before next h =
      let (c, fits, each, least) = capacity_enough count h in
      let s = built count before in
      let same = banker_count-kept gen_range variable count s refl in
      (
        c,
        s,
        record s { id = (start_bankers count 1).1 },
        build_sim-built count c before next fits,
        each,
        least,
        >>=-returns (banker_count gen_range variable) (shown_count gen_range variable) s same,
        >>=-returns (banker_count gen_range variable) (start_all gen_range variable) s same
            ∙ ap (λ r. (ok (fixed ++ r), record s { id = (start_bankers count 1).1 }))
                (start_bankers-numbered count 1 (omega arith)),
        refl,
        all_AreDistinct count,
      )
