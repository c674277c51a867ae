-- ===== src/Simulator/TimeLimit.antt =====
-- The time limits around the clients' interactions: `switchy::unsync::select!` of a response and a
-- sleep, in `client/banker/mod.rs` and `client/health_checker/mod.rs` of `simulator/src`.
use dst_demo.Prelude.{
  ℕ, ◌%◌, ◌*◌, ◌≤◌, ◌≡◌, refl, ap, arith, Bool, true, Option, none, some, List, ltb, leb, ◌==◌,
  ◌&&◌, ◌||◌, if◌then◌else◌,
}
use dst_demo.Text.Number.{u64_max}
use dst_demo.Simulator.Connection.{Attempt, Progress, finished}
use dst_demo.Simulator.Loop.{End, done, failed, crashed}

-- What an interaction meets: the attempts to connect, and the time that they take.
pub record Encounter : Type 0 where
  pub attempts : List Attempt
  pub elapsed : ℕ

-- A u64 that panics or wraps on overflow.
abbrev pub fit_u64 : Bool → ℕ → Option ℕ
fit_u64 checked n =
    if leb n u64_max then some n else if checked then none else some (n % 0x1_0000_0000_0000_0000)

-- `select!`: whether the response comes before the time limit; where both come at once, the
-- library chooses.
abbrev pub in_time : Bool → ℕ → ℕ → Bool
in_time first elapsed timeout = ltb elapsed timeout || (first && elapsed == timeout)

-- `resp?`; an interaction that still tries when its attempts end is in time for nothing.
abbrev pub responded : Progress → Bool → End
responded finished true = done
responded Progress.crashed true = End.crashed
responded _ _ = failed

-- `sleep(Duration::from_secs(step_multiplier() * 60))` behind an interaction that is done: the
-- product may overflow.
abbrev pub sixty_steps : Option ℕ → End
sixty_steps none = crashed
sixty_steps (some _) = done

abbrev pub pause : Bool → ℕ → End → End
pause checked step_multiplier done = sixty_steps (fit_u64 checked (step_multiplier * 60))
pause checked step_multiplier failed = failed
pause checked step_multiplier crashed = crashed

pub fit_u64-some : (checked : Bool) (n : ℕ) → n ≤ u64_max → fit_u64 checked n ≡ some n
fit_u64-some checked n h = let fits : leb n u64_max ≡ true = ground arith in rw fits refl

pub pause-same : (checked : Bool) (m : ℕ) (e : End) → m * 60 ≤ u64_max → pause checked m e ≡ e
pause-same checked m done h = ap sixty_steps (fit_u64-some checked (m * 60) h)
pause-same checked m failed h = refl
pause-same checked m crashed h = refl
