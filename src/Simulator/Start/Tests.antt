-- ===== src/Simulator/Start/Tests.antt =====
-- Simulations with three bankers, by the environment and by the generator.
use dst_demo.Prelude.{
  ℕ, ◌*◌, ◌+◌, ◌%◌, ◌≤◌, ◌≡◌, true, Option, some, [], ◌∷◌, ◌++◌, map, arith, refl,
}
use dst_demo.Text.{Text, codes}
use dst_demo.Text.Number.{show_ℕ, parse_unsigned}
use dst_demo.Outcome.{ok}
use dst_demo.Simulator.BankerCount.{Statics}
use dst_demo.Simulator.Start.{
  build_sim, on_start, props, fixed, numbered, name, AreDistinct, build_sim-on_start,
}

-- Left by an earlier run.
abbrev before : Statics ℕ
before = record { banker_count = some 9; id = 10; random = 40 }

abbrev gen_range : ℕ → ℕ × ℕ
gen_range g = (1 + g % 29, g + 7)

abbrev variable : Option Text
variable = some (codes "3")

build_sim-on_start_example :
    (capacity : ℕ) × (s s' : Statics ℕ) × (build_sim gen_range variable true before
      ≡ (ok capacity, s))
    × (3 * 64 ≤ capacity)
    × (64 ≤ capacity)
    × (props gen_range variable s ≡ (ok ((codes "banker_count", show_ℕ 3) ∷ []), s))
    × (on_start gen_range variable s ≡ (ok (fixed ++ numbered 1 3), s'))
    × (s'.random ≡ (gen_range before.random).1)
    × AreDistinct (map name (fixed ++ numbered 1 3))
unfolding parse_unsigned
build_sim-on_start_example = build_sim-on_start gen_range variable 3 before refl (omega arith)
