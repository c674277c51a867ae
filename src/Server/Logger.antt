-- ===== src/Server/Logger.antt =====
-- The lines of the server's log: the format that `server/src/main.rs` gives to the logger. The
-- colour of a level and the clock are a library's; the three widths are statics.
mod Tests
use dst_demo.Prelude.{
  ℕ, zero, suc, ◌+◌, ◌-◌, ◌≤◌, ◌≡◌, Option, none, some, List, [], ◌∷◌, ◌++◌, ltb, leb,
  if◌then◌else◌,
}
use dst_demo.Text.{Text, codes, byte_len}

-- `record.level()`, the thread's number, the time and `record.target()` as text, and the message.
pub record Entry : Type 0 where
  pub level : Text
  pub thread_id : Text
  pub ts : Text
  pub target : Text
  pub args : Text

-- `MAX_LEVEL_PREFIX_LEN`, `MAX_THREAD_PREFIX_LEN` and `MAX_TARGET_PREFIX_LEN`.
pub record Widths : Type 0 where
  pub level : ℕ
  pub thread : ℕ
  pub target : ℕ

abbrev pub no_widths : Widths
no_widths = record { level = 0; thread = 0; target = 0 }

-- The `if`: the largest length so far.
abbrev pub widen : ℕ → ℕ → ℕ
widen prefix_len max_prefix_len =
    if ltb max_prefix_len prefix_len then prefix_len else max_prefix_len

-- `max_prefix_len - prefix_len` on `usize`; `none` is a subtraction that overflows.
abbrev pub padding : ℕ → ℕ → Option ℕ
padding max_prefix_len prefix_len =
    if leb prefix_len max_prefix_len then some (max_prefix_len - prefix_len) else none

abbrev pub level_prefix_len : Entry → ℕ
level_prefix_len e = byte_len (codes "[]") + byte_len e.level

abbrev pub thread_prefix_len : Entry → ℕ
thread_prefix_len e = byte_len (codes "[Thread ]") + byte_len e.thread_id

abbrev pub target_prefix_len : Entry → ℕ
target_prefix_len e = byte_len (codes "[]") + byte_len e.target

unfoldable pub spaces : ℕ → Text
spaces zero = []
spaces (suc n) = b' ' ∷ spaces n

-- What is written, with the three paddings.
unfoldable pub line : Entry → ℕ → ℕ → ℕ → Text
line e level_padding thread_padding target_padding =
    codes "["
    ++ (e.level
        ++ (codes "] "
            ++ (spaces level_padding
                ++ (codes "["
                    ++ (e.ts
                        ++ (codes "] [Thread "
                            ++ (e.thread_id
                                ++ (codes "] "
                                    ++ (spaces thread_padding
                                        ++ (codes "["
                                            ++ (e.target
                                                ++ (codes "] "
                                                    ++ (spaces target_padding
                                                        ++ (e.args ++ b'\n' ∷ []))))))))))))))

abbrev pub widened : Entry → Widths → Widths
widened e w = record {
  level = widen (level_prefix_len e) w.level;
  thread = widen (thread_prefix_len e) w.thread;
  target = widen (target_prefix_len e) w.target;
}

abbrev pub written : Entry → Widths → Option ℕ → Option ℕ → Option ℕ → Option (Text × Widths)
written e w (some a) (some b) (some c) = some (line e a b c, w)
written e w none b c = none
written e w (some a) none c = none
written e w (some a) (some b) none = none

-- The closure that is the format; `none` is a panic.
unfoldable pub format : Entry → Widths → Option (Text × Widths)
format e w =
    let w' = widened e w in
    written e w' (padding w'.level (level_prefix_len e)) (padding w'.thread (thread_prefix_len e))
      (padding w'.target (target_prefix_len e))

abbrev pub and_rest :
    Option (Text × Widths) → (Widths → Option (List Text × Widths)) → Option (List Text × Widths)
and_rest none go = none
and_rest (some (l, w)) go = elim (go w) [ none ↦ none | some (ls, w') ↦ some (l ∷ ls, w') ]

unfoldable pub format_all : List Entry → Widths → Option (List Text × Widths)
format_all [] w = some ([], w)
format_all (e ∷ es) w = and_rest (format e w) (format_all es)

-- The prefixes of an entry are within the widths.
abbrev pub Within : Widths → Entry → Type 0
Within w e =
    (level_prefix_len e ≤ w.level)
    × (thread_prefix_len e ≤ w.thread)
    × (target_prefix_len e ≤ w.target)

abbrev pub IsWider : Widths → Widths → Type 0
IsWider w w' = (w.level ≤ w'.level) × (w.thread ≤ w'.thread) × (w.target ≤ w'.target)

-- A line whose three prefixes, each with its padding, are as wide as the widths.
abbrev pub IsAligned : Widths → Entry → Text → Type 0
IsAligned w e l =
    (a : ℕ) × (b : ℕ) × (c : ℕ) × (l ≡ line e a b c)
    × (level_prefix_len e + a ≡ w.level)
    × (thread_prefix_len e + b ≡ w.thread)
    × (target_prefix_len e + c ≡ w.target)

-- Each line is aligned to the widths that the log has reached with it.
abbrev pub AreAligned : List Entry → Widths → List Text → Type 0
AreAligned [] w ls = ls ≡ []
AreAligned (e ∷ es) w [] = ⊥
AreAligned (e ∷ es) w (l ∷ ls) = IsAligned (widened e w) e l × AreAligned es (widened e w) ls
