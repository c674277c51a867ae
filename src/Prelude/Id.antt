-- ===== src/Prelude/Id.antt =====
-- Signed 32-bit integers (`i32`, the type of a transaction's identifier), as integers in range.
use Prim.Native.Nat.{ℕ, zero, suc, ◌+◌, ◌≤◌}
use mathlib.Core.Path.{◌≡◌, refl}
use mathlib.Core.Logic.{◌↔◌, ◌≢◌}
use mathlib.Core.Bool.{Bool, true, false}
use mathlib.Core.Option.{Option, none, some}
use native.Mathlib.Omega.{arith}
use dst_demo.Prelude.Tests.{◌==◌, if◌then◌else◌}

-- `negsuc n` is -(n + 1).
pub data ℤ : Type 0 where
  pos : ℕ → ℤ
  negsuc : ℕ → ℤ

-- i32::MAX, and the n of i32::MIN = negsuc n.
abbrev pub i32_max : ℕ
i32_max = 2147483647

abbrev pub eq_ℤ : ℤ → ℤ → Bool
eq_ℤ (pos a) (pos b) = a == b
eq_ℤ (negsuc a) (negsuc b) = a == b
eq_ℤ (pos _) (negsuc _) = false
eq_ℤ (negsuc _) (pos _) = false

pub eq_ℤ_iff : (a b : ℤ) → (eq_ℤ a b ≡ true) ↔ (a ≡ b)
eq_ℤ_iff (pos a) (pos b) = ground arith
eq_ℤ_iff (negsuc a) (negsuc b) = ground arith
eq_ℤ_iff (pos a) (negsuc b) = ground arith
eq_ℤ_iff (negsuc a) (pos b) = ground arith

pub eq_ℤ_refl : (a : ℤ) → eq_ℤ a a ≡ true
eq_ℤ_refl a = (eq_ℤ_iff a a).1 refl

-- The successor of an integer, with no bound.
abbrev pub suc_ℤ : ℤ → ℤ
suc_ℤ (pos n) = pos (suc n)
suc_ℤ (negsuc zero) = pos 0
suc_ℤ (negsuc (suc n)) = negsuc n

-- `x + 1` on an i32: at i32::MAX it panics where overflow is checked, and wraps otherwise.
abbrev pub add_one : Bool → ℤ → Option ℤ
add_one checked x =
    if eq_ℤ x (pos i32_max)
    then (if checked then none else some (negsuc i32_max))
    else some (suc_ℤ x)

-- What every i32 satisfies.
abbrev pub InI32 : ℤ → Type 0
InI32 (pos n) = n ≤ i32_max
InI32 (negsuc n) = n ≤ i32_max

pub suc_ℤ_ne : (x : ℤ) → suc_ℤ x ≢ x
suc_ℤ_ne (pos n) = ground arith
suc_ℤ_ne (negsuc zero) = ground arith
suc_ℤ_ne (negsuc (suc n)) = ground arith

pub suc_ℤ_injective : (x y : ℤ) → suc_ℤ x ≡ suc_ℤ y → x ≡ y
suc_ℤ_injective (pos n) (pos m) h = ground arith
suc_ℤ_injective (pos n) (negsuc zero) h = ground arith
suc_ℤ_injective (pos n) (negsuc (suc m)) h = ground arith
suc_ℤ_injective (negsuc zero) (pos m) h = ground arith
suc_ℤ_injective (negsuc zero) (negsuc zero) h = ground arith
suc_ℤ_injective (negsuc zero) (negsuc (suc m)) h = ground arith
suc_ℤ_injective (negsuc (suc n)) (pos m) h = ground arith
suc_ℤ_injective (negsuc (suc n)) (negsuc zero) h = ground arith
suc_ℤ_injective (negsuc (suc n)) (negsuc (suc m)) h = ground arith

pub add_one-eq : (x y : ℤ) → add_one true x ≡ some y → y ≡ suc_ℤ x
add_one-eq x y h = ground arith

abbrev pub pos_part : ℤ → ℕ
pos_part (pos n) = n
pos_part (negsuc n) = 0

abbrev pub neg_part : ℤ → ℕ
neg_part (pos n) = 0
neg_part (negsuc n) = suc n

-- The order of the integers.
abbrev pub IsBelow : ℤ → ℤ → Type 0
IsBelow a b = suc (pos_part a + neg_part b) ≤ pos_part b + neg_part a

pub IsBelow-suc_ℤ : (x : ℤ) → IsBelow x (suc_ℤ x)
IsBelow-suc_ℤ (pos n) = omega arith
IsBelow-suc_ℤ (negsuc zero) = omega arith
IsBelow-suc_ℤ (negsuc (suc n)) = omega arith

pub IsBelow-trans : (x y z : ℤ) → IsBelow x y → IsBelow y z → IsBelow x z
IsBelow-trans x y z h k = omega arith

pub eq_ℤ_of_IsBelow : (x y : ℤ) → IsBelow x y → eq_ℤ y x ≡ false
eq_ℤ_of_IsBelow (pos a) (pos b) h = ground arith
eq_ℤ_of_IsBelow (negsuc a) (negsuc b) h = ground arith
eq_ℤ_of_IsBelow (pos a) (negsuc b) h = refl
eq_ℤ_of_IsBelow (negsuc a) (pos b) h = refl
