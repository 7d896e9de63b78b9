-- ===== src/Base/Int.antt =====
-- Rust's `i32` as integers. `negsuc n` is -(n + 1).
use Prim.Native.Nat.{ℕ, zero, suc, ◌+◌, ◌-◌, ◌≤◌, ◌<◌}
use mathlib.Core.Bool.{Bool}
use mathlib.Core.List.{◌∷◌}
use rqx.Base.Tests.{ltb, leb, nat_beq, if◌then◌else◌}
use rqx.Base.Strings.{Text, display_nat}

pub data ℤ : Type 0 where
  pos : ℕ → ℤ
  negsuc : ℕ → ℤ

abbrev pub pos_part : ℤ → ℕ
pos_part (pos n) = n
pos_part (negsuc n) = 0

abbrev pub neg_part : ℤ → ℕ
neg_part (pos n) = 0
neg_part (negsuc n) = suc n

infix 50 ◌≤ℤ◌ ◌<ℤ◌
abbrev pub ◌≤ℤ◌ : ℤ → ℤ → Type 0
a ≤ℤ b = pos_part a + neg_part b ≤ pos_part b + neg_part a

abbrev pub ◌<ℤ◌ : ℤ → ℤ → Type 0
a <ℤ b = pos_part a + neg_part b < pos_part b + neg_part a

-- the operator `<` on `i32`
abbrev pub ltb_ℤ : ℤ → ℤ → Bool
ltb_ℤ a b = ltb (pos_part a + neg_part b) (pos_part b + neg_part a)

abbrev pub leb_ℤ : ℤ → ℤ → Bool
leb_ℤ a b = leb (pos_part a + neg_part b) (pos_part b + neg_part a)

abbrev pub i32_max : ℕ
i32_max = 2147483647

-- `n += 1`, wrapping at `i32::MAX`
abbrev pub incr_i32 : ℤ → ℤ
incr_i32 (pos n) = if nat_beq n i32_max then negsuc i32_max else pos (n + 1)
incr_i32 (negsuc zero) = pos 0
incr_i32 (negsuc (suc n)) = negsuc n

-- `n as u32`
abbrev pub u32_of_i32 : ℤ → ℕ
u32_of_i32 (pos n) = n
u32_of_i32 (negsuc n) = 4294967295 - n

-- `Display` of an `i32`
abbrev pub display_i32 : ℤ → Text
display_i32 (pos n) = display_nat n
display_i32 (negsuc n) = b'-' ∷ display_nat (suc n)
