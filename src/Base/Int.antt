-- ===== src/Base/Int.antt =====
-- Signed integers over the native numbers: `int` and `ssize_t` values.
use Prim.Native.Nat.{ℕ, suc, ◌+◌, ◌-◌, ◌≤◌, ◌<◌}
use mathlib.Core.Path.{◌≡◌}
use mathlib.Core.Bool.{Bool, true, false}
use native.Mathlib.Omega.{arith}
use tcp_udp.Base.Tests.{ltb, ◌==◌, if◌then◌else◌}

-- `negsuc n` is -(n + 1).
pub data ℤ : Type 0 where
  pos : ℕ → ℤ
  negsuc : ℕ → ℤ

abbrev pub pos_part : ℤ → ℕ
pos_part (pos n) = n
pos_part (negsuc n) = 0

abbrev pub neg_part : ℤ → ℕ
neg_part (pos n) = 0
neg_part (negsuc n) = suc n

infix 50 ◌≤ℤ◌ ◌<ℤ◌
abbrev pub ◌≤ℤ◌ : ℤ → ℤ → Type 0
a ≤ℤ b = pos_part a + neg_part b ≤ pos_part b + neg_part a

abbrev pub ◌<ℤ◌ : ℤ → ℤ → Type 0
a <ℤ b = pos_part a + neg_part b < pos_part b + neg_part a

abbrev pub ltb_ℤ : ℤ → ℤ → Bool
ltb_ℤ a b = ltb (pos_part a + neg_part b) (pos_part b + neg_part a)

abbrev pub eqb_ℤ : ℤ → ℤ → Bool
eqb_ℤ a b = pos_part a + neg_part b == pos_part b + neg_part a

abbrev pub int_max : ℤ
int_max = pos 2147483647

abbrev pub int_min : ℤ
int_min = negsuc 2147483647

-- The values of a 32-bit `int`.
pub record IsInt (z : ℤ) : Type 0 where
  pub above : int_min ≤ℤ z
  pub below : z ≤ℤ int_max

-- `z + 1` at type `int`, in two's complement.
unfoldable pub int_suc : ℤ → ℤ
int_suc (pos n) = if n == 2147483647 then int_min else pos (suc n)
int_suc (negsuc n) = if n == 0 then pos 0 else negsuc (n - 1)

pub eqb_ℤ_sound : (a b : ℤ) → eqb_ℤ a b ≡ true → a ≡ b
eqb_ℤ_sound a b h = ground arith

pub eqb_ℤ_refl : (a : ℤ) → eqb_ℤ a a ≡ true
eqb_ℤ_refl a = ground arith

pub int_suc-IsInt : (z : ℤ) → IsInt z → IsInt (int_suc z)
unfolding int_suc
int_suc-IsInt (pos n) h = ground arith
int_suc-IsInt (negsuc n) h = ground arith

-- Below the largest value the sum does not wrap.
pub int_suc-lt : (z : ℤ) → z <ℤ int_max → z <ℤ int_suc z
unfolding int_suc
int_suc-lt (pos n) h = ground arith
int_suc-lt (negsuc n) h = ground arith

pub ltb_ℤ_irrefl : (a : ℤ) → ltb_ℤ a a ≡ false
ltb_ℤ_irrefl a = ground arith
