-- ===== src/Base/Numbers.antt =====
-- Integers as arguments of `clamp`, saturating arithmetic on i32, and powers of two.
use Prim.Native.Nat.{ℕ, zero, suc, ◌*◌, ◌^◌, ◌≤◌, min}
use native.Mathlib.Omega.{arith}
use native.Mathlib.Nat.{pow-suc}
use essentials_merchant.Base.Tests.{ltb, if◌then◌else◌}

-- `negsuc n` is -(n + 1).
pub data ℤ : Type 0 where
  pos : ℕ → ℤ
  negsuc : ℕ → ℤ

-- `x.clamp(lo, hi)` between bounds that are not negative.
abbrev pub clamp : ℕ → ℕ → ℤ → ℕ
clamp lo hi (negsuc n) = lo
clamp lo hi (pos n) = if ltb n lo then lo else if ltb hi n then hi else n

pub le-clamp : (lo hi : ℕ) (x : ℤ) → lo ≤ hi → lo ≤ clamp lo hi x
le-clamp lo hi (negsuc n) h = omega arith
le-clamp lo hi (pos n) h = ground arith

pub clamp-le : (lo hi : ℕ) (x : ℤ) → lo ≤ hi → clamp lo hi x ≤ hi
clamp-le lo hi (negsuc n) h = h
clamp-le lo hi (pos n) h = ground arith

abbrev pub i32_max : ℕ
i32_max = 2147483647

abbrev pub saturating_mul : ℕ → ℕ → ℕ
saturating_mul a b = min (a * b) i32_max

abbrev pub saturating_pow : ℕ → ℕ → ℕ
saturating_pow b e = min (b ^ e) i32_max

pub pow_two_pos : (e : ℕ) → 1 ≤ 2 ^ e
pow_two_pos zero = omega arith
pow_two_pos (suc e) = rw (pow-suc) (omega (arith, pow_two_pos e))

pub pow_two_mono : (a b : ℕ) → a ≤ b → 2 ^ a ≤ 2 ^ b
pow_two_mono zero b h = pow_two_pos b
pow_two_mono (suc a) zero h = absurd (omega arith)
pow_two_mono (suc a) (suc b) h =
    rw (pow-suc 2 a, pow-suc 2 b) (omega (arith, pow_two_mono a b (omega arith)))
