-- ===== src/Base/Int.antt =====
-- The C integer types: a signed value as an integer, an unsigned one as a number below 2 ^ w.
use Prim.Native.Nat.{ℕ, zero, suc, ◌+◌, ◌-◌, ◌*◌, ◌/◌, ◌%◌, ◌^◌}
use mathlib.Core.Path.{◌≡◌, refl}
use mathlib.Core.Logic.{◌≢◌, ◌↔◌}
use native.Mathlib.Omega.{arith}
use mathlib.Core.Bool.{Bool, true, false}
use dynaswap.Base.Tests.{if◌then◌else◌, ltb, ◌==◌}

-- `negsuc n` is -(n + 1).
pub data ℤ : Type 0 where
  pos : ℕ → ℤ
  negsuc : ℕ → ℤ

-- `-e` for an error number `e`.
abbrev pub neg : ℕ → ℤ
neg zero = pos zero
neg (suc n) = negsuc n

-- `x < 0`
abbrev pub is_neg : ℤ → Bool
is_neg (pos n) = false
is_neg (negsuc n) = true

-- `if (x)`
abbrev pub nonzero : ℤ → Bool
nonzero (pos zero) = false
nonzero (pos (suc n)) = true
nonzero (negsuc n) = true

pub nonzero_iff : (x : ℤ) → (nonzero x ≡ true) ↔ (x ≢ pos 0)
nonzero_iff (pos zero) = (λ h. ground arith, λ h. absurd (h refl))
nonzero_iff (pos (suc n)) = (λ h e. ground arith, λ h. refl)
nonzero_iff (negsuc n) = (λ h e. ground arith, λ h. refl)

pub zero_of_nonzero : (x : ℤ) → nonzero x ≡ false → x ≡ pos 0
zero_of_nonzero (pos zero) h = refl
zero_of_nonzero (pos (suc n)) h = ground arith
zero_of_nonzero (negsuc n) h = ground arith

-- `x == n` for an unsigned `n`.
abbrev pub is_nat : ℤ → ℕ → Bool
is_nat (pos m) n = m == n
is_nat (negsuc m) n = false

-- `a < b` on signed values.
abbrev pub ltb_int : ℤ → ℤ → Bool
ltb_int (pos a) (pos b) = ltb a b
ltb_int (pos a) (negsuc b) = false
ltb_int (negsuc a) (pos b) = true
ltb_int (negsuc a) (negsuc b) = ltb b a

-- The conversions between `long` and `unsigned long`.
abbrev pub to_long : ℕ → ℤ
to_long n = if ltb n (2 ^ 63) then pos n else negsuc (2 ^ 64 - 1 - n)

abbrev pub to_ulong : ℤ → ℕ
to_ulong (pos n) = n % 2 ^ 64
to_ulong (negsuc n) = 2 ^ 64 - 1 - n % 2 ^ 64

-- Arithmetic of `unsigned long`.
abbrev pub add_ulong : ℕ → ℕ → ℕ
add_ulong a b = (a + b) % 2 ^ 64

abbrev pub mul_ulong : ℕ → ℕ → ℕ
mul_ulong a b = (a * b) % 2 ^ 64

-- `x << k` and `x >> k` on 64 bits.
abbrev pub shl_ulong : ℕ → ℕ → ℕ
shl_ulong x k = (x * 2 ^ k) % 2 ^ 64

abbrev pub shr : ℕ → ℕ → ℕ
shr x k = x / 2 ^ k
