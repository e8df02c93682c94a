-- ===== src/Base/Count.antt =====
-- Bitmaps: how many of the first bits are set, and what a write changes.
use Prim.Native.Nat.{ℕ, zero, suc, ◌≤◌, ◌<◌}
use mathlib.Core.Path.{◌≡◌, refl, ap}
use mathlib.Core.Bool.{Bool, true, false}
use native.Mathlib.Decide.{dec_le}
use native.Mathlib.Omega.{arith}
use dynaswap.Base.Tests.{if◌then◌else◌, ◌==◌}

abbrev pub Bits : Type 0
Bits = ℕ → Bool

-- `set_bit`
abbrev pub set_bit : ℕ → Bits → Bits
set_bit i b j = if i == j then true else b j

-- How many of the bits below `n` are set (`bitmap_weight`).
abbrev pub count : ℕ → Bits → ℕ
count zero b = 0
count (suc n) b = if b n then suc (count n b) else count n b

pub count-le : (n : ℕ) (b : Bits) → count n b ≤ n
count-le zero b = omega arith
count-le (suc n) b = ground (arith, count-le n b)

pub count-set_above : (n i : ℕ) (b : Bits) → n ≤ i → count n (set_bit i b) ≡ count n b
count-set_above zero i b h = refl
count-set_above (suc n) i b h = ground (arith, count-set_above n i b)

-- A clear bit that is set raises the count by one.
pub count-set : (n i : ℕ) (b : Bits) → i < n → b i ≡ false → count n (set_bit i b) ≡ suc (count n b)
count-set zero i b h z = absurd (omega arith)
count-set (suc n) i b h z = ground (arith, count-set n i b, count-set_above n i b)

-- Clear bits do not count: the count stays when the size grows over them.
pub count_grow :
    (m n : ℕ) (b : Bits) → m ≤ n → ((i : ℕ) → b i ≡ true → i < m) → count n b ≡ count m b
count_grow m zero b l h = let e : 0 ≡ m = omega arith in ap (λ k. count k b) e
count_grow m (suc n) b l h = elim (dec_le m n) [
  | yes le ↦ ground (arith, h n, count_grow m n b le h)
  | no gt ↦ let e : suc n ≡ m = omega arith in ap (λ k. count k b) e
]

-- All bits are set exactly if the count is the size.
pub count_full : (n : ℕ) (b : Bits) → ((i : ℕ) → i < n → b i ≡ true) → count n b ≡ n
count_full zero b h = refl
count_full (suc n) b h = ground (arith, h n, count_full n b (λ i l. h i (omega arith)))

-- A count below the size leaves a clear bit, so a full bitmap has the size for its count.
pub count_full_iff : (n i : ℕ) (b : Bits) → count n b ≡ n → i < n → b i ≡ true
count_full_iff zero i b e h = absurd (omega arith)
count_full_iff (suc n) i b e h = ground (arith, count-le n b, count_full_iff n i b)
