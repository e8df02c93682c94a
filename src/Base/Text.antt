-- ===== src/Base/Text.antt =====
-- Texts as bytes: the numbers in them, and what fits into a buffer.
use Prim.Native.Nat.{ℕ, zero, suc, ◌+◌, ◌-◌, ◌*◌, ◌/◌, ◌%◌, ◌^◌, ◌≤◌, ◌<◌}
use mathlib.Core.Path.{◌≡◌, refl, ap, ◌∙◌}
use mathlib.Core.List.{List, [], ◌∷◌}
use native.Mathlib.Omega.{arith}
use dynaswap.Base.Tests.{if◌then◌else◌, ltb, if_cases}
use dynaswap.Base.Lists.{length}

-- At most `n` bytes.
unfoldable pub cut : ℕ → List ℕ → List ℕ
cut zero bs = []
cut (suc n) [] = []
cut (suc n) (b ∷ bs) = b ∷ cut n bs

-- "%d" of a number below 10 ^ n, before `bs`.
unfoldable pub decimal : ℕ → ℕ → List ℕ → List ℕ
decimal zero i bs = bs
decimal (suc n) i bs =
    let more = decimal n (i / 10) ((48 + i % 10) ∷ bs) in if ltb i 10 then (48 + i) ∷ bs else more

pub cut_all : (n : ℕ) (bs : List ℕ) → length bs ≤ n → cut n bs ≡ bs
unfolding cut
cut_all zero [] h = refl
cut_all zero (b ∷ bs) h = ground arith
cut_all (suc n) [] h = refl
cut_all (suc n) (b ∷ bs) h = ap (λ r. b ∷ r) (cut_all n bs (omega arith))

-- The number that digits stand for, `a` being the value of those before.
abbrev pub undecimal : ℕ → List ℕ → ℕ
undecimal a [] = a
undecimal a (d ∷ ds) = undecimal (10 * a + (d - 48)) ds

pub undecimal-decimal :
    (n i : ℕ) (bs : List ℕ) → i < 10 ^ n → undecimal 0 (decimal n i bs) ≡ undecimal i bs
unfolding decimal
undecimal-decimal zero i bs h = ap (λ a. undecimal a bs) (omega arith)
undecimal-decimal (suc n) i bs h =
    if_cases (λ r. undecimal 0 r ≡ undecimal i bs) (ltb i 10)
      (λ _. ap (λ a. undecimal a bs) (omega arith))
      (λ e.
        undecimal-decimal n (i / 10) ((48 + i % 10) ∷ bs) (omega (arith, h))
        ∙ ap (λ a. undecimal a bs) (omega arith))

pub length-decimal : (n i : ℕ) (bs : List ℕ) → length (decimal n i bs) ≤ n + length bs
unfolding decimal
length-decimal zero i bs = omega arith
length-decimal (suc n) i bs =
    if_cases (λ r. length r ≤ suc n + length bs) (ltb i 10) {x = (48 + i) ∷ bs} (λ _. omega arith)
      (λ _. omega (arith, length-decimal n (i / 10) ((48 + i % 10) ∷ bs)))
