-- ===== src/Service/Tests/Pressures.antt =====
-- src/service/src/sysstate.c: a text of the pressure file is read.
use dynaswap.Base.{
  Option, none, ◌++◌, Bool, not, ◌&&◌, if◌then◌else◌, ℕ, ◌≡◌, refl, ◌==◌, true, false, List, [],
  ◌∷◌, some, arith,
}
use dynaswap.Service.Pressure.{Floats, PsiMetrics, read_psi}
use dynaswap.Service.Pressure.Printed.{printed, Plain, PrintsFloats, read_psi-printed}

-- Two numbers, which print as '0' and '1'.
abbrev digit_of : Bool → List ℕ
digit_of false = 48 ∷ []
digit_of true = 49 ∷ []

abbrev scan_bit : List ℕ → Option (Bool × List ℕ)
scan_bit [] = none
scan_bit (b ∷ bs) =
    if b == 48 then some (false, bs) else (if b == 49 then some (true, bs) else none)

abbrev two : Floats Bool
two = record {
  zero_float = false;
  scan_float = scan_bit;
  of_ulong = λ n. not (n == 0);
  one_minus_quotient = λ a b. not a;
  equal = λ a b. true;
  less = λ a b. not a && b;
  less_equal = λ a b. not a;
}

two-PrintsFloats : PrintsFloats two digit_of
two-PrintsFloats = record { reads = reads_back; plain = no_nul }
  where
    reads_back :
        (x : Bool) (rest : List ℕ) → scan_bit (digit_of x ++ 32 ∷ rest) ≡ some (x, 32 ∷ rest)
    reads_back false rest = refl
    reads_back true rest = refl

    no_nul : (x : Bool) → Plain (digit_of x)
    no_nul false = (refl, tt)
    no_nul true = (refl, tt)

abbrev bits : PsiMetrics Bool
bits = record {
  some_avg10 = true;
  some_avg60 = true;
  some_avg300 = false;
  full_avg10 = true;
  full_avg60 = false;
  full_avg300 = false;
}

read_psi-printed_example :
    read_psi two (some (printed digit_of bits (116 ∷ 10 ∷ []) (116 ∷ 10 ∷ []))) ≡ some bits
read_psi-printed_example =
    read_psi-printed two digit_of two-PrintsFloats bits (116 ∷ 10 ∷ []) (116 ∷ 10 ∷ [])
      (refl, (refl, tt)) (refl, (refl, tt)) (omega arith)
