-- ===== src/Service/Pressure.antt =====
-- src/service/src/sysstate.c: opening and reading /proc/pressure/memory.
pub mod Printed
use dynaswap.Base.{
  cut, ℕ, zero, suc, ℤ, pos, negsuc, Bool, true, false, List, [], ◌∷◌, ◌++◌, Option, none, some,
  if◌then◌else◌, is_neg, ◌==◌,
}
use dynaswap.Service.Config.{skip_space}

-- Floating point as the code uses it: 0, what `%f` reads from a text with the rest of it, the
-- conversion of an `unsigned long`, `1.0 - a / b`, and the comparisons, which are false where a side
-- is not a number.
pub record Floats (F : Type 0) : Type 0 where
  pub zero_float : F
  pub scan_float : List ℕ → Option (F × List ℕ)
  pub of_ulong : ℕ → F
  pub one_minus_quotient : F → F → F
  pub equal : F → F → Bool
  pub less : F → F → Bool
  pub less_equal : F → F → Bool

-- `struct PSIMetrics`
pub record PsiMetrics (F : Type 0) : Type 0 where
  pub some_avg10 : F
  pub some_avg60 : F
  pub some_avg300 : F
  pub full_avg10 : F
  pub full_avg60 : F
  pub full_avg300 : F

-- The text of an array of bytes.
unfoldable pub until_nul : List ℕ → List ℕ
until_nul [] = []
until_nul (b ∷ bs) = let rest = until_nul bs in if b == 0 then [] else b ∷ rest

-- The rest of a text that starts with `needle`.
unfoldable pub strip : List ℕ → List ℕ → Option (List ℕ)
strip [] text = some text
strip (c ∷ cs) [] = none
strip (c ∷ cs) (b ∷ bs) = let rest = strip cs bs in if c == b then rest else none

-- `strstr`
unfoldable pub strstr : List ℕ → List ℕ → Option (List ℕ)
strstr needle [] = elim (strip needle []) [ none ↦ none | some rest ↦ some [] ]
strstr needle (b ∷ bs) = elim (strip needle (b ∷ bs)) [
  | none ↦ strstr needle bs
  | some rest ↦ some (b ∷ bs)
]

-- The format of a `sscanf`: a byte, white space, and `%f`.
pub data Directive : Type 0 where
  byte : ℕ → Directive
  space float : Directive

abbrev pub bytes : List ℕ → List Directive → List Directive
bytes [] fs = fs
bytes (b ∷ bs) fs = byte b ∷ bytes bs fs

-- "some", "full", "avg10=", "avg60=" and "avg300="
abbrev pub some_word : List ℕ
some_word = 115 ∷ 111 ∷ 109 ∷ 101 ∷ []

abbrev pub full_word : List ℕ
full_word = 102 ∷ 117 ∷ 108 ∷ 108 ∷ []

abbrev pub avg10 : List ℕ
avg10 = 97 ∷ 118 ∷ 103 ∷ 49 ∷ 48 ∷ 61 ∷ []

abbrev pub avg60 : List ℕ
avg60 = 97 ∷ 118 ∷ 103 ∷ 54 ∷ 48 ∷ 61 ∷ []

abbrev pub avg300 : List ℕ
avg300 = 97 ∷ 118 ∷ 103 ∷ 51 ∷ 48 ∷ 48 ∷ 61 ∷ []

-- "%s avg10=%f avg60=%f avg300=%f", with `word` written out.
abbrev pub line_format : List ℕ → List Directive
line_format word =
    bytes word (
      space ∷ bytes avg10 (float ∷ space ∷ bytes avg60 (float ∷ space ∷ bytes avg300 (float ∷ []))))

module _ {F : Type 0} (fl : Floats F) where
  -- The values that `sscanf` stores, up to where the text does not match.
  unfoldable pub sscanf : List Directive → List ℕ → List F
  sscanf [] text = []
  sscanf (byte c ∷ fs) [] = []
  sscanf (byte c ∷ fs) (b ∷ bs) = let rest = sscanf fs bs in if c == b then rest else []
  sscanf (space ∷ fs) text = sscanf fs (skip_space text)
  sscanf (float ∷ fs) text = elim (fl.scan_float text) [
    | none ↦ []
    | some (x, rest) ↦ x ∷ sscanf fs rest
  ]

  -- The values go to the fields in their order; a line that does not match is only reported.
  unfoldable pub set_some : List F → PsiMetrics F → PsiMetrics F
  set_some [] m = m
  set_some (x ∷ []) m = record m { some_avg10 = x }
  set_some (x ∷ y ∷ []) m = record m { some_avg10 = x; some_avg60 = y }
  set_some (x ∷ y ∷ z ∷ _) m = record m { some_avg10 = x; some_avg60 = y; some_avg300 = z }

  unfoldable pub set_full : List F → PsiMetrics F → PsiMetrics F
  set_full [] m = m
  set_full (x ∷ []) m = record m { full_avg10 = x }
  set_full (x ∷ y ∷ []) m = record m { full_avg10 = x; full_avg60 = y }
  set_full (x ∷ y ∷ z ∷ _) m = record m { full_avg10 = x; full_avg60 = y; full_avg300 = z }

  -- `PSIMetrics metrics = {0}`
  abbrev pub no_metrics : PsiMetrics F
  no_metrics = record {
    some_avg10 = fl.zero_float;
    some_avg60 = fl.zero_float;
    some_avg300 = fl.zero_float;
    full_avg10 = fl.zero_float;
    full_avg60 = fl.zero_float;
    full_avg300 = fl.zero_float;
  }

  unfoldable pub read_some : List ℕ → PsiMetrics F → PsiMetrics F
  read_some buf m = elim (strstr some_word buf) [
    | none ↦ m
    | some line ↦ set_some (sscanf (line_format some_word) line) m
  ]

  unfoldable pub read_full : List ℕ → PsiMetrics F → PsiMetrics F
  read_full buf m = elim (strstr full_word buf) [
    | none ↦ m
    | some line ↦ set_full (sscanf (line_format full_word) line) m
  ]

  -- `file` is what the file holds, `none` if it cannot be read; at most 255 bytes are read. Where
  -- none are, the program exits, which is `none`.
  unfoldable pub read_text : List ℕ → Option (PsiMetrics F)
  read_text [] = none
  read_text (b ∷ bs) =
      let buf = until_nul (b ∷ bs) in some (read_full buf (read_some buf no_metrics))

  unfoldable pub read_psi : Option (List ℕ) → Option (PsiMetrics F)
  read_psi none = none
  read_psi (some file) = read_text (cut 255 file)

-- `init_psi`: the file descriptor, or the error; and whether the trigger was written. An error is
-- only printed.
pub record PsiState : Type 0 where
  pub fd : ℤ
  pub events : Bool
  pub trigger : Bool

unfoldable pub init_psi : ℤ → ℤ → PsiState → PsiState
init_psi open_result write_result s =
    if is_neg open_result then record s { fd = open_result } else record s {
      fd = open_result;
      events = true;
      trigger = if is_neg write_result then s.trigger else true;
    }
