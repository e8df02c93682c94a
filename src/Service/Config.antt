-- ===== src/Service/Config.antt =====
-- src/service/src/config.c: the configuration file, once libconfig has read it.
pub mod Accepted
pub mod Sizes
pub mod Taken
use dynaswap.Base.{
  ℕ, ◌+◌, ◌*◌, ◌^◌, ℤ, pos, Bool, true, false, ◌&&◌, ◌||◌, List, [], ◌∷◌, Option, none, some,
  if◌then◌else◌, ◌==◌, ltb_int,
}

-- What the code uses of floating point: `strtod`, with the rest of the text, `none` if nothing was
-- read or the number is out of range; `(unsigned long long)(x * n)`; and two comparisons.
pub record Numbers (F : Type 0) : Type 0 where
  pub strtod : List ℕ → Option (F × List ℕ)
  pub scaled : F → ℕ → ℕ
  pub above_zero : F → Bool
  pub at_most_one : F → Bool

-- The six keys of the file, `none` where the lookup fails.
pub record ConfigFile (F : Type 0) : Type 0 where
  pub swap_path_key : Option (List ℕ)
  pub swap_part_size_key : Option (List ℕ)
  pub swap_full_threshold_key : Option F
  pub swap_free_threshold_key : Option F
  pub psi_some_stress_key : Option ℤ
  pub psi_full_stress_key : Option ℤ

-- `struct ConfigList`
pub record ConfigList (F : Type 0) : Type 0 where
  pub swap_full_threshold : F
  pub swap_free_threshold : F
  pub psi_some_stress : ℤ
  pub psi_full_stress : ℤ
  pub swap_path : List ℕ
  pub swap_size : List ℕ

-- The global variables that the configuration sets.
pub record Settings (F : Type 0) : Type 0 where
  pub set_full_threshold : F
  pub set_free_threshold : F
  pub set_some_stress : ℤ
  pub set_full_stress : ℤ
  pub set_path : List ℕ
  pub set_size : ℕ

-- `none` stands for `exit(EXIT_FAILURE)`.
infixl 10 ◌>>=◌
abbrev pub ◌>>=◌ {ℓ κ} : {A : Type ℓ} {B : Type κ} → Option A → (A → Option B) → Option B
none >>= f = none
some a >>= f = f a

-- ' ', '\t', '\n', '\r', '\v' and '\f'.
abbrev pub is_space : ℕ → Bool
is_space c = (c == 32) || (c == 9) || (c == 10) || (c == 13) || (c == 11) || (c == 12)

unfoldable pub skip_space : List ℕ → List ℕ
skip_space [] = []
skip_space (c ∷ cs) = let rest = skip_space cs in if is_space c then rest else c ∷ cs

-- The switch over the suffix: 'G' or 'g', 'M' or 'm', 'K' or 'k'. `none`: the program exits.
unfoldable pub multiplier : List ℕ → Option ℕ
multiplier [] = none
multiplier (c ∷ cs) =
    if (c == 71) || (c == 103)
    then some (1024 * 1024 * 1024)
    else (if (c == 77) || (c == 109)
        then some (1024 * 1024)
        else (if (c == 75) || (c == 107) then some 1024 else none))

module _ {F : Type 0} (fl : Numbers F) (is_dir : List ℕ → Bool) where
  unfoldable pub parse_size_string : List ℕ → Option ℕ
  parse_size_string str = do
    (num, end) ← fl.strtod str
    n ← multiplier (skip_space end)
    some (fl.scaled num n)

  -- In the order of the code; a key that is missing makes the program exit.
  unfoldable pub parse_config : ConfigFile F → Option (ConfigList F)
  parse_config f = do
    path ← f.swap_path_key
    size ← f.swap_part_size_key
    full ← f.swap_full_threshold_key
    free ← f.swap_free_threshold_key
    some_stress ← f.psi_some_stress_key
    full_stress ← f.psi_full_stress_key
    some (record {
      swap_full_threshold = full;
      swap_free_threshold = free;
      psi_some_stress = some_stress;
      psi_full_stress = full_stress;
      swap_path = path;
      swap_size = size;
    })

  -- The tests of `validate_config`.
  abbrev pub in_range : F → Bool
  in_range x = fl.above_zero x && fl.at_most_one x

  abbrev pub has_stress : ConfigList F → Bool
  has_stress c = ltb_int (pos 0) c.psi_some_stress && ltb_int (pos 0) c.psi_full_stress

  -- A variable is set where its test passes, whatever becomes of the others.
  unfoldable pub set_tested : ConfigList F → Settings F → Settings F
  set_tested c t = record {
    set_full_threshold =
        if in_range c.swap_full_threshold then c.swap_full_threshold else t.set_full_threshold;
    set_free_threshold =
        if in_range c.swap_free_threshold then c.swap_free_threshold else t.set_free_threshold;
    set_some_stress = if has_stress c then c.psi_some_stress else t.set_some_stress;
    set_full_stress = if has_stress c then c.psi_full_stress else t.set_full_stress;
    set_path = if is_dir c.swap_path then c.swap_path else t.set_path;
    set_size = t.set_size;
  }

  unfoldable pub is_valid : ConfigList F → Bool
  is_valid c =
      in_range c.swap_full_threshold
      && in_range c.swap_free_threshold
      && has_stress c
      && is_dir c.swap_path

  unfoldable pub validate_config : ConfigList F → Settings F → Option (Bool × Settings F)
  validate_config c t = do
    size ← parse_size_string c.swap_size
    some (is_valid c, record (set_tested c t) { set_size = size })

  unfoldable pub read_config : ConfigFile F → Settings F → Option (Settings F)
  read_config f t = do
    c ← parse_config f
    (valid, u) ← validate_config c t
    if valid then some u else none
