-- ===== src/Service/Tests.antt =====
-- Runs of the service of src/service/src on small inputs.
mod Pressures
mod Interrupts
mod Programs
use dynaswap.Base.{
  cut, decimal, Option, none, ◌++◌, ◌%◌, ◌≤◌, Bool, not, ◌&&◌, if◌then◌else◌, length, ℕ, ◌+◌, ◌*◌,
  ◌/◌, ◌≡◌, ◌≢◌, refl, ◌-◌, ◌==◌, true, false, List, [], ◌∷◌, some, arith, ltb, leb, pos, neg,
}
use dynaswap.Service.Config.{
  Numbers, ConfigFile, Settings, read_config, parse_config, validate_config, parse_size_string,
  skip_space, multiplier, is_valid, set_tested,
}
use dynaswap.Service.Mkswap.{File, mkswap, mkswap_get_last_page, swap_signature}
use dynaswap.Service.Mkswap.Layout.{read, le32toh, mkswap_lem}
use dynaswap.Service.Swap.{
  Release, free_dynamic_swap, free_loop, free_swap, free_chunk, Swap, Outcome, running, crashed,
  Grants, swapon, make_file, chunk_path, allocate_swap, add_chunk, next_chunk,
}
use dynaswap.Service.Swap.Stack.{state_of, IsStack}
use dynaswap.Service.Swap.Ledger.{swapons, swapoffs, removes, on, failed_offs, Balanced}
use dynaswap.Service.Swap.Paths.{chunk_path_apart}
use dynaswap.Service.Pressure.{
  Floats, PsiMetrics, read_psi, read_text, read_some, read_full, sscanf, strstr, strip, until_nul,
  set_some, set_full,
}
use dynaswap.Service.Pressure.Printed.{printed, Plain, PrintsFloats, read_psi-printed}
use dynaswap.Service.Monitor.{
  Thresholds, Sample, serve, takedown_dynaswap, main_loop, dynaswap_round, poll_psi, dispatch,
  alloc_dynaswap, poll_swap_usage,
}
use dynaswap.Service.Monitor.Kept.{GivesMemory, GivesAll, Safe, serve-Safe, takedown_dynaswap_lem}

-- "/s"
abbrev pub dir : List ℕ
dir = 47 ∷ 115 ∷ []

abbrev uuid : List ℕ
uuid = 1 ∷ 2 ∷ 3 ∷ 4 ∷ 5 ∷ 6 ∷ 7 ∷ 8 ∷ 9 ∷ 10 ∷ 11 ∷ 12 ∷ 13 ∷ 14 ∷ 15 ∷ 16 ∷ []

-- A file of two pages, which can be turned on.
abbrev pub granted : Grants
granted = record {
  strdup = true;
  fopen = true;
  fstat = true;
  size = 8192;
  uuid = uuid;
  swapon_stat = pos 0;
  malloc = true;
}

-- The second release fails to turn its file off.
abbrev pub answers : ℕ → Release
answers n = record { swapoff_stat = if ltb n 5 then pos 0 else neg 1; rm_stat = pos 0 }

pub granted-GivesMemory : GivesMemory granted
granted-GivesMemory = record { file = refl; chunk = refl }

abbrev pub empty_file : File
empty_file = record { offset = 0; bytes = λ i. 0 }

-- Percentages of one digit in place of floating point.
-- One digit, or nothing.
abbrev scan_digit : List ℕ → Option (ℕ × List ℕ)
scan_digit [] = none
scan_digit (b ∷ bs) = if leb 48 b && ltb b 58 then some (b - 48, bs) else none

abbrev pub percent : Floats ℕ
percent = record {
  zero_float = 0;
  scan_float = scan_digit;
  of_ulong = λ n. n;
  one_minus_quotient = λ a b. 100 - (100 * a) / b;
  equal = λ a b. a == b;
  less = ltb;
  less_equal = leb;
}

-- "some avg10=9 avg60=8 avg300=7 t", a second line likewise.
abbrev metrics : PsiMetrics ℕ
metrics = record {
  some_avg10 = 9;
  some_avg60 = 8;
  some_avg300 = 7;
  full_avg10 = 3;
  full_avg60 = 2;
  full_avg300 = 1;
}

abbrev pressure_text : List ℕ
pressure_text = printed (λ x. (48 + x % 10) ∷ []) metrics (116 ∷ 10 ∷ []) (10 ∷ [])

abbrev thresholds : Thresholds ℕ
thresholds = record { swap_full = 50; swap_free = 50; psi_some = 10; psi_full = 15 }

abbrev pub strained_sample : Sample
strained_sample = record {
  poll = pos 1;
  pollerr = false;
  pollpri = true;
  pressure = some pressure_text;
  swap_total = some 100;
  swap_free = some 10;
  grants = granted;
}

pub strained-GivesAll : GivesAll strained_sample
strained-GivesAll = record {
  memory = granted-GivesMemory;
  total = λ e. ground arith;
  free = λ e. ground arith;
}

abbrev pub relaxed_sample : Sample
relaxed_sample = record strained_sample { pollpri = false }

abbrev pub path_zero : List ℕ
path_zero = chunk_path dir 0

-- One chunk, turned on.
abbrev pub one_chunk : Swap
one_chunk = record {
  prog_swap = record { chunk_number = 0; file_path = path_zero } ∷ [];
  calls = swapon path_zero true ∷ make_file path_zero empty_file ∷ [];
  answers = answers;
}

one_chunk-IsStack : IsStack dir one_chunk
one_chunk-IsStack = record { stacked = (refl, refl, tt); bounded = omega arith }

pub one_chunk-Balanced : Balanced one_chunk
one_chunk-Balanced = record {
  on_off = λ q. ground arith;
  removed = λ q. refl;
  most = λ q. ground arith;
  least = λ q. ground arith;
}

mkswap_lem_example :
    (f : File) × (mkswap true 8192 uuid empty_file ≡ some f)
    × (le32toh (read 4 1024 f.bytes) ≡ 1)
    × (le32toh (read 4 1028 f.bytes) + 1 ≡ 8192 / 4096)
    × (le32toh (read 4 1032 f.bytes) ≡ 0)
    × (read 16 1036 f.bytes ≡ uuid)
    × (read 10 4086 f.bytes ≡ swap_signature)
mkswap_lem_example = mkswap_lem 8192 uuid (λ i. 0) (omega arith) (omega arith) refl

-- A round under strain with swap in use: a second chunk.
abbrev served : Outcome
served = serve percent thresholds dir answers granted (strained_sample ∷ [])

served-running : served ≡ running (state_of served)
unfolding serve main_loop dynaswap_round poll_psi dispatch alloc_dynaswap poll_swap_usage
    allocate_swap add_chunk next_chunk mkswap mkswap_get_last_page read_psi read_text cut
served-running = refl

-- Without the figures a null pointer is followed in a round under strain.
no_figures :
    dynaswap_round percent thresholds dir (record strained_sample { swap_total = none }) one_chunk
    ≡ crashed one_chunk
unfolding dynaswap_round poll_psi dispatch alloc_dynaswap poll_swap_usage read_psi read_text cut
no_figures = refl

takedown_dynaswap_lem_example :
    let t = takedown_dynaswap (state_of served) in
    (t.prog_swap ≡ [])
    × ((q : List ℕ)
        → (swapoffs q t.calls ≡ swapons q t.calls)
          × (removes q t.calls ≡ swapons q t.calls)
          × (on q t.calls ≤ failed_offs q t.calls))
takedown_dynaswap_lem_example =
    takedown_dynaswap_lem percent thresholds dir answers granted (strained_sample ∷ [])
      (state_of served) granted-GivesMemory (strained-GivesAll, tt) served-running

-- The chunk on top is turned off, and the other one stays on.
one_stays_on :
    let t = takedown_dynaswap (state_of served) in
    (on (chunk_path dir 1) t.calls ≡ 0) × (on path_zero t.calls ≡ 1)
unfolding serve main_loop dynaswap_round poll_psi dispatch alloc_dynaswap poll_swap_usage
    allocate_swap add_chunk next_chunk mkswap mkswap_get_last_page read_psi read_text cut
    takedown_dynaswap free_dynamic_swap free_loop free_swap free_chunk chunk_path decimal
one_stays_on = (refl, refl)

-- "1 G" is the one size that these numbers can read.
abbrev pub numbers : Numbers ℕ
numbers = record {
  strtod = λ str. some (1, 32 ∷ 71 ∷ []);
  scaled = λ x n. x * n;
  above_zero = λ x. ltb 0 x;
  at_most_one = λ x. leb x 1;
}

abbrev pub config_file : ConfigFile ℕ
config_file = record {
  swap_path_key = some dir;
  swap_part_size_key = some (49 ∷ 32 ∷ 71 ∷ []);
  swap_full_threshold_key = some 1;
  swap_free_threshold_key = some 1;
  psi_some_stress_key = some (pos 10);
  psi_full_stress_key = some (pos 15);
}

abbrev pub defaults : Settings ℕ
defaults = record {
  set_full_threshold = 1;
  set_free_threshold = 1;
  set_some_stress = pos 10;
  set_full_stress = pos 15;
  set_path = [];
  set_size = 1073741824;
}

-- The file is taken.
config_file-taken :
    read_config numbers (λ path. true) config_file defaults
    ≡ some (record defaults { set_path = dir })
unfolding read_config parse_config validate_config parse_size_string skip_space multiplier is_valid
    set_tested
config_file-taken = refl
