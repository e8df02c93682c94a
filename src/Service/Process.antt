-- ===== src/Service/Process.antt =====
-- What the service of src/service/src holds of the system besides its chunks of swap: the strings of
-- config.c, and the handle and the descriptor of sysstate.c; and that it gives them back.
use dynaswap.Base.{
  ℕ, suc, ◌+◌, ◌-◌, ◌<◌, ◌≡◌, ◌∙◌, not, ◌||◌, ◌==◌, ℤ, Bool, true, false, List, [], ◌∷◌, arith,
  if◌then◌else◌, is_neg, add_ulong, Option, some,
}
use dynaswap.Service.Config.{◌>>=◌}
use dynaswap.Service.Pressure.{Floats, PsiState, init_psi}
use dynaswap.Service.Swap.{Swap}
use dynaswap.Service.Monitor.{takedown_dynaswap}
use dynaswap.Service.Start.{Opt, config_file, help, invalid, closed_psi}

-- The figures of the memory, in an `unsigned long` each, `none` where `procps_meminfo_get` gives NULL.
pub record Figures : Type 0 where
  pub mem_total : Option ℕ
  pub swap_total : Option ℕ
  pub mem_available : Option ℕ
  pub swap_free : Option ℕ

abbrev pub add_figures : Option ℕ → Option ℕ → Option ℕ
add_figures a b = do m ← a; n ← b; some (add_ulong m n)

-- The share of memory and swap together that is in use, `none` where a null pointer is followed.
-- Nothing calls it.
unfoldable pub poll_mem_usage : {F : Type 0} → Floats F → Figures → Option F
poll_mem_usage fl x = do
  total_vram ← add_figures x.mem_total x.swap_total
  vram_used ← add_figures x.mem_available x.swap_free
  some (fl.one_minus_quotient (fl.of_ulong vram_used) (fl.of_ulong total_vram))

-- Whether `meminfo` is set, the pressure file, how many descriptors are open, how many strings are
-- allocated, and whether `conf_file` and SWAP_PATH are among these.
pub record Held : Type 0 where
  pub meminfo : Bool
  pub psi : PsiState
  pub descriptors : ℕ
  pub strings : ℕ
  pub conf_file : Bool
  pub swap_path : Bool

abbrev pub nothing_held : Held
nothing_held = record {
  meminfo = false;
  psi = closed_psi;
  descriptors = 0;
  strings = 0;
  conf_file = false;
  swap_path = false;
}

-- The `strdup` of each option -c, whose string before is dropped.
unfoldable pub hold_args : List Opt → Held → Held
hold_args [] s = s
hold_args (config_file optarg ∷ opts) s =
    hold_args opts (record s { strings = suc s.strings; conf_file = true })
hold_args (help ∷ opts) s = hold_args opts s
hold_args (invalid ∷ opts) s = hold_args opts s

-- The strings of a configuration that was taken, of which the path stays in SWAP_PATH.
unfoldable pub hold_config : Held → Held
hold_config s = record s { strings = s.strings + 2; swap_path = true }

-- `granted` tells whether `procps_meminfo_new` made a handle.
unfoldable pub init_direct_memory : Bool → Held → Held
init_direct_memory granted s = if granted then record s { meminfo = true } else s

-- A file that opens takes a descriptor.
unfoldable pub hold_psi : ℤ → ℤ → Held → Held
hold_psi open_result write_result s = record s {
  psi = init_psi open_result write_result s.psi;
  descriptors = if is_neg open_result then s.descriptors else suc s.descriptors;
}

-- `procps_meminfo_unref` clears the pointer, and refuses one that is not set.
unfoldable pub free_direct_memory : Held → Held
free_direct_memory s = record s { meminfo = false }

-- `close` refuses a negative descriptor.
unfoldable pub free_psi : Held → Held
free_psi s = if is_neg s.psi.fd then s else record s { descriptors = s.descriptors - 1 }

unfoldable pub free_config : Held → Held
free_config s = if s.swap_path then record s { strings = s.strings - 1; swap_path = false } else s

unfoldable pub free_args : Held → Held
free_args s = if s.conf_file then record s { strings = s.strings - 1; conf_file = false } else s

-- All of `takedown_dynaswap`, with the chunks.
unfoldable pub takedown : Held → Swap → Held × Swap
takedown h s = (free_args (free_config (free_psi (free_direct_memory h))), takedown_dynaswap s)

-- What the initialisation holds, once the arguments and the configuration were taken.
unfoldable pub hold_all : List Opt → Bool → ℤ → ℤ → Held
hold_all opts granted open_result write_result =
    hold_psi open_result write_result
      (init_direct_memory granted (hold_config (hold_args opts nothing_held)))

-- The options -c.
abbrev pub config_files : List Opt → ℕ
config_files [] = 0
config_files (config_file optarg ∷ opts) = suc (config_files opts)
config_files (help ∷ opts) = config_files opts
config_files (invalid ∷ opts) = config_files opts

hold_args_lem :
    (opts : List Opt) (s : Held)
    → hold_args opts s ≡ record s {
      strings = s.strings + config_files opts;
      conf_file = not (config_files opts == 0) || s.conf_file;
    }
unfolding hold_args
hold_args_lem [] s = ground arith
hold_args_lem (config_file optarg ∷ opts) s =
    hold_args_lem opts (record s { strings = suc s.strings; conf_file = true }) ∙ ground arith
hold_args_lem (help ∷ opts) s = hold_args_lem opts s
hold_args_lem (invalid ∷ opts) s = hold_args_lem opts s

-- After an initialisation that took its configuration, with at least one option -c, the takedown
-- gives back the handle, the descriptor where one was opened, the path and the last name of a
-- configuration file. As many strings stay as there are options -c: the names before the last one,
-- and the size.
pub takedown-hold_all :
    (opts : List Opt) (granted : Bool) (open_result write_result : ℤ) (s : Swap)
    → 0 < config_files opts
    → let h = (takedown (hold_all opts granted open_result write_result) s).0 in
      (h.meminfo ≡ false)
      × (h.descriptors ≡ 0)
      × (h.conf_file ≡ false)
      × (h.swap_path ≡ false)
      × (h.strings ≡ config_files opts)
unfolding takedown hold_all free_args free_config free_psi free_direct_memory hold_psi
    init_direct_memory hold_config init_psi
takedown-hold_all opts granted open_result write_result s some_c =
    rw (hold_args_lem opts nothing_held) (ground arith)
