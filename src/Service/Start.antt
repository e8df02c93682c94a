-- ===== src/Service/Start.antt =====
-- src/service/src/dynaswap.c as a whole, with the command line of src/service/src/config.c: from
-- the arguments to the loop.
pub mod Init
pub mod Program
use dynaswap.Base.{
  ℕ, zero, suc, ℤ, pos, Bool, true, false, not, List, [], ◌∷◌, Option, none, some, map,
  if◌then◌else◌, is_neg, ◌==◌,
}
use dynaswap.Service.Config.{Numbers, ConfigFile, Settings, read_config}
use dynaswap.Service.Pressure.{Floats, PsiState, init_psi}
use dynaswap.Service.Swap.{
  Release, Swap, no_swap, Outcome, running, exited, crashed, Grants, allocate_swap,
}
use dynaswap.Service.Monitor.{Thresholds, Sample, main_loop}

-- What `getopt_long` gives, in the order of the arguments.
pub data Opt : Type 0 where
  config_file : List ℕ → Opt
  help invalid : Opt

abbrev pub exit_success : ℕ
exit_success = 0

abbrev pub exit_failure : ℕ
exit_failure = 1

-- What comes of a part of the program that may exit or follow a null pointer.
pub data Or (A : Type 0) : Type 0 where
  quits : ℕ → Or A
  crashes : Or A
  goes_on : A → Or A

-- The loop over the options; `conf_file` is that of `prog_args`.
unfoldable pub parse_args : List Opt → Option (List ℕ) → Or (List ℕ)
parse_args [] none = quits exit_failure
parse_args [] (some conf_file) = goes_on conf_file
parse_args (config_file optarg ∷ opts) conf_file = parse_args opts (some optarg)
parse_args (help ∷ opts) conf_file = quits exit_success
parse_args (invalid ∷ opts) conf_file = quits exit_failure

-- `can_read` is the answer of `access`.
abbrev pub validated : (List ℕ → Bool) → Or (List ℕ) → Or (List ℕ)
validated can_read (quits n) = quits n
validated can_read crashes = crashes
validated can_read (goes_on conf_file) =
    if can_read conf_file then goes_on conf_file else quits exit_failure

unfoldable pub read_args : (List ℕ → Bool) → List Opt → Or (List ℕ)
read_args can_read opts = validated can_read (parse_args opts none)

-- The service's surroundings: the user, the arguments, which files can be read, what libconfig
-- finds in them (`none` if it fails), which paths are directories, the pressure file's descriptor
-- and whether its trigger can be written, and what swapoff and remove return.
pub record Environment (F : Type 0) : Type 0 where
  pub uid : ℕ
  pub options : List Opt
  pub can_read : List ℕ → Bool
  pub config : List ℕ → Option (ConfigFile F)
  pub is_dir : List ℕ → Bool
  pub psi_open : ℤ
  pub psi_write : ℤ
  pub answers : ℕ → Release

-- What the program has when it enters the loop.
pub record Started (F : Type 0) : Type 0 where
  pub settings : Settings F
  pub psi : PsiState
  pub swap : Swap

abbrev pub closed_psi : PsiState
closed_psi = record { fd = pos 0; events = false; trigger = false }

module _ {F : Type 0} (fl : Floats F) (nb : Numbers F) (of_longlong : ℤ → F) (e : Environment F)
    (defaults : Settings F) where
  -- libconfig, then `read_config`.
  abbrev pub configured : List ℕ → Option (Settings F)
  configured path = elim (e.config path) [
    | none ↦ none
    | some file ↦ read_config nb e.is_dir file defaults
  ]

  -- The first chunk may end the program.
  abbrev pub entered : Settings F → PsiState → Outcome → Or (Started F)
  entered t psi (running s) = goes_on (record { settings = t; psi = psi; swap = s })
  entered t psi (exited s) = quits exit_failure
  entered t psi (crashed s) = crashes

  -- The initialisation once the settings are made.
  unfoldable pub start_up : Grants → Settings F → Or (Started F)
  start_up g t =
      entered t (init_psi e.psi_open e.psi_write closed_psi)
        (allocate_swap t.set_path g (no_swap e.answers))

  abbrev pub or_exit : Grants → Option (Settings F) → Or (Started F)
  or_exit g none = quits exit_failure
  or_exit g (some t) = start_up g t

  abbrev pub with_args : Grants → Or (List ℕ) → Or (Started F)
  with_args g (quits n) = quits n
  with_args g crashes = crashes
  with_args g (goes_on path) = or_exit g (configured path)

  unfoldable pub init_dynaswap : Grants → Or (Started F)
  init_dynaswap g =
      let rest = with_args g (read_args e.can_read e.options) in
      if not (e.uid == 0) then quits exit_failure else rest

  abbrev pub thresholds_of : Settings F → Thresholds F
  thresholds_of t = record {
    swap_full = t.set_full_threshold;
    swap_free = t.set_free_threshold;
    psi_some = of_longlong t.set_some_stress;
    psi_full = of_longlong t.set_full_stress;
  }

  -- `poll` passes over a negative descriptor, and `read` refuses it.
  abbrev pub through : ℤ → Sample → Sample
  through fd x =
      if is_neg fd then record x { pollerr = false; pollpri = false; pressure = none } else x

  abbrev pub run : List Sample → Or (Started F) → Or Outcome
  run xs (quits n) = quits n
  run xs crashes = crashes
  run xs (goes_on s) = goes_on (
      main_loop fl (thresholds_of s.settings) s.settings.set_path (map (through s.psi.fd) xs)
        (running s.swap))

  -- `main`, with what the system answers in the rounds of its loop.
  unfoldable pub main : Grants → List Sample → Or Outcome
  main g xs = run xs (init_dynaswap g)
