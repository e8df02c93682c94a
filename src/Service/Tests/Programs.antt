-- ===== src/Service/Tests/Programs.antt =====
-- src/service/src/dynaswap.c: the program from its arguments on.
use dynaswap.Base.{cut, ℕ, ℤ, ◌≡◌, ◌↔◌, refl, true, List, [], ◌∷◌, some, none, pos, neg}
use dynaswap.Service.Config.{
  Settings, read_config, parse_config, validate_config, parse_size_string, skip_space, multiplier,
  is_valid, set_tested,
}
use dynaswap.Service.Swap.{Outcome, allocate_swap, add_chunk, next_chunk, no_swap}
use dynaswap.Service.Swap.Stack.{state_of}
use dynaswap.Service.Mkswap.{mkswap, mkswap_get_last_page}
use dynaswap.Service.Pressure.{init_psi}
use dynaswap.Service.Monitor.{Sample}
use dynaswap.Service.Start.{
  Environment, Or, goes_on, quits, crashes, Started, closed_psi, config_file, help, invalid,
  parse_args, read_args, init_dynaswap, start_up, main,
}
use dynaswap.Service.Start.Init.{Accepts, Enters, init_dynaswap_iff}
use dynaswap.Service.Start.Program.{main_no_psi, stopped}
use dynaswap.Service.Tests.{
  dir, answers, granted, percent, strained_sample, relaxed_sample, numbers, defaults,
}
use dynaswap.Service.Tests

-- An integer as a number.
abbrev of_longlong : ℤ → ℕ
of_longlong (pos n) = n
of_longlong _ = 0

-- The arguments "-c /x -c /s", with one configuration file for all paths.
abbrev env : Environment ℕ
env = record {
  uid = 0;
  options = config_file (47 ∷ 120 ∷ []) ∷ config_file (47 ∷ 115 ∷ []) ∷ [];
  can_read = λ path. true;
  config = λ path. some Tests.config_file;
  is_dir = λ path. true;
  psi_open = pos 3;
  psi_write = pos 19;
  answers = answers;
}

-- The pressure file cannot be opened.
abbrev closed : Environment ℕ
closed = record env { psi_open = neg 2 }

abbrev ended : Environment ℕ → List Sample → Or Outcome
ended e xs = main percent numbers of_longlong e defaults granted xs

abbrev outcome_of : Or Outcome → Outcome
outcome_of (goes_on o) = o
outcome_of (quits n) = Outcome.running (no_swap answers)
outcome_of crashes = Outcome.running (no_swap answers)

help_exits : parse_args (config_file dir ∷ help ∷ invalid ∷ []) none ≡ quits 0
unfolding parse_args
help_exits = refl

-- What the loop is entered with.
abbrev started : Started ℕ
started = record {
  settings = record defaults { set_path = dir };
  psi = init_psi (pos 3) (pos 19) closed_psi;
  swap = state_of (allocate_swap dir granted (no_swap answers));
}

init_dynaswap_iff_example :
    (init_dynaswap percent numbers of_longlong env defaults granted ≡ goes_on started)
    ↔ Enters percent numbers of_longlong env defaults granted started
init_dynaswap_iff_example =
    init_dynaswap_iff percent numbers of_longlong env defaults granted started

-- The loop is entered.
started-entered : init_dynaswap percent numbers of_longlong env defaults granted ≡ goes_on started
unfolding init_dynaswap read_args parse_args start_up init_psi read_config parse_config
    validate_config parse_size_string skip_space multiplier is_valid set_tested allocate_swap
    add_chunk next_chunk mkswap mkswap_get_last_page cut
started-entered = refl

-- A file for the first chunk with no page to mark: the program exits and enters no loop.
no_page_exits :
    init_dynaswap percent numbers of_longlong env defaults (record granted { size = 1000 })
    ≡ quits 1
unfolding init_dynaswap read_args parse_args start_up init_psi read_config parse_config
    validate_config parse_size_string skip_space multiplier is_valid set_tested allocate_swap
    add_chunk next_chunk mkswap mkswap_get_last_page
no_page_exits = refl

goes : ended env (strained_sample ∷ []) ≡ goes_on (outcome_of (ended env (strained_sample ∷ [])))
unfolding main init_dynaswap read_args parse_args start_up init_psi read_config parse_config
    validate_config parse_size_string skip_space multiplier is_valid set_tested allocate_swap
    add_chunk next_chunk mkswap mkswap_get_last_page cut
goes = refl

closed_goes :
    ended closed (relaxed_sample ∷ []) ≡ goes_on (outcome_of (ended closed (relaxed_sample ∷ [])))
unfolding main init_dynaswap read_args parse_args start_up init_psi read_config parse_config
    validate_config parse_size_string skip_space multiplier is_valid set_tested allocate_swap
    add_chunk next_chunk mkswap mkswap_get_last_page cut
closed_goes = refl

main_no_psi_example :
    (t : Settings ℕ) × Accepts percent numbers of_longlong closed defaults t
    × (outcome_of (ended closed (relaxed_sample ∷ []))
        ≡ stopped percent numbers of_longlong closed defaults
            (allocate_swap t.set_path granted (no_swap answers)))
main_no_psi_example =
    main_no_psi percent numbers of_longlong closed defaults granted relaxed_sample []
      (outcome_of (ended closed (relaxed_sample ∷ []))) refl closed_goes
