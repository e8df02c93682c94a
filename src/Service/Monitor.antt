-- ===== src/Service/Monitor.antt =====
-- src/service/src/dynaswap.c: when swap is added and given back, with what
-- src/service/src/sysstate.c tells of the system.
pub mod Kept
use dynaswap.Base.{
  ℕ, ℤ, Bool, true, false, not, ◌&&◌, ◌||◌, List, [], ◌∷◌, Option, none, some, if◌then◌else◌,
  is_neg, ◌==◌,
}
use dynaswap.Service.Pressure.{Floats, PsiMetrics, read_psi}
use dynaswap.Service.Swap.{
  Chunk, Release, Swap, no_swap, Outcome, running, exited, crashed, Grants, allocate_swap,
  free_swap, free_dynamic_swap,
}

-- `enum PSIPollStatus`
pub data PsiPollStatus : Type 0 where
  strained relaxed : PsiPollStatus

-- SWAP_FULL_THRESHOLD and SWAP_FREE_THRESHOLD, and the stress values as floating point.
pub record Thresholds (F : Type 0) : Type 0 where
  pub swap_full : F
  pub swap_free : F
  pub psi_some : F
  pub psi_full : F

-- One round's answers of the system: what `poll` returns, with two bits of `revents`; what
-- the pressure file holds, or `none` if it cannot be read; the two figures of the swap,
-- `none` where `procps_meminfo_get` gives NULL, as it does without a handle; and what an allocation is given.
pub record Sample : Type 0 where
  pub poll : ℤ
  pub pollerr : Bool
  pub pollpri : Bool
  pub pressure : Option (List ℕ)
  pub swap_total : Option ℕ
  pub swap_free : Option ℕ
  pub grants : Grants

module _ {F : Type 0} (fl : Floats F) (th : Thresholds F) (dir : List ℕ) where
  abbrev pub share_in_use : Option ℕ → Option ℕ → Option F
  share_in_use none swap_free = none
  share_in_use (some total_swap) none = none
  share_in_use (some total_swap) (some swap_free) =
      some (fl.one_minus_quotient (fl.of_ulong swap_free) (fl.of_ulong total_swap))

  -- `none`: a null pointer is followed.
  unfoldable pub poll_swap_usage : Sample → Option F
  poll_swap_usage x = share_in_use x.swap_total x.swap_free

  -- `none`: the program exits.
  unfoldable pub poll_psi : Sample → Option PsiPollStatus
  poll_psi x =
      if is_neg x.poll || x.pollerr
      then none
      else (if x.pollpri then some strained else some relaxed)

  -- The test of `alloc_dynaswap`.
  abbrev pub has_room : F → Bool
  has_room swap_usage = fl.equal swap_usage swap_usage && fl.less swap_usage th.swap_full

  unfoldable pub alloc_dynaswap : Sample → Swap → Outcome
  alloc_dynaswap x s = elim (poll_swap_usage x) [
    | none ↦ crashed s
    | some swap_usage ↦ if has_room swap_usage then running s else allocate_swap dir x.grants s
  ]

  -- The second and the third test of `free_dynaswap`.
  abbrev pub is_stressed : PsiMetrics F → Bool
  is_stressed metrics =
      fl.less_equal th.psi_some metrics.some_avg60 || fl.less_equal th.psi_full metrics.full_avg60

  abbrev pub is_in_use : F → Bool
  is_in_use swap_usage = not (fl.equal swap_usage swap_usage) || fl.less th.swap_free swap_usage

  -- `free_dynaswap` once the newest chunk is read.
  unfoldable pub free_tests : Chunk → PsiMetrics F → Sample → Swap → Outcome
  free_tests newest metrics x s =
      let last : Outcome = elim (poll_swap_usage x) [
        | none ↦ crashed s
        | some swap_usage ↦ running (if is_in_use swap_usage then s else free_swap s)
      ] in
      if newest.chunk_number == 0
      then running s
      else (if is_stressed metrics then running s else last)

  -- `prog_swap->chunk_number` is read without a test of the pointer.
  unfoldable pub free_dynaswap : List Chunk → PsiMetrics F → Sample → Swap → Outcome
  free_dynaswap [] metrics x s = crashed s
  free_dynaswap (newest ∷ _) metrics x s = free_tests newest metrics x s

  unfoldable pub dispatch : PsiPollStatus → PsiMetrics F → Sample → Swap → Outcome
  dispatch strained metrics x s = alloc_dynaswap x s
  dispatch relaxed metrics x s = free_dynaswap s.prog_swap metrics x s

  -- One round.
  unfoldable pub dynaswap_round : Sample → Swap → Outcome
  dynaswap_round x s = elim (poll_psi x) [
    | none ↦ exited s
    | some status ↦ elim (read_psi fl x.pressure) [
      | none ↦ exited s
      | some metrics ↦ dispatch status metrics x s
    ]
  ]

  -- The loop of `main`, for the rounds that these samples come from.
  unfoldable pub main_loop : List (Sample) → Outcome → Outcome
  main_loop [] o = o
  main_loop (x ∷ xs) (running s) = main_loop xs (dynaswap_round x s)
  main_loop (x ∷ xs) (exited s) = exited s
  main_loop (x ∷ xs) (crashed s) = crashed s

  -- `init_dynamic_swap`, then the loop.
  unfoldable pub serve : (ℕ → Release) → Grants → List (Sample) → Outcome
  serve answers g xs = main_loop xs (allocate_swap dir g (no_swap answers))

-- `takedown_dynaswap`, less what it gives back of the process's own memory.
unfoldable pub takedown_dynaswap : Swap → Swap
takedown_dynaswap s = free_dynamic_swap s
