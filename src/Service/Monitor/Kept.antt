-- ===== src/Service/Monitor/Kept.antt =====
-- What the loop of src/service/src/dynaswap.c keeps.
use dynaswap.Base.{
  ℕ, ◌≤◌, ◌≡◌, ◌≢◌, refl, sym, ap, subst, true, ◌&&◌, List, [], ◌∷◌, Option, none, some, arith,
  length, ◌==◌, if_cases, if◌then◌else◌, All, ==→ne,
}
use dynaswap.Service.Swap.{
  Chunk, Release, Swap, no_swap, Outcome, running, exited, crashed, Grants, allocate_swap,
  free_swap, free_chunk,
}
use dynaswap.Service.Swap.Stack.{Stacked, IsStack, allocate_cases, free_swap-IsStack}
use dynaswap.Service.Swap.Ledger.{
  swapons, swapoffs, removes, on, failed_offs, Balanced, no_swap-Balanced, pushed-Balanced,
  free_swap-Balanced, free_dynamic_swap_lem,
}
use dynaswap.Service.Pressure.{Floats, PsiMetrics, read_psi}
use dynaswap.Service.Monitor.{
  Thresholds, Sample, PsiPollStatus, strained, relaxed, alloc_dynaswap, share_in_use,
  poll_swap_usage, free_tests, free_dynaswap, has_room, is_stressed, is_in_use, dispatch,
  dynaswap_round, poll_psi, main_loop, serve, takedown_dynaswap,
}

-- No null pointer comes out of these grants.
pub record GivesMemory (g : Grants) : Type 0 where
  pub file : (g.strdup && g.fopen) ≡ true
  pub chunk : g.malloc ≡ true

-- Nor of a round: there is memory for an allocation, and both figures of the swap are there.
pub record GivesAll (x : Sample) : Type 0 where
  pub memory : GivesMemory x.grants
  pub total : x.swap_total ≢ none
  pub free : x.swap_free ≢ none

-- Chunk 0 is there, the chunks are in order, and the calls are balanced.
pub record IsKept (dir : List ℕ) (s : Swap) : Type 0 where
  pub stack : IsStack dir s
  pub balanced : Balanced s
  pub some_chunk : 1 ≤ length s.prog_swap

-- No null pointer was followed; a service that runs has its chunks.
abbrev pub Safe : List ℕ → Outcome → Type 0
Safe dir (running s) = IsKept dir s
Safe dir (exited s) = IsStack dir s × Balanced s
Safe dir (crashed s) = ⊥

pub allocate_swap-Safe :
    (dir : List ℕ) (g : Grants) (s : Swap)
    → GivesMemory g
    → IsStack dir s
    → Balanced s
    → Safe dir (allocate_swap dir g s)
allocate_swap-Safe dir g s m st b =
    allocate_cases (Safe dir) dir g s st.stacked
      (λ full. record { stack = st; balanced = b; some_chunk = omega arith }) (st, b)
      (λ e. ground (arith, m.file)) (λ file e. ground (arith, m.chunk))
      (λ file below. record {
        stack = record { stacked = (refl, refl, st.stacked); bounded = omega arith };
        balanced = pushed-Balanced _ _ file _ s b;
        some_chunk = omega arith;
      })

free_swap-IsKept :
    (dir : List ℕ) (c : Chunk) (cs : List Chunk) (s : Swap)
    → s.prog_swap ≡ c ∷ cs
    → c.chunk_number ≢ 0
    → IsKept dir s
    → IsKept dir (free_swap s)
unfolding free_swap free_chunk
free_swap-IsKept dir c cs s e n h = record {
  stack = free_swap-IsStack dir s h.stack;
  balanced = free_swap-Balanced s h.balanced;
  some_chunk =
      subst (λ l. 1 ≤ length (free_chunk l s).prog_swap) (sym e)
        (left (subst (Stacked dir) e h.stack.stacked).0);
}
  where
    left : c.chunk_number ≡ length cs → 1 ≤ length (free_chunk (c ∷ cs) s).prog_swap
    left q = omega (arith, q, n)

module _ {F : Type 0} (fl : Floats F) (th : Thresholds F) (dir : List ℕ) where
  -- The share of the swap in use is known, if both figures are.
  share_given :
      (total free : Option ℕ)
      → total ≢ none
      → free ≢ none
      → share_in_use fl th dir total free ≢ none
  share_given none free t f e = t refl
  share_given (some total) none t f e = f refl
  share_given (some total) (some free) t f e = ground arith

  poll_swap_usage_given : (x : Sample) → GivesAll x → poll_swap_usage fl th dir x ≢ none
  unfolding poll_swap_usage
  poll_swap_usage_given x m = share_given x.swap_total x.swap_free m.total m.free

  -- Only a chunk with another below it is freed.
  free_tests-Safe :
      (c : Chunk) (cs : List Chunk) (metrics : PsiMetrics F) (x : Sample) (s : Swap)
      → s.prog_swap ≡ c ∷ cs
      → GivesAll x
      → IsKept dir s
      → Safe dir (free_tests fl th dir c metrics x s)
  unfolding free_tests
  free_tests-Safe c cs metrics x s e m h =
      if_cases (Safe dir) (c.chunk_number == 0) (λ _. h)
        (λ above.
          if_cases (Safe dir) (is_stressed fl th dir metrics) (λ _. h)
            (λ _.
              by_usage (==→ne c.chunk_number 0 above) (poll_swap_usage fl th dir x)
                (poll_swap_usage_given x m)))
    where
      by_usage :
          c.chunk_number ≢ 0
          → (o : Option F) → o ≢ none
          → Safe dir (elim o [
            | none ↦ crashed s
            | some swap_usage ↦ running (if is_in_use fl th dir swap_usage then s else free_swap s)
          ])
      by_usage above none given = given refl
      by_usage above (some swap_usage) given =
          if_cases (IsKept dir) (is_in_use fl th dir swap_usage) (λ _. h)
            (λ _. free_swap-IsKept dir c cs s e above h)

  free_dynaswap-Safe :
      (cs : List Chunk) (metrics : PsiMetrics F) (x : Sample) (s : Swap)
      → s.prog_swap ≡ cs
      → GivesAll x
      → IsKept dir s
      → Safe dir (free_dynaswap fl th dir cs metrics x s)
  unfolding free_dynaswap
  free_dynaswap-Safe [] metrics x s e m h = omega (arith, ap length e, h.some_chunk)
  free_dynaswap-Safe (c ∷ cs) metrics x s e m h = free_tests-Safe c cs metrics x s e m h

  dispatch-Safe :
      (status : PsiPollStatus) (metrics : PsiMetrics F) (x : Sample) (s : Swap)
      → GivesAll x
      → IsKept dir s
      → Safe dir (dispatch fl th dir status metrics x s)
  unfolding dispatch alloc_dynaswap
  dispatch-Safe strained metrics x s m h =
      by_usage (poll_swap_usage fl th dir x) (poll_swap_usage_given x m)
    where
      by_usage :
          (o : Option F)
          → o ≢ none
          → Safe dir (elim o [
            | none ↦ crashed s
            | some swap_usage ↦
                if has_room fl th dir swap_usage then running s else allocate_swap dir x.grants s
          ])
      by_usage none given = given refl
      by_usage (some swap_usage) given =
          if_cases (Safe dir) (has_room fl th dir swap_usage) (λ _. h)
            (λ _. allocate_swap-Safe dir x.grants s m.memory h.stack h.balanced)
  dispatch-Safe relaxed metrics x s m h = free_dynaswap-Safe s.prog_swap metrics x s refl m h

  pub dynaswap_round-Safe :
      (x : Sample) (s : Swap) → GivesAll x → IsKept dir s → Safe dir (dynaswap_round fl th dir x s)
  unfolding dynaswap_round
  dynaswap_round-Safe x s m h = read_status (poll_psi fl th dir x)
    where
      read_metrics :
          (status : PsiPollStatus) (o : Option (PsiMetrics F))
          → Safe dir
              (elim o [ none ↦ exited s | some metrics ↦ dispatch fl th dir status metrics x s ])
      read_metrics status none = (h.stack, h.balanced)
      read_metrics status (some metrics) = dispatch-Safe status metrics x s m h

      read_status :
          (o : Option PsiPollStatus)
          → Safe dir (elim o [
            | none ↦ exited s
            | some status ↦ elim (read_psi fl x.pressure) [
              | none ↦ exited s
              | some metrics ↦ dispatch fl th dir status metrics x s
            ]
          ])
      read_status none = (h.stack, h.balanced)
      read_status (some status) = read_metrics status (read_psi fl x.pressure)

  pub main_loop-Safe :
      (xs : List (Sample)) (o : Outcome)
      → All GivesAll xs
      → Safe dir o
      → Safe dir (main_loop fl th dir xs o)
  unfolding main_loop
  main_loop-Safe [] o m h = h
  main_loop-Safe (x ∷ xs) (running s) (m, ms) h =
      main_loop-Safe xs (dynaswap_round fl th dir x s) ms (dynaswap_round-Safe x s m h)
  main_loop-Safe (x ∷ xs) (exited s) m h = h
  main_loop-Safe (x ∷ xs) (crashed s) m h = elim h [ ]

  -- With memory and the figures of the swap whenever they are asked for, and whatever else the system answers in any number of
  -- rounds, the service follows no null pointer. While it runs it has from 1 to 24 chunks, numbered
  -- from 0 on, with calls that are balanced; where it exits by itself, the same holds but that there
  -- may be no chunk.
  pub serve-Safe :
      (answers : ℕ → Release) (g : Grants) (xs : List (Sample))
      → GivesMemory g
      → All GivesAll xs
      → Safe dir (serve fl th dir answers g xs)
  unfolding serve
  serve-Safe answers g xs m ms = main_loop-Safe xs _ ms (
      allocate_swap-Safe dir g (no_swap answers) m (record { stacked = tt; bounded = omega arith })
        (no_swap-Balanced answers))

  -- The signal handler between two rounds of the loop, or before the first: with memory and the
  -- figures of the swap whenever they are asked for, and whatever swapon, swapoff and remove return,
  -- taking the service down leaves no chunk; swapoff and remove were then called for each path as
  -- often as swapon, and no file is on but where a swapoff of its path has failed.
  pub takedown_dynaswap_lem :
      (answers : ℕ → Release) (g : Grants) (xs : List (Sample)) (s : Swap)
      → GivesMemory g
      → All GivesAll xs
      → serve fl th dir answers g xs ≡ running s
      → let t = takedown_dynaswap s in
        (t.prog_swap ≡ [])
        × ((q : List ℕ)
            → (swapoffs q t.calls ≡ swapons q t.calls)
              × (removes q t.calls ≡ swapons q t.calls)
              × (on q t.calls ≤ failed_offs q t.calls))
  unfolding takedown_dynaswap
  takedown_dynaswap_lem answers g xs s m ms e =
      let kept : IsKept dir s = subst (Safe dir) e (serve-Safe answers g xs m ms) in
      let (none_left, freed) = free_dynamic_swap_lem s kept.balanced in
      (none_left, λ q. let (off, gone, _, left) = freed q in (off, gone, left))
