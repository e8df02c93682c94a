-- ===== src/Service/Start/Program.antt =====
-- How the program of src/service/src/dynaswap.c goes on in its loop.
use dynaswap.Base.{
  ℕ, ◌≡◌, refl, sym, ap, subst, ◌∙◌, true, ℤ, List, [], ◌∷◌, map, is_neg, arith, if_cases,
}
use dynaswap.Service.Config.{Numbers, Settings}
use dynaswap.Service.Pressure.{Floats, PsiState, read_psi, init_psi}
use dynaswap.Service.Swap.{Swap, no_swap, Outcome, running, exited, crashed, Grants, allocate_swap}
use dynaswap.Service.Monitor.{Sample, main_loop, dynaswap_round, poll_psi}
use dynaswap.Service.Start.{
  Or, quits, crashes, goes_on, Environment, Started, init_dynaswap, thresholds_of, through, run,
  main,
}
use dynaswap.Service.Start.Init.{not_quits, not_crashes, same, Accepts, init_dynaswap_iff}

module _ {F : Type 0} (fl : Floats F) (nb : Numbers F) (of_longlong : ℤ → F) (e : Environment F)
    (defaults : Settings F) where
  -- A round without the pressure file.
  no_psi_round :
      (fd : ℤ) (dir : List ℕ) (t : Settings F) (x : Sample) (s : Swap)
      → is_neg fd ≡ true
      → dynaswap_round fl
          (thresholds_of fl nb of_longlong e defaults t)
          dir
          (through fl nb of_longlong e defaults fd x)
          s
        ≡ exited s
  unfolding dynaswap_round poll_psi read_psi
  no_psi_round fd dir t x s n =
      if_cases
        (λ y. dynaswap_round fl (thresholds_of fl nb of_longlong e defaults t) dir y s ≡ exited s)
        (is_neg fd) (λ _. ground arith) (λ z. ground arith)

  -- What is left where the program exits by itself.
  abbrev pub stopped : Outcome → Outcome
  stopped (running s) = exited s
  stopped (exited s) = exited s
  stopped (crashed s) = crashed s

  stopped_loop :
      (dir : List ℕ) (t : Settings F) (xs : List Sample) (o : Outcome)
      → main_loop fl (thresholds_of fl nb of_longlong e defaults t) dir xs (stopped o) ≡ stopped o
  unfolding main_loop
  stopped_loop dir t [] o = refl
  stopped_loop dir t (x ∷ xs) (running s) = refl
  stopped_loop dir t (x ∷ xs) (exited s) = refl
  stopped_loop dir t (x ∷ xs) (crashed s) = refl

  no_psi_loop :
      (fd : ℤ) (dir : List ℕ) (t : Settings F) (x : Sample) (xs : List Sample) (o : Outcome)
      → is_neg fd ≡ true
      → main_loop fl
          (thresholds_of fl nb of_longlong e defaults t)
          dir
          (map (through fl nb of_longlong e defaults fd) (x ∷ xs))
          o
        ≡ stopped o
  unfolding main_loop
  no_psi_loop fd dir t x xs (running s) n =
      ap
        (λ o.
          main_loop fl (thresholds_of fl nb of_longlong e defaults t) dir
            (map (through fl nb of_longlong e defaults fd) xs) o)
        (no_psi_round fd dir t x s n)
      ∙ stopped_loop dir t _ (running s)
  no_psi_loop fd dir t x xs (exited s) n = refl
  no_psi_loop fd dir t x xs (crashed s) n = refl

  -- A program that gets into its loop while the pressure file cannot be opened was accepted like any
  -- other, and exits in the first round; its first chunk and the calls made for it stay as they are.
  pub main_no_psi :
      (g : Grants) (x : Sample) (xs : List Sample) (o : Outcome)
      → is_neg e.psi_open ≡ true
      → main fl nb of_longlong e defaults g (x ∷ xs) ≡ goes_on o
      → (t : Settings F) × Accepts fl nb of_longlong e defaults t
        × (o ≡ stopped (allocate_swap t.set_path g (no_swap e.answers)))
  unfolding main init_psi
  main_no_psi g x xs o n h = by_start (init_dynaswap fl nb of_longlong e defaults g) refl h
    where
      by_start :
          (r : Or (Started F))
          → init_dynaswap fl nb of_longlong e defaults g ≡ r
          → run fl nb of_longlong e defaults (x ∷ xs) r ≡ goes_on o
          → (t : Settings F) × Accepts fl nb of_longlong e defaults t
            × (o ≡ stopped (allocate_swap t.set_path g (no_swap e.answers)))
      by_start (quits k) i q = absurd (not_quits q)
      by_start crashes i q = absurd (not_crashes q)
      by_start (goes_on s) i q =
          let h = (init_dynaswap_iff fl nb of_longlong e defaults g s).0 i in
          let t = s.settings in
          (
            t,
            h.accepts,
            sym (same q)
                ∙ no_psi_loop s.psi.fd t.set_path t x xs (running s.swap)
                    (subst (λ (p : PsiState). is_neg p.fd ≡ true) (sym h.watched) (ground arith))
                ∙ ap (stopped) (sym h.first),
          )
