-- ===== src/V1/Module/Outcome.antt =====
-- How loading the module of src/driver/src/dynaswap_drv.c ends, and unloading it.
use dynaswap.Base.{
  ℕ, ◌≡◌, ◌≢◌, refl, sym, ap, subst, ◌∙◌, inl, ℤ, pos, neg, true, not, nonzero, arith, if_cases,
  nonzero_iff,
}
use dynaswap.V1.Setup.{dynamap_init}
use dynaswap.V1.Cleanup.{MapSetup, error_file}
use dynaswap.V1.Setup.Balance.{Accounted, IsEmpty}
use dynaswap.V1.Setup.Init.{accounted, IsTornDown, open_count, error_count}
use dynaswap.V1.Setup.Outcome.{InitOutcome, not_opened, torn_down, set_up, dynamap_init-outcome}
use dynaswap.V1.Module.{
  ModuleState, ModuleAnswers, dynaswap_module_exit, dynaswap_init_err, total_capacity,
  dynaswap_init_mapping, or_init_err, dynaswap_module_init,
}
use dynaswap.V1.Module.Load.{IsConsistent, dynaswap_module_exit-IsGone}
use dynaswap.V1.Module.Ends.{
  no_map, unloaded, MapGranted, IsFileEnd, no_path, error_closed, closed_twice, IsUnwound,
  ModuleOutcome, loaded, not_added, not_prepared, GivesMajor,
}
use dynaswap.V1.Module.After.{unwound, after_map, after_map_lem}

pub no_map-Accounted : Accounted no_map
no_map-Accounted = record {
  pages = λ q. omega arith;
  blocks = refl;
  queues = refl;
  work = λ z. ground arith;
}

pub no_map-IsEmpty : IsEmpty no_map
no_map-IsEmpty = record { virt = refl; phys = refl; bitmap = refl; queue = refl; work = refl }

module _ (gb : ℕ) (a : ModuleAnswers) (gm : GivesMajor a) where
  not_zero : (x : ℤ) → nonzero x ≡ true → x ≢ pos 0
  not_zero x h e = (nonzero_iff x).0 h e

  -- Unwinding where the map could not be had.
  unmapped :
      (status : ℤ) (m : MapSetup)
      → ¬ MapGranted gb a
      → nonzero status ≡ true
      → Accounted m
      → ((t : MapSetup) → IsTornDown m t → IsFileEnd gb a t.ledger)
      → ModuleOutcome gb a (dynaswap_init_err status (record unloaded { dynamap = m }))
  unfolding dynaswap_init_err dynaswap_module_exit
  unmapped status m g n h file =
      let s : ModuleState = record unloaded { dynamap = m } in
      let consistent : IsConsistent s = record {
        major = inl (refl, refl);
        disks = refl;
        added = λ z. ground arith;
        map = h;
      } in
      let (gone, t, deletes) = dynaswap_module_exit-IsGone s consistent in
      not_prepared (λ p. g p.map) n
        (record { gone = gone; balanced = t.balanced; empty = t.empty; file = file _ t }) deletes

  from_map :
      (q : ℤ × MapSetup)
      → a.path ≡ true
      → InitOutcome a.setup (total_capacity gb) no_map q
      → ModuleOutcome gb a
          (or_init_err gb a (q.0, record unloaded { dynamap = q.1 }) (after_map gb a gm))
  from_map q path (not_opened z e) =
      subst
        (λ (r : ℤ × MapSetup).
          ModuleOutcome gb a
            (or_init_err gb a (r.0, record unloaded { dynamap = r.1 }) (after_map gb a gm)))
        (sym e)
        (if_cases (ModuleOutcome gb a) (nonzero a.setup.filp_open_result)
          (λ n.
            unmapped a.setup.filp_open_result (record no_map { backing_file = error_file })
              (λ m. ground (arith, m.opened)) n
              (accounted _ (record { pages = λ q. refl; blocks = refl; queues = refl })
                (record { virt = refl; phys = refl; bitmap = refl; queue = refl; work = refl }))
              (λ u v. error_closed z v.opens v.closes v.error_closes))
          (λ n. ground arith))
  from_map q path (torn_down z g e t) =
      if_cases (ModuleOutcome gb a) (nonzero q.0)
        (λ n.
          unmapped q.0 q.1 (λ m. g m.granted) n (accounted q.1 t.balanced t.empty)
            (λ u v.
              closed_twice z g (omega (arith, t.opens, v.opens))
                (omega (arith, t.closes, v.closes, ap open_count t.file))
                (omega (arith, t.error_closes, v.error_closes, ap error_count t.file))))
        (λ n. ground arith)
  from_map q path (set_up z g e u) =
      if_cases (ModuleOutcome gb a) (nonzero q.0) (λ n. ground arith)
        (λ _. after_map_lem gb a gm q.1 (record { path = path; opened = z; granted = g }) u)

  -- Where `register_blkdev` gives a positive number or an error, loading from scratch ends in one of
  -- three ways: all is granted, the status is 0 and all is set up; all but `add_disk` is granted, the
  -- status is its error, all is given back and the disk that was not added was deleted; or something
  -- before is refused, the status is not 0 and all is given back. `IsFileEnd` says how often the
  -- file was closed: twice where `dynamap_init` failed after opening it.
  pub dynaswap_module_init-outcome : ModuleOutcome gb a (dynaswap_module_init gb a unloaded)
  unfolding dynaswap_module_init dynaswap_init_mapping
  dynaswap_module_init-outcome =
      if_cases (λ r. ModuleOutcome gb a (or_init_err gb a r (after_map gb a gm))) (not a.path)
        (λ e.
          unmapped (neg 22) no_map (λ m. ground (arith, m.path)) refl no_map-Accounted
            (λ u v. no_path (ground arith) v.opens v.closes v.error_closes))
        (λ e.
          from_map (dynamap_init a.setup (total_capacity gb) no_map) (ground arith) (
            dynamap_init-outcome a.setup (total_capacity gb) no_map no_map-Accounted
              no_map-IsEmpty))

  -- Where `register_blkdev` gives a positive number or an error, unloading after a load with status 0
  -- gives all back, with the file closed as the map that was granted has it, and deletes no disk that
  -- was not added.
  pub dynaswap_module_exit-init :
      (dynaswap_module_init gb a unloaded).0 ≡ pos 0
      → let t = dynaswap_module_exit (dynaswap_module_init gb a unloaded).1 in
        IsUnwound gb a t × MapGranted gb a × (t.bad_deletes ≡ 0)
  dynaswap_module_exit-init e = by_outcome dynaswap_module_init-outcome
    where
      by_outcome :
          ModuleOutcome gb a (dynaswap_module_init gb a unloaded)
          → let t = dynaswap_module_exit (dynaswap_module_init gb a unloaded).1 in
            IsUnwound gb a t × MapGranted gb a × (t.bad_deletes ≡ 0)
      by_outcome (loaded p z r l) =
          let s = (dynaswap_module_init gb a unloaded).1 in
          let (u, d) = unwound gb a gm s p.map l.consistent l.map in
          (u, p.map, d ∙ ground (arith, l.disk, l.added, l.bad_deletes))
      by_outcome (not_added p z r u b) = absurd (not_zero _ z (sym r ∙ e))
      by_outcome (not_prepared p z u b) = absurd (not_zero _ z e)
