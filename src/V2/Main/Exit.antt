-- ===== src/V2/Main/Exit.antt =====
-- The exit of src/driver/v2/main.c.
use mathlib.Core.List.{append_assoc}
use dynaswap.Base.{
  ℕ, ◌≡◌, refl, sym, subst, ap, ◌∙◌, inl, inr, true, false, List, [], ◌∷◌, ◌++◌, if◌then◌else◌,
  arith, pos, Bool-cases, nonzero, nonzero_iff, zero_of_nonzero,
}
use dynaswap.V2.Kernel.{Kernel}
use dynaswap.V2.Slot.{setup_slot_manager}
use dynaswap.V2.Storage.{
  setup_storage, teardown_storage, filp_open, get_write_access, put_write_access, filp_close,
  vfs_truncate,
}
use dynaswap.V2.Context.{Params}
use dynaswap.V2.Device.{Work}
use dynaswap.V2.Disk.{setup_disk, teardown_disk, capacity_sectors}
use dynaswap.V2.Disk.Unwind.{unset, accepts, setup_disk_lem, teardown-setup}
use dynaswap.V2.Main.{
  DriverCall, make_queue, destroy_queue, make_bitmap, free_bitmap, make_cache, remove_disk, on_file,
  Answers, Module, setup_context, remove, teardown_context, teardown_common, init_driver,
  exit_driver,
}
use dynaswap.V2.Main.Init.{
  IsUnset, GivesErrors, queued, after_queue, init_queued, init_unqueued, setup_context-disk,
}

-- What a driver that was initialised has called, and then what taking its disk and its context down
-- calls.
abbrev pub taken_calls : Answers → List DriverCall
taken_calls a =
    make_queue
    ∷ on_file filp_open
    ∷ on_file get_write_access
    ∷ make_bitmap
    ∷ (if a.kmem_cache_create then make_cache ∷ [] else [])

abbrev pub given_calls : List DriverCall
given_calls =
    remove_disk
    ∷ free_bitmap
    ∷ on_file put_write_access
    ∷ on_file filp_close
    ∷ on_file vfs_truncate
    ∷ []

module _ {World Page : Type 0} (k : Kernel World Page) (p : Params) (gb : ℕ) (a : Answers) where
  setup_context-entries :
      (s : Module World)
      → (setup_context k p gb a s).0 ≡ pos 0
      → (setup_context k p gb a s).1.entries ≡ a.kmem_cache_create
  unfolding setup_context setup_slot_manager setup_storage
  setup_context-entries s ok = ground arith

  setup_context-file :
      (s : Module World)
      → GivesErrors a
      → (setup_context k p gb a s).0 ≡ pos 0
      → (setup_context k p gb a s).1.storage.backing_file ≡ true
  unfolding setup_context setup_slot_manager setup_storage
  setup_context-file s g ok = ground (arith, g.opens, g.accesses)

  setup_context-calls :
      (s : Module World)
      → GivesErrors a
      → (setup_context k p gb a s).0 ≡ pos 0
      → (setup_context k p gb a s).1.calls
        ≡ (s.calls ++ on_file filp_open ∷ on_file get_write_access ∷ [])
          ++ make_bitmap ∷ (if a.kmem_cache_create then make_cache ∷ [] else [])
  unfolding setup_context setup_slot_manager setup_storage
  setup_context-calls s g ok = ground (arith, g.opens, g.accesses)

  -- What an initialisation with status 0 leaves: the disk as `setup_disk` left it, the file open, the
  -- cache if it was made, and the calls made.
  pub record IsLoaded (t : Module World) : Type 0 where
    pub disk : t.disk ≡ (setup_disk gb a.disk unset).1
    pub entries : t.entries ≡ a.kmem_cache_create
    pub file : t.storage.backing_file ≡ true
    pub calls : t.calls ≡ taken_calls a

  after_queue-IsLoaded :
      (s : Module World)
      → IsUnset s
      → GivesErrors a
      → (after_queue k p gb a s).0 ≡ pos 0
      → IsLoaded (after_queue k p gb a s).1
  unfolding after_queue
  after_queue-IsLoaded s u g ok =
      let q : Module World = queued a s in
      let (context, s₂) = setup_context k p gb a q in
      let disk : s₂.disk ≡ unset = setup_context-disk k p gb a q ∙ u.no_disk in
      elim (Bool-cases (nonzero context)) [
        | inl bad ↦
            let zero : context ≡ pos 0 = ground arith in absurd ((nonzero_iff context).0 bad zero)
        | inr good ↦
            let zero = zero_of_nonzero context good in
            rw good (record {
              disk = rw disk refl;
              entries = setup_context-entries q zero;
              file = setup_context-file q g zero;
              calls = setup_context-calls q g zero ∙ rw u.no_calls refl;
            })
      ]

  pub init_driver-IsLoaded :
      (s : Module World)
      → IsUnset s
      → GivesErrors a
      → (init_driver k p gb a s).0 ≡ pos 0
      → IsLoaded (init_driver k p gb a s).1
  init_driver-IsLoaded s u g ok = elim (Bool-cases a.alloc_ordered_workqueue) [
    | inl e ↦
        let same = init_queued k p gb a s e in
        subst (λ r. IsLoaded r.1) (sym same)
          (after_queue-IsLoaded s u g (ap (λ r. r.0) (sym same) ∙ ok))
    | inr e ↦ let bad = ap (λ r. r.0) (sym (init_unqueued k p gb a s e)) ∙ ok in absurd (cc bad)
  ]

  -- Before `teardown_common`: the pointer is cleared, and the calls so far.
  pub torn_down :
      (t : Module World)
      → t.storage.backing_file ≡ true
      → t.calls ≡ taken_calls a
      → let t' = teardown_context k p gb a (remove k p gb a t) in
        (t'.storage.backing_file ≡ false) × (t'.calls ≡ taken_calls a ++ given_calls)
  unfolding teardown_context teardown_storage
  torn_down t file calls =
      rw (file, calls) (refl, append_assoc (taken_calls a) (remove_disk ∷ []) _)

  -- The exit of a driver that was initialised with its disk, with any work waiting: the calls of the
  -- initialisation and the exit are, in order, the work queue made, the file opened and taken for
  -- writing, the bitmap and the cache made, the disk removed, the bitmap freed, write access given
  -- back, the file closed and truncated, and the work queue destroyed. The registration, the tags
  -- and the disk are given back, nothing is left in debugfs, and the cache is never destroyed.
  pub exit-init :
      (work : List (Work Page)) (s : Module World)
      → IsUnset s
      → GivesErrors a
      → (init_driver k p gb a s).0 ≡ pos 0
      → accepts a.disk ≡ true
      → let s' = (exit_driver k p gb a work (init_driver k p gb a s).1).0 in
        (s'.calls ≡ (taken_calls a ++ given_calls) ++ destroy_queue ∷ [])
        × (s'.workqueue ≡ false)
        × (s'.storage.backing_file ≡ false)
        × (s'.bitmap ≡ false)
        × (s'.debugfs ≡ [])
        × (s'.disk ≡ record unset { capacity = capacity_sectors gb })
        × (s'.entries ≡ a.kmem_cache_create)
  unfolding exit_driver teardown_common teardown_context
  exit-init work s u g ok acc =
      let t = (init_driver k p gb a s).1 in
      let l = init_driver-IsLoaded s u g ok in
      let (file, calls) = torn_down t l.file l.calls in
      let (done, _, _, _, _, _, _) = setup_disk_lem gb a.disk g.majors in
      (
        ap (λ c. c ++ destroy_queue ∷ []) calls,
        refl,
        file,
        refl,
        refl,
        ap teardown_disk l.disk ∙ teardown-setup gb a.disk g.majors (done ∙ acc),
        l.entries,
      )
