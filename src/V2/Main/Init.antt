-- ===== src/V2/Main/Init.antt =====
-- What the initialisation of src/driver/v2/main.c reports and holds.
use dynaswap.Base.{
  ℕ, ◌≡◌, refl, ◌∙◌, ◌↔◌, inl, inr, Bool, true, false, List, [], ◌∷◌, ◌++◌, arith, ℤ, pos, neg,
  Bool-cases, is_neg, nonzero, nonzero_iff, zero_of_nonzero, if◌then◌else◌, not, ◌&&◌,
}
use dynaswap.V2.Kernel.{Kernel}
use dynaswap.V2.Slot.{setup_slot_manager}
use dynaswap.V2.Storage.{setup_storage}
use dynaswap.V2.Context.{Params}
use dynaswap.V2.Debug.{DebugEntry}
use dynaswap.V2.Disk.{setup_disk}
use dynaswap.V2.Disk.Unwind.{unset, GivesMajor, accepts, setup_disk_lem}
use dynaswap.V2.Main.{
  make_queue, add_dynaswap_dir, add_storage_debug, add_slot_debug, Answers, Module, setup_common,
  setup_context, init_driver,
}

-- Nothing is set up.
pub record IsUnset {World : Type 0} (s : Module World) : Type 0 where
  pub no_queue : s.workqueue ≡ false
  pub no_debugfs : s.debugfs ≡ []
  pub no_file : s.storage.backing_file ≡ false
  pub no_bitmap : s.bitmap ≡ false
  pub no_entries : s.entries ≡ false
  pub no_disk : s.disk ≡ unset
  pub no_calls : s.calls ≡ []

-- Errors are negative, and a file that opens has status 0.
pub record GivesErrors (a : Answers) : Type 0 where
  pub opens : is_neg a.filp_open ≡ nonzero a.filp_open
  pub accesses : is_neg a.get_write_access ≡ nonzero a.get_write_access
  pub majors : GivesMajor a.disk

-- Whether the work queue, the file and the bitmap can be had.
abbrev pub has_context : Answers → Bool
has_context a =
    a.path && (not (nonzero a.filp_open) && (not (nonzero a.get_write_access) && a.kvzalloc))

-- The module once it has its work queue and its directory of debugfs.
abbrev pub queued : {World : Type 0} → Answers → Module World → Module World
queued a s = record s {
  workqueue = true;
  debugfs = add_dynaswap_dir a s.debugfs;
  calls = s.calls ++ make_queue ∷ [];
}

-- Whether the file can be had.
abbrev pub has_storage : Answers → Bool
has_storage a = a.path && (not (nonzero a.filp_open) && not (nonzero a.get_write_access))

-- What is in debugfs after the initialisation, whatever it returned.
abbrev pub debug_files : Answers → List DebugEntry
debug_files a =
    let with_dir = add_dynaswap_dir a [] in
    let with_file = if has_storage a then add_storage_debug a with_dir else with_dir in
    let all = if has_context a then add_slot_debug a with_file else with_file in
    if a.alloc_ordered_workqueue then all else []

module _ {World Page : Type 0} (k : Kernel World Page) (p : Params) (gb : ℕ) (a : Answers) where
  pub setup_context-disk : (s : Module World) → (setup_context k p gb a s).1.disk ≡ s.disk
  unfolding setup_context
  setup_context-disk s = ground arith

  setup_context-workqueue :
      (s : Module World) → (setup_context k p gb a s).1.workqueue ≡ s.workqueue
  unfolding setup_context
  setup_context-workqueue s = ground arith

  setup_context_zero :
      (s : Module World)
      → GivesErrors a
      → ((setup_context k p gb a s).0 ≡ pos 0) ↔ (has_context a ≡ true)
  unfolding setup_context setup_slot_manager setup_storage
  setup_context_zero s g = (λ h. ground arith, λ h. ground arith)

  setup_context-debugfs :
      (s : Module World)
      → GivesErrors a
      → (setup_context k p gb a (queued a s)).1.debugfs ≡ (
          let with_dir = add_dynaswap_dir a s.debugfs in
          let with_file = if has_storage a then add_storage_debug a with_dir else with_dir in
          if has_context a then add_slot_debug a with_file else with_file)
  unfolding setup_context setup_slot_manager setup_storage
  setup_context-debugfs s g = ground (arith, g.opens, g.accesses)

  -- The initialisation after the work queue is made.
  unfoldable pub after_queue : Module World → ℤ × Module World
  after_queue s =
      let (context, s₂) = setup_context k p gb a (queued a s) in
      if nonzero context
      then (context, s₂)
      else (pos 0, record s₂ { disk = (setup_disk gb a.disk s₂.disk).1 })

  pub init_queued :
      (s : Module World) → a.alloc_ordered_workqueue ≡ true → init_driver k p gb a s ≡ after_queue s
  unfolding init_driver setup_common after_queue
  init_queued s e = rw e (ground arith)

  pub init_unqueued :
      (s : Module World) → a.alloc_ordered_workqueue ≡ false → init_driver k p gb a s ≡ (neg 12, s)
  unfolding init_driver setup_common
  init_unqueued s e = rw e

  with_queue :
      (s : Module World)
      → IsUnset s
      → GivesErrors a
      → let (status, s') = after_queue s in
        ((status ≡ pos 0) ↔ (has_context a ≡ true))
        × (status ≡ pos 0 → s'.disk.added ≡ accepts a.disk)
        × (s'.workqueue ≡ true)
        × (s'.debugfs ≡ (setup_context k p gb a (queued a s)).1.debugfs)
  unfolding after_queue
  with_queue s u g =
      let q : Module World = queued a s in
      let (context, s₂) = setup_context k p gb a q in
      let zero = setup_context_zero q g in
      let disk : s₂.disk ≡ unset = setup_context-disk q ∙ u.no_disk in
      let (_, _, _, _, added, _, _) = setup_disk_lem gb a.disk g.majors in
      let alive : s₂.workqueue ≡ true = setup_context-workqueue q in
      elim (Bool-cases (nonzero context)) [
        | inl bad ↦ rw bad (zero, λ h. absurd ((nonzero_iff context).0 bad h), alive, refl)
        | inr good ↦
            rw (good, disk)
              ((λ _. zero.0 (zero_of_nonzero context good), λ h. refl), λ h. added, alive, refl)
      ]

  -- Initialisation returns 0 exactly if the queue and the context can be had: it reports success
  -- also where the disk could not be set up. If it fails after the work queue was made, the queue
  -- is not destroyed, and what was put into debugfs stays there: the driver's directory, the storage
  -- files if the file was had, and the slot files only if all went well.
  pub init_driver_lem :
      (s : Module World)
      → IsUnset s
      → GivesErrors a
      → let (status, s') = init_driver k p gb a s in
        ((status ≡ pos 0) ↔ ((a.alloc_ordered_workqueue && has_context a) ≡ true))
        × (status ≡ pos 0 → s'.disk.added ≡ accepts a.disk)
        × (s'.workqueue ≡ a.alloc_ordered_workqueue)
        × (s'.debugfs ≡ debug_files a)
  init_driver_lem s u g = elim (Bool-cases a.alloc_ordered_workqueue) [
    | inl e ↦
        let (zero, added, alive, files) = with_queue s u g in
        simp (init_queued s e, e)
          (zero, added, alive, files ∙ setup_context-debugfs s g ∙ rw u.no_debugfs refl)
    | inr e ↦
        simp (init_unqueued s e, e)
          ((λ h. ground arith, λ h. ground arith), λ h. ground arith, u.no_queue, u.no_debugfs)
  ]
