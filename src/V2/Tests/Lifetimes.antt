-- ===== src/V2/Tests/Lifetimes.antt =====
-- src/driver/v2/main.c, device.c and fs/storage.c: setup and teardown with given answers.
use dynaswap.Base.{
  ◌≡◌, refl, ◌↔◌, ◌&&◌, true, false, [], ◌∷◌, ◌++◌, arith, pos, neg, is_nat, if◌then◌else◌,
}
use dynaswap.V2.Storage.{setup_storage, teardown_storage}
use dynaswap.V2.Storage.Lifetime.{opens, closes, gets, puts, uses_closed, setup-teardown}
use dynaswap.V2.Disk.{
  DiskAnswers, setup_disk, capacity_sectors, register_device, unregister_device, alloc_tagset,
  free_tagset, create_disk,
}
use dynaswap.V2.Disk.Unwind.{unset, accepts, setup_disk_lem}
use dynaswap.V2.Device.{extend_work}
use dynaswap.V2.Main.{Answers, Module, destroy_queue, init_driver, exit_driver}
use dynaswap.V2.Main.Init.{IsUnset, GivesErrors, has_context, debug_files, init_driver_lem}
use dynaswap.V2.Main.Exit.{taken_calls, given_calls, exit-init}
use dynaswap.V2.Tests.Sim.{sim, SimWorld, empty_world}
use dynaswap.V2.Tests.Slots.{blank}
use dynaswap.V2.Tests.Sectors.{params}

abbrev pub granted : DiskAnswers
granted = record {
  register_blkdev = pos 252;
  blk_mq_alloc_tag_set = pos 0;
  blk_mq_alloc_disk = true;
  add_disk = pos 0;
}

-- The disk is allocated and cannot be added.
abbrev refused : DiskAnswers
refused = record granted { add_disk = neg 22 }

abbrev pub all_granted : Answers
all_granted = record {
  alloc_ordered_workqueue = true;
  debugfs_create_dir = λ e. true;
  path = true;
  filp_open = pos 0;
  get_write_access = pos 0;
  kvzalloc = true;
  kmem_cache_create = true;
  disk = granted;
}

abbrev pub start : Module SimWorld
start = record {
  workqueue = false;
  debugfs = [];
  storage = record { backing_file = false };
  bitmap = false;
  entries = false;
  driver = record { slots = blank; world = empty_world; extend_queued = false };
  disk = unset;
  calls = [];
}

pub start-IsUnset : IsUnset start
start-IsUnset = record {
  no_queue = refl;
  no_debugfs = refl;
  no_file = refl;
  no_bitmap = refl;
  no_entries = refl;
  no_disk = refl;
  no_calls = refl;
}

pub granted-GivesErrors : GivesErrors all_granted
granted-GivesErrors = record { opens = refl; accesses = refl; majors = λ e. ground arith }

setup-teardown_example :
    let (status, c, made) = setup_storage true (pos 0) (neg 26) (record { backing_file = false }) in
    let (c', undone) = teardown_storage c in
    (opens (made ++ undone) ≡ closes (made ++ undone))
    × (gets (made ++ undone) ≡ puts (made ++ undone))
    × (c'.backing_file ≡ false)
    × (c.backing_file ≡ (if is_nat status 0 then true else false))
    × (uses_closed false (made ++ undone) ≡ c.backing_file)
setup-teardown_example = setup-teardown true (pos 0) (neg 26)

setup_disk_lem_example :
    let (done, s) = setup_disk 128 granted unset in
    (done ≡ true)
    × (s.registered ≡ true)
    × (s.tags ≡ true)
    × (s.dynaswap_disk ≡ true)
    × (s.added ≡ true)
    × (done ≡ true → s.capacity ≡ capacity_sectors 128)
    × (s.gendisks ≡ 1)
setup_disk_lem_example = setup_disk_lem 128 granted (λ e. ground arith)

refused_fails : (setup_disk 128 refused unset).0 ≡ false
unfolding setup_disk register_device alloc_tagset create_disk unregister_device free_tagset
refused_fails = refl

granted_succeeds : (setup_disk 128 granted unset).0 ≡ true
unfolding setup_disk register_device alloc_tagset create_disk unregister_device free_tagset
granted_succeeds = refl

init_driver_lem_example :
    let (status, s') = init_driver sim params 128 (record all_granted { disk = refused }) start in
    ((status ≡ pos 0) ↔ ((true && has_context all_granted) ≡ true))
    × (status ≡ pos 0 → s'.disk.added ≡ accepts refused)
    × (s'.workqueue ≡ true)
    × (s'.debugfs ≡ debug_files all_granted)
init_driver_lem_example =
    init_driver_lem sim params 128 (record all_granted { disk = refused }) start start-IsUnset
      (record { opens = refl; accesses = refl; majors = λ e. ground arith })

exit-init_example :
    let s' =
      (exit_driver sim params 128 all_granted
        (extend_work ∷ [])
        (init_driver sim params 128 all_granted start).1).0 in
    (s'.calls ≡ (taken_calls all_granted ++ given_calls) ++ destroy_queue ∷ [])
    × (s'.workqueue ≡ false)
    × (s'.storage.backing_file ≡ false)
    × (s'.bitmap ≡ false)
    × (s'.debugfs ≡ [])
    × (s'.disk ≡ record unset { capacity = capacity_sectors 128 })
    × (s'.entries ≡ true)
exit-init_example =
    exit-init sim params 128 all_granted (extend_work ∷ []) start start-IsUnset granted-GivesErrors
      ((init_driver_lem sim params 128 all_granted start start-IsUnset granted-GivesErrors).0.1
        refl)
      refl
