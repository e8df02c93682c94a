-- ===== src/V2/Tests/Exits.antt =====
-- src/driver/v2/main.c: leaving the driver, with work that waits and after a failure.
use dynaswap.Base.{
  ℕ, ◌≡◌, ◌↔◌, refl, ◌++◌, pos, some, true, false, List, [], ◌∷◌, arith, if◌then◌else◌, neg,
}
use dynaswap.V2.Context.{Params, dynaswap_extend, dynaswap_write, make_room, write_sector}
use dynaswap.V2.Slot.{
  slot_manager_needs_extend, find_slot_sector, reserve_slot_sector, claim_slot, next_free,
  mark_slot, setup_slot_manager, extend_slots, extend_loop, target_slots, get_total_slots,
}
use dynaswap.V2.Bimap.{find_by_slot, find_by_sector, insert, init_bimap, destroy_bimap}
use dynaswap.V2.Storage.{
  setup_storage, teardown_storage, write_storage, extend_storage, sync_first, sync_last,
}
use dynaswap.V2.Debug.{
  dynaswap_dir, storage_dir, backing_file_size_bytes, setup_storage_debug, setup_slot_debug,
}
use dynaswap.V2.Device.{
  extend_work, Device, queue_rq, run_one, run_work, perform_rq, perform_bvecs, perform_bvec,
}
use dynaswap.V2.Device.Queue.{requests, queue_extend-requests}
use dynaswap.V2.Device.Events.{Event, arrives, runs, steps}
use dynaswap.V2.Disk.{setup_disk, register_device, alloc_tagset, create_disk}
use dynaswap.V2.Main.{Answers, Module, Late, exit_driver, init_driver, setup_common, setup_context}
use dynaswap.V2.Main.Init.{init_driver_lem}
use dynaswap.V2.Main.Loaded.{loaded}
use dynaswap.V2.Main.Exit.{taken_calls, given_calls}
use dynaswap.V2.Main.Inverse.{steps_inverse}
use dynaswap.V2.Main.Leaving.{exit_driver-late}
use dynaswap.V2.Tests.Sim.{sim, sim_documented, SimWorld}
use dynaswap.V2.Tests.Disks.{flush_one}
use dynaswap.V2.Tests.Lifetimes.{all_granted, start, start-IsUnset, granted-GivesErrors}

-- Chunks of a megabyte, more as soon as a slot is asked for.
abbrev eager : Params
eager = record { chunk_size_mb = 1; extend_threshold = 0 }

abbrev one_write : List (Event ℕ)
one_write = arrives true flush_one ∷ runs ∷ []

abbrev eager_module : Module SimWorld
eager_module = (init_driver sim eager 128 all_granted start).1

abbrev after_write : Device SimWorld ℕ
after_write = steps sim eager one_write (loaded eager_module.driver)

after_write_waits : after_write.work ≡ extend_work ∷ []
unfolding steps queue_rq run_one run_work perform_rq perform_bvecs perform_bvec dynaswap_write
    make_room slot_manager_needs_extend write_sector find_slot_sector reserve_slot_sector claim_slot
    next_free mark_slot setup_slot_manager extend_slots extend_loop target_slots get_total_slots
    find_by_sector insert setup_storage setup_storage_debug setup_slot_debug teardown_storage
    write_storage extend_storage setup_disk register_device alloc_tagset create_disk init_driver
    setup_common setup_context dynaswap_extend init_bimap destroy_bimap sync_first sync_last
after_write_waits = refl

after_write_none : requests after_write.work ≡ 0
unfolding steps queue_rq run_one run_work
after_write_none = queue_extend-requests sim eager eager_module.driver.extend_queued _ []

abbrev late_extension : Late ℕ
late_extension = record {
  item = extend_work;
  backing_file = false;
  calls = taken_calls all_granted ++ given_calls;
}

eager_starts : (init_driver sim eager 128 all_granted start).0 ≡ pos 0
eager_starts =
    (init_driver_lem sim eager 128 all_granted start start-IsUnset granted-GivesErrors).0.1 refl

exit_driver-late_example :
    (exit_driver sim eager 128 all_granted after_write.work
      (record eager_module { driver = after_write.driver })).1
    ≡ (if after_write.driver.extend_queued then late_extension ∷ [] else [])
exit_driver-late_example =
    exit_driver-late sim eager 128 all_granted sim_documented one_write start start-IsUnset
      granted-GivesErrors (omega arith) refl eager_starts after_write_none

-- One sector has a slot.
steps_inverse_example :
    (find_by_sector sim.hash 16 after_write.driver.slots.slot_bimap ≡ (pos 0, some 0))
    ↔ (find_by_slot sim.hash 0 after_write.driver.slots.slot_bimap ≡ (pos 0, some 16))
steps_inverse_example =
    steps_inverse sim eager 128 all_granted sim_documented one_write start 16 0 (omega arith) refl
      eager_starts

-- Without memory for the bitmap the files of the storage stay in debugfs.
abbrev no_bitmap : Answers
no_bitmap = record all_granted { kvzalloc = false }

left_in_debugfs :
    ((init_driver sim eager 128 no_bitmap start).0 ≡ neg 12)
    × ((init_driver sim eager 128 no_bitmap start).1.debugfs
        ≡ storage_dir ∷ backing_file_size_bytes ∷ dynaswap_dir ∷ [])
unfolding init_driver setup_common setup_context setup_storage setup_slot_manager init_bimap
    setup_storage_debug setup_disk register_device alloc_tagset create_disk
left_in_debugfs = (refl, refl)
