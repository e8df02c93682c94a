-- ===== src/V1/Tests/Loads.antt =====
-- src/driver/src/dynaswap_drv.c: loading and unloading the module.
use dynaswap.Base.{ℕ, ◌+◌, ◌≡◌, refl, true, false, List, [], some, pos, arith}
use dynaswap.V2.Tests.Sim.{sim, sim_documented, SimWorld, empty_world}
use dynaswap.V1.Tests.{punch, punch-PunchesPage, write_two}
use dynaswap.V1.Driver.Queue.{
  Served, Run, start, taken, ran, asked, dynaswap_handle_rq, run_waiting,
}
use dynaswap.V1.Driver.Served.{IsServed}
use dynaswap.V1.Setup.{
  SetupAnswers, dynamap_init, nr_dirs, open_backing, init_tables, alloc_tables, fill_tables,
  fill_entries, fill_entry, alloc_bitmap, alloc_queue,
}
use dynaswap.V1.Module.{
  ModuleAnswers, total_capacity, capacity_sectors, dynaswap_module_init, dynaswap_module_exit,
  dynaswap_init_mapping, dynaswap_register_blockdev, dynaswap_init_tag_set, dynaswap_setup_disk,
  add_dynaswap_disk,
}
use dynaswap.V1.Module.Ends.{unloaded, ModuleOutcome, IsUnwound, MapGranted}
use dynaswap.V1.Module.Outcome.{dynaswap_module_init-outcome, dynaswap_module_exit-init}
use dynaswap.V1.Driver.Traced.{Completed, Traced}
use dynaswap.V1.Tests.Overlaps.{sim-WritesWhole}
use dynaswap.V1.Module.Traced.{module_init-Traced}
use dynaswap.V1.Module.Serving.{idle, WithinCapacity, init-IsServed}

-- All is granted.
abbrev granted : SetupAnswers
granted = record {
  filp_open_result = pos 0;
  virt_block = true;
  phys_block = true;
  get_free_page = λ j. some (100 + j);
  bits_block = true;
  alloc_workqueue = true;
}

abbrev answers : ModuleAnswers
answers = record {
  path = true;
  setup = granted;
  register_blkdev = pos 252;
  blk_mq_alloc_tag_set = pos 0;
  blk_mq_alloc_disk = pos 0;
  add_disk = pos 0;
}

-- No memory for the bitmap, with two directories.
abbrev no_bitmap : SetupAnswers
no_bitmap = record granted { bits_block = false }

abbrev size : ℕ
size = 4194304

dynaswap_module_init-outcome_example :
    ModuleOutcome 1 answers (dynaswap_module_init 1 answers unloaded)
dynaswap_module_init-outcome_example =
    dynaswap_module_init-outcome 1 answers (λ e. ground (arith, e))

loads : (dynaswap_module_init 1 answers unloaded).0 ≡ pos 0
unfolding dynaswap_module_init dynaswap_init_mapping dynaswap_register_blockdev
    dynaswap_init_tag_set dynaswap_setup_disk add_dynaswap_disk dynamap_init open_backing
    init_tables alloc_tables fill_tables fill_entries fill_entry alloc_bitmap alloc_queue
loads = refl

dynaswap_module_exit-init_example :
    let t = dynaswap_module_exit (dynaswap_module_init 1 answers unloaded).1 in
    IsUnwound 1 answers t × MapGranted 1 answers × (t.bad_deletes ≡ 0)
dynaswap_module_exit-init_example =
    dynaswap_module_exit-init 1 answers (λ e. ground (arith, e)) loads

loads_capacity : (dynaswap_module_init 1 answers unloaded).1.capacity ≡ 2097152
unfolding dynaswap_module_init dynaswap_init_mapping dynaswap_register_blockdev
    dynaswap_init_tag_set dynaswap_setup_disk add_dynaswap_disk dynamap_init open_backing
    init_tables alloc_tables fill_tables fill_entries fill_entry alloc_bitmap alloc_queue
loads_capacity = refl

abbrev first_idle : Served SimWorld ℕ
first_idle = idle (dynaswap_module_init 1 answers unloaded).1 empty_world

write_two-WithinCapacity :
    WithinCapacity (dynaswap_module_init 1 answers unloaded).1.capacity write_two
write_two-WithinCapacity = record {
  segments = (omega (arith, loads_capacity), (omega (arith, loads_capacity), tt));
  sectors = omega (arith, loads_capacity);
}

-- A request arrives and its item runs.
abbrev one_served : Served SimWorld ℕ
one_served =
    run_waiting sim punch 80 [] write_two [] (dynaswap_handle_rq true write_two first_idle).1

first_Run :
    Run sim punch 80 1
      (WithinCapacity (dynaswap_module_init 1 answers unloaded).1.capacity)
      first_idle
      1
      0
      one_served
unfolding dynaswap_handle_rq
first_Run = ran [] [] write_two (taken write_two start write_two-WithinCapacity) refl

init-IsServed_example :
    IsServed sim sim_documented punch 80 1 (nr_dirs (total_capacity 1)) first_idle 1 0 one_served
init-IsServed_example =
    init-IsServed sim sim_documented punch 80 1 1 answers empty_world 1 0 one_served
      (λ e. ground (arith, e)) (omega arith) punch-PunchesPage loads first_Run

module_init-Traced_example :
    (done : List (Completed ℕ)) × Traced sim sim_documented punch 80 1
      (nr_dirs (total_capacity 1))
      (λ j. 0)
      []
      (asked sim punch 80 first_Run)
      done
      one_served
module_init-Traced_example =
    module_init-Traced sim sim_documented punch 80 1 1 answers empty_world one_served
      (λ e. ground (arith, e)) (omega arith) sim-WritesWhole punch-PunchesPage loads first_Run

-- The capacity is one of 32 bits: 2048 gigabytes give a disk of no sectors.
capacity_lost : capacity_sectors 2048 ≡ 0
capacity_lost = refl
