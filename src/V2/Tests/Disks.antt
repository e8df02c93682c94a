-- ===== src/V2/Tests/Disks.antt =====
-- src/driver/v2: a loaded driver and a busy device, against the disk that never fails.
use dynaswap.Base.{ℕ, ◌*◌, ◌^◌, ◌≡◌, ◌≢◌, refl, true, false, List, [], ◌∷◌, ◌++◌, arith, none, All}
use dynaswap.V2.Bimap.{Entry}
use dynaswap.V2.Context.View.{view}
use dynaswap.V2.Device.{Request, req_op_flush, req_op_discard}
use dynaswap.V2.Device.Events.{Event, arrives, runs, steps}
use dynaswap.V2.Device.Drain.{drain}
use dynaswap.V2.Device.History.{Handled}
use dynaswap.V2.Device.Traced.{Traced, waiting, taken, steps-Traced}
use dynaswap.V2.Device.Reference.{disk_serve, disk_run}
use dynaswap.V2.Device.Requests.{store}
use dynaswap.V2.Device.Granted.{GrantsAll, IsPage}
use dynaswap.V2.Main.{init_driver}
use dynaswap.V2.Main.Init.{init_driver_lem}
use dynaswap.V2.Main.Loaded.{loaded}
use dynaswap.V2.Main.Serving.{IsDisk, init-IsDisk}
use dynaswap.V2.Tests.Sim.{sim, sim_documented, SimWorld}
use dynaswap.V2.Tests.Slots.{sixteen_entry}
use dynaswap.V2.Tests.Sectors.{params}
use dynaswap.V2.Tests.Devices.{vec, write_two, read_one, busy, busy-InOrder, script}
use dynaswap.V2.Tests.Lifetimes.{all_granted, start, start-IsUnset, granted-GivesErrors}

steps-Traced_example :
    (es' : List Entry) × (served : List (Handled ℕ)) × Traced sim sim_documented params
      (view sim sim_documented (sixteen_entry ∷ []) busy.driver.world)
      busy.answers
      (waiting busy.work ++ taken script)
      served
      es'
      (steps sim params script busy)
steps-Traced_example =
    steps-Traced sim sim_documented params script (sixteen_entry ∷ []) busy (omega arith)
      busy-InOrder

-- Two pages are stored, one of them is read, and a page is stored by a flush.
abbrev store_two : Request ℕ
store_two = record write_two { bvecs = vec 24 88 ∷ vec 32 99 ∷ [] }

abbrev pub flush_one : Request ℕ
flush_one = record { op = req_op_flush; rq_pos = 16; rq_sectors = 8; bvecs = vec 16 55 ∷ [] }

abbrev drop_one : Request ℕ
drop_one = record { op = req_op_discard; rq_pos = 24; rq_sectors = 8; bvecs = [] }

abbrev session : List (Event ℕ)
session =
    arrives true store_two
    ∷ arrives true flush_one
    ∷ runs
    ∷ arrives false drop_one
    ∷ arrives true read_one
    ∷ arrives true drop_one
    ∷ runs
    ∷ []

-- The read sees what the flush stored before it.
session_read :
    (disk_run (taken session) (λ j. 0)).0
    ≡ store_two.bvecs ∷ flush_one.bvecs ∷ (vec 16 55 ∷ []) ∷ [] ∷ []
unfolding disk_run disk_serve store
session_read = refl

-- The sectors 24, 32 and 16 start pages.
within_3_4 : All (IsPage (2 ^ 18 * 128)) store_two.bvecs
within_3_4 = (((3, omega arith, refl), refl), (((4, omega arith, refl), refl), tt))

within_2 : All (IsPage (2 ^ 18 * 128)) flush_one.bvecs
within_2 = (((2, omega arith, refl), refl), tt)

sim_memory : (u : SimWorld) → (sim.kmem_cache_alloc u).0 ≢ none
sim_memory u e = ground arith

abbrev sim_GrantsAll : GrantsAll sim
sim_GrantsAll = record {
  memory = sim_memory;
  reads = λ o u. refl;
  writes = λ page o u. refl;
  syncs = λ f l u. refl;
}

init-IsDisk_example :
    let v = (init_driver sim params 128 all_granted start).1.driver in
    IsDisk sim sim_documented
      (taken session)
      (drain sim params 9 (steps sim params session (loaded v)))
init-IsDisk_example =
    init-IsDisk sim params 128 all_granted sim_documented session 9 start sim_GrantsAll
      (omega arith) (omega arith) (omega arith) refl
      ((init_driver_lem sim params 128 all_granted start start-IsUnset granted-GivesErrors).0.1
        refl)
      refl (within_3_4, (within_2, (within_2, (tt, tt)))) (omega arith)
