-- ===== src/V2/Tests/Sectors.antt =====
-- src/driver/v2/context.c: sectors written and read on a small driver.
use Prim.Native.Nat.{min}
use dynaswap.Base.{
  ◌+◌, ◌*◌, ◌≡◌, refl, ◌≢◌, ◌⊎◌, false, List, [], ◌∷◌, none, arith, pos, if◌then◌else◌, ◌==◌,
}
use dynaswap.V2.Bimap.{Entry, insert, find_by_sector}
use dynaswap.V2.Bimap.Lookup.{slot_of}
use dynaswap.V2.Slot.{
  slot_manager_needs_extend, find_slot_sector, reserve_slot_sector, claim_slot, next_free,
  mark_slot,
}
use dynaswap.V2.Storage.{read_storage, write_storage, offset_of}
use dynaswap.V2.Context.{
  Params, Driver, dynaswap_extend, dynaswap_read, dynaswap_write, make_room, write_sector,
}
use dynaswap.V2.Context.View.{view, dynaswap_read_lem}
use dynaswap.V2.Context.Write.{Wrote, dynaswap_write-Wrote}
use dynaswap.V2.Context.Growth.{dynaswap_extend_lem, dynaswap_write_zero}
use dynaswap.V2.Tests.Sim.{sim, sim_documented, SimWorld, empty_world}
use dynaswap.V2.Tests.Slots.{one_mapped, sixteen_entry, one_mapped-IsValid}

-- Chunks of a megabyte, more from half of the slots on.
abbrev pub params : Params
params = record { chunk_size_mb = 1; extend_threshold = 50 }

-- Sector 16 is in slot 0 and holds 77.
abbrev pub device : Driver SimWorld
device = record {
  slots = one_mapped;
  world = record empty_world { pages = λ o. if o == 0 then 77 else 0 };
  extend_queued = false;
}

read_back :
    (dynaswap_read sim params 16 device ≡ (pos 0, 77))
    × (dynaswap_read sim params 24 device ≡ (pos 0, 0))
    × (dynaswap_read sim params 24 (dynaswap_write sim params 24 88 device).1 ≡ (pos 0, 88))
    × (dynaswap_read sim params 16 (dynaswap_write sim params 24 88 device).1 ≡ (pos 0, 77))
unfolding dynaswap_read dynaswap_write make_room write_sector slot_manager_needs_extend
    find_slot_sector reserve_slot_sector claim_slot next_free mark_slot insert find_by_sector
    read_storage write_storage offset_of
read_back = (refl, refl, refl, refl)

dynaswap_write-Wrote_example :
    (es' : List Entry) × Wrote sim sim_documented
      (sixteen_entry ∷ [])
      device
      24
      88
      es'
      (dynaswap_write sim params 24 88 device)
dynaswap_write-Wrote_example =
    dynaswap_write-Wrote sim sim_documented params (sixteen_entry ∷ []) device 24 88 (omega arith)
      one_mapped-IsValid

dynaswap_read_lem_example :
    let (status, page) = dynaswap_read sim params 16 device in
    ((status ≡ pos 0) × (page ≡ view sim sim_documented (sixteen_entry ∷ []) device.world 16))
    ⊎ ((status ≢ pos 0) × (page ≡ 0) × (slot_of 16 (sixteen_entry ∷ []) ≢ none))
dynaswap_read_lem_example =
    dynaswap_read_lem sim sim_documented params (sixteen_entry ∷ []) device 16 one_mapped-IsValid

-- Of the 256 slots of a chunk 5 fit, and all are asked for.
dynaswap_extend_lem_example : dynaswap_extend sim params device ≡ record device {
  slots = record one_mapped { total_slots = min (3 + 256) 8 };
  world = (sim.vfs_fallocate (4096 * 3) (4096 * 256) device.world).1;
}
dynaswap_extend_lem_example =
    dynaswap_extend_lem sim params (sixteen_entry ∷ []) device (omega arith) one_mapped-IsValid

dynaswap_write_zero_example : (dynaswap_write sim params 24 88 device).0 ≡ pos 0
dynaswap_write_zero_example =
    dynaswap_write_zero sim sim_documented params (sixteen_entry ∷ []) device 24 88 (omega arith)
      (omega arith) one_mapped-IsValid (omega arith) (λ u e. ground arith) (λ u o. refl)
      (λ u f l. refl)
