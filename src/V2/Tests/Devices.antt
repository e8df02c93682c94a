-- ===== src/V2/Tests/Devices.antt =====
-- src/driver/v2/device.c: requests on a small device, alone and in a queue.
use dynaswap.Base.{ℕ, ◌+◌, ◌≡◌, refl, inl, true, false, List, [], ◌∷◌, arith, length}
use dynaswap.V2.Bimap.{Entry}
use dynaswap.V2.Device.{
  BioVec, Request, req_op_read, req_op_write, perform_rq, handle_rq, extend_work, Device,
}
use dynaswap.V2.Device.Requests.{Stored, perform_rq-Stored}
use dynaswap.V2.Device.Events.{Event, arrives, runs, steps, InOrder, steps-InOrder}
use dynaswap.V2.Device.Drain.{drain, drain_lem}
use dynaswap.V2.Tests.Sim.{sim, sim_documented, SimWorld}
use dynaswap.V2.Tests.Slots.{sixteen_entry, one_mapped-IsValid}
use dynaswap.V2.Tests.Sectors.{params, device}

abbrev pub vec : ℕ → ℕ → BioVec ℕ
vec s page = record { bi_sector = s; bv_page = page; bv_rest = [] }

-- Two segments, the first of one page, the second of two.
abbrev pub write_two : Request ℕ
write_two = record {
  op = req_op_write;
  rq_pos = 24;
  rq_sectors = 24;
  bvecs = vec 24 88 ∷ record { bi_sector = 32; bv_page = 99; bv_rest = 111 ∷ [] } ∷ [];
}

abbrev pub read_one : Request ℕ
read_one = record { op = req_op_read; rq_pos = 16; rq_sectors = 8; bvecs = vec 16 0 ∷ [] }

-- A read waits, and an extension behind it.
abbrev pub busy : Device SimWorld ℕ
busy = record {
  driver = record device { extend_queued = true };
  work = handle_rq read_one ∷ extend_work ∷ [];
  answers = [];
}

abbrev pub script : List (Event ℕ)
script = arrives true write_two ∷ runs ∷ arrives false read_one ∷ runs ∷ []

perform_rq-Stored_example :
    (es' : List Entry) × Stored sim sim_documented params
      (sixteen_entry ∷ [])
      device
      write_two.bvecs
      es'
      (perform_rq sim params write_two device)
perform_rq-Stored_example =
    perform_rq-Stored sim sim_documented params write_two (sixteen_entry ∷ []) device (inl refl)
      (omega arith) one_mapped-IsValid

pub busy-InOrder : InOrder sim sim_documented params (sixteen_entry ∷ []) busy
busy-InOrder = record { valid = one_mapped-IsValid; queued = refl }

steps-InOrder_example :
    (es' : List Entry) × InOrder sim sim_documented params es' (steps sim params script busy)
steps-InOrder_example =
    steps-InOrder sim sim_documented params script (sixteen_entry ∷ []) busy (omega arith)
      busy-InOrder

drain_lem_example :
    ((drain sim params 3 busy).work ≡ []) × (length (drain sim params 3 busy).answers ≡ 0 + 1)
drain_lem_example = drain_lem sim params 3 busy (omega arith)
