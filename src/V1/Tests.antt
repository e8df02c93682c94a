-- ===== src/V1/Tests.antt =====
-- src/driver/src/dynamap.c and src/driver/src/dynaswap_drv.c: runs on a small table.
mod Overlaps
mod Loads
use dynaswap.Base.{
  [], ◌∷◌, ℕ, ◌+◌, ◌-◌, ◌/◌, ◌≡◌, ◌≢◌, ◌⊎◌, refl, sym, ◌∙◌, true, false, if◌then◌else◌, ◌==◌, ◌&&◌,
  arith, ℤ, pos,
}
use dynaswap.V2.Tests.Sim.{sim, sim_documented, SimWorld, empty_world}
use dynaswap.V1.Dynamap.{
  DynamapCtx, Dynamap, no_slot, dynaswap_read, dynaswap_write, dynaswap_discard,
  dynaswap_expand_file,
}
use dynaswap.V2.Device.{req_op_write}
use dynaswap.V1.Driver.{Segment, DriverRequest, process_segments, dynaswap_process_work}
use dynaswap.V1.Driver.Kept.{IsReady, dynaswap_process_work-IsReady}
use dynaswap.V1.Dynamap.Valid.{IsValid, entry}
use dynaswap.V1.Dynamap.View.{view, dynaswap_read-view}
use dynaswap.V1.Dynamap.Write.{Wrote, IsStatus, dynaswap_write_stored, dynaswap_write-IsStatus}
use dynaswap.V1.Dynamap.Grow.{Grown, dynaswap_expand_file_lem}
use dynaswap.V1.Dynamap.Discard.{PunchesPage, Cleared, dynaswap_discard-Cleared}

abbrev segment : ℕ → ℕ → Segment ℕ
segment sector page = record { segment_sector = sector; segment_page = page }

-- Page 2 has slot 0, of three; the device has two directories.
abbrev pub table : DynamapCtx
table = record {
  has_dir = λ dir. if dir == 0 then true else dir == 1;
  virt_to_phys_map = λ dir leaf. if (dir == 0) && (leaf == 2) then 0 else no_slot;
  slot_bitmap = λ p. p == 0;
  slot_hint = 1;
  slot_max_count = 8;
  total_slots = 3;
  active_slots = 1;
}

abbrev pub small : Dynamap SimWorld
small = record {
  ctx = table;
  world = record empty_world { pages = λ o. if o == 0 then 77 else 0 };
  extend_queued = false;
}

page_two : (i : ℕ) → entry table i ≢ no_slot → i ≡ 2
page_two i h = ground (arith, h)

pub table-IsValid : IsValid table
table-IsValid = record {
  one_to_one = λ i j m e. page_two i m ∙ sym (page_two j (λ z. m (e ∙ z)));
  marked = λ i m. ground (arith, page_two i m);
  dirs = λ i m. ground (arith, page_two i m);
  owned = λ p m. (2, ground arith);
  below = λ p m. ground arith;
  counted = refl;
  fits = omega arith;
  small = omega arith;
}

-- A hole is a page of zeros.
abbrev pub punch : ℕ → SimWorld → ℤ × SimWorld
punch o w = (pos 0, record w { pages = λ j. if o == j then 0 else w.pages j })

pub punch-PunchesPage : PunchesPage sim sim_documented punch
punch-PunchesPage = record { punch_other = λ w o j h. ground arith }

dynaswap_write_stored_example :
    Wrote sim sim_documented small (24 / 8) 88 (dynaswap_write sim 80 24 88 small)
dynaswap_write_stored_example =
    dynaswap_write_stored sim sim_documented 80 24 88 small table-IsValid refl

dynaswap_write-IsStatus_example :
    IsStatus sim sim_documented table (24 / 8) (dynaswap_write sim 80 24 88 small).0
dynaswap_write-IsStatus_example =
    dynaswap_write-IsStatus sim sim_documented 80 24 88 small table-IsValid

dynaswap_expand_file_lem_example :
    Grown sim sim_documented small (dynaswap_expand_file sim 256 small)
dynaswap_expand_file_lem_example =
    dynaswap_expand_file_lem sim sim_documented 256 small table-IsValid

-- From the middle of page 2 into page 4.
dynaswap_discard-Cleared_example :
    let (status, t) = dynaswap_discard punch 20 16 small in
    (status ≡ 0) × Cleared sim sim_documented punch (20 / 8) ((20 + 16) / 8 - 20 / 8) small t
dynaswap_discard-Cleared_example =
    dynaswap_discard-Cleared sim sim_documented punch 20 16 small punch-PunchesPage table-IsValid
      (omega arith)

abbrev pub write_two : DriverRequest ℕ
write_two = record {
  operation = req_op_write;
  start = 24;
  nr_sectors = 16;
  segments = segment 24 88 ∷ segment 32 99 ∷ [];
}

small-IsReady : IsReady 2 small
small-IsReady = record { valid = table-IsValid; dirs = λ dir h. ground arith }
