-- ===== src/V1/Tests/Overlaps.antt =====
-- src/driver/src/dynamap.c: writes that overlap, and one that a discard overtakes.
use dynaswap.Base.{ℕ, ◌≡◌, refl, [], ◌∷◌}
use dynaswap.V2.Tests.Sim.{sim, sim_documented, SimWorld}
use dynaswap.V1.Tests.{small, table, table-IsValid, punch, punch-PunchesPage}
use dynaswap.V1.Dynamap.{
  Dynamap, discard_page, take_slot, find_slot, disk_write, dynaswap_should_extend, drop_slot,
}
use dynaswap.V2.Storage.{offset_of}
use dynaswap.V1.Dynamap.View.{view}
use dynaswap.V1.Threads.{
  Writer, Threads, asking, writing, write_step, next_stage, look_up, claim, Overlap, start, arrived,
  stepped,
}
use dynaswap.V1.Threads.Steps.{WritesWhole}
use dynaswap.V1.Threads.Order.{IsOrdered, Overlap-IsOrdered}

pub sim-WritesWhole : WritesWhole sim sim_documented
sim-WritesWhole = record { whole = λ page o w. refl }

-- Two writes of page 3 run, and the second one takes its first step.
abbrev idle : Threads SimWorld ℕ
idle = record { map = small; writers = [] }

abbrev first_write : Writer ℕ
first_write = record { page_index = 3; page = 88; stage = asking }

abbrev second_write : Writer ℕ
second_write = record { page_index = 3; page = 99; stage = asking }

abbrev both_run : Threads SimWorld ℕ
both_run = record {
  map = (write_step sim 80 second_write small).1;
  writers = (write_step sim 80 second_write small).0 ∷ first_write ∷ [];
}

both_run-Overlap : Overlap sim 80 punch 1 idle [] both_run
both_run-Overlap =
    stepped [] (first_write ∷ []) second_write (arrived 3 99 (arrived 3 88 start refl) refl) refl

Overlap-IsOrdered_example : IsOrdered sim sim_documented punch 80 1 idle [] both_run
Overlap-IsOrdered_example =
    Overlap-IsOrdered sim sim_documented punch 80 1 idle both_run sim-WritesWhole punch-PunchesPage
      table-IsValid tt both_run-Overlap

-- One slot in all, which page 2 has.
abbrev crowded : Dynamap SimWorld
crowded = record small { ctx = record table { slot_hint = 0; total_slots = 1; slot_max_count = 1 } }

abbrev steps : ℕ → ℕ → Dynamap SimWorld → Dynamap SimWorld
steps i page s =
    let (a, s₁) = write_step sim 80 (record { page_index = i; page = page; stage = asking }) s in
    let (b, s₂) = write_step sim 80 a s₁ in
    let (c, s₃) = write_step sim 80 b s₂ in (write_step sim 80 c s₃).1

-- A write of page 2 has looked its slot up; page 2 is discarded and page 5, written as 55, takes the
-- slot. Then the first write goes on: page 5 reads what was written to page 2.
abbrev overtaken : Dynamap SimWorld
overtaken =
    (write_step sim 80 (record { page_index = 2; page = 22; stage = writing 0 })
      (steps 5 55 (discard_page punch 2 crowded))).1

looked_up : look_up 2 crowded.ctx ≡ writing 0
unfolding look_up
looked_up = refl

page_five : view sim sim_documented (steps 5 55 (discard_page punch 2 crowded)) 5 ≡ 55
unfolding view write_step next_stage look_up claim discard_page disk_write dynaswap_should_extend
    drop_slot find_slot take_slot offset_of
page_five = refl

page_five_lost : view sim sim_documented overtaken 5 ≡ 22
unfolding view write_step next_stage look_up claim discard_page disk_write dynaswap_should_extend
    drop_slot find_slot take_slot offset_of
page_five_lost = refl
