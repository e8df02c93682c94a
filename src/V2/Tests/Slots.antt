-- ===== src/V2/Tests/Slots.antt =====
-- src/driver/v2/fs/slot.c on small managers.
use dynaswap.Base.{
  ℕ, cut, decimal, ◌*◌, ◌≤◌, ◌<◌, ◌≡◌, refl, ◌↔◌, true, false, [], ◌∷◌, some, arith, ◌==◌,
  if◌then◌else◌,
}
use dynaswap.V2.Bimap as Map
use dynaswap.V2.Bimap.{Bimap, Entry}
use dynaswap.V2.Bimap.Entries.{add_at}
use dynaswap.V2.Slot.{
  SlotManager, extend_needed, extend_required, extend_not_needed, slot_manager_needs_extend,
  extend_loop, reserve_slot_sector, next_free, find_slot_sector, claim_slot, mark_slot,
  target_slots,
}
use dynaswap.V2.Slot.Valid.{IsValid}
use dynaswap.V2.Slot.Extend.{extend_loop-le, needs_extend_lem}
use dynaswap.V2.Slot.Reserve.{reserve_slot_sector_free, given}
use dynaswap.V2.Debug.{
  newline, percent_newline, read_slot_file, total_slots_file, active_slots_file, free_slots_file,
  slot_usage_percent_file, usage_percent_read_file, usage_value, div_long, shown, long_text,
}
use dynaswap.V2.Debug.Shown.{Shows, read_slot_file_lem}
use dynaswap.V2.Tests.Sim.{sim, sim_documented, empty_world}

abbrev pub no_entries : Bimap
no_entries = record { sector_to_slot = λ b. []; slot_to_sector = λ b. []; entry_cache = true }

-- Three slots of which none is in use.
abbrev three_slots : SlotManager
three_slots = record {
  slot_bitmap = λ i. false;
  bitmap_size = 8;
  bitmap_hint = 0;
  slot_bimap = no_entries;
  total_slots = 3;
  active_slots = 0;
}

three_slots-IsValid : IsValid sim.hash [] three_slots
three_slots-IsValid = record {
  holds = record { sectors = λ b. refl; slots = λ b. refl };
  one_to_one = tt;
  marked = tt;
  below = λ i h. ground arith;
  counted = refl;
  fits = omega arith;
  small = omega arith;
}

-- The manager before anything is set up.
abbrev pub blank : SlotManager
blank = record three_slots { total_slots = 0; bitmap_size = 0 }

-- Sector 16 gets slot 0, and sector 24 slot 1.
abbrev one_used : SlotManager
one_used = (reserve_slot_sector sim 16 three_slots empty_world).2

reserve_two :
    ((reserve_slot_sector sim 16 three_slots empty_world).1 ≡ some 0)
    × ((reserve_slot_sector sim 24 one_used empty_world).1 ≡ some 1)
    × ((reserve_slot_sector sim 16 one_used empty_world).1 ≡ some 0)
unfolding reserve_slot_sector find_slot_sector next_free claim_slot mark_slot Map.insert
    Map.find_by_sector
reserve_two = (refl, refl, refl)

reserve_slot_sector_free_example :
    let (status, slot, m', w') = reserve_slot_sector sim 16 three_slots empty_world in
    (three_slots.slot_bitmap (next_free sim three_slots) ≡ false)
    × (status ≡ (add_at (some 100) 16 (next_free sim three_slots) []).0)
    × (slot ≡ given sim sim_documented (some 100) (next_free sim three_slots))
    × IsValid sim.hash (add_at (some 100) 16 (next_free sim three_slots) []).1 m'
    × (m'.active_slots ≡ 1)
    × (m'.total_slots ≡ 3)
    × (w' ≡ record empty_world { next = 101 })
reserve_slot_sector_free_example =
    reserve_slot_sector_free sim sim_documented [] three_slots empty_world 16 three_slots-IsValid
      refl (omega arith)

-- Sector 16 in slot 0, and two slots free.
abbrev sixteen : Entry
sixteen = record { addr = 100; sector = 16; slot = 0 }

abbrev pub one_mapped : SlotManager
one_mapped = record three_slots {
  slot_bitmap = λ i. i == 0;
  bitmap_hint = 1;
  slot_bimap = record no_entries {
    sector_to_slot = λ b. if 16 == b then sixteen ∷ [] else [];
    slot_to_sector = λ b. if 0 == b then sixteen ∷ [] else [];
  };
  active_slots = 1;
}

abbrev pub sixteen_entry : Entry
sixteen_entry = sixteen

pub one_mapped-IsValid : IsValid sim.hash (sixteen_entry ∷ []) one_mapped
one_mapped-IsValid = record {
  holds = record { sectors = λ b. refl; slots = λ b. refl };
  one_to_one = (tt, tt);
  marked = (refl, tt);
  below = λ i h. ground arith;
  counted = refl;
  fits = omega arith;
  small = omega arith;
}

-- The same with no other slot.
abbrev full_slots : SlotManager
full_slots = record one_mapped { total_slots = 1 }

full_slots-IsValid : IsValid sim.hash (sixteen_entry ∷ []) full_slots
full_slots-IsValid = record {
  holds = record { sectors = λ b. refl; slots = λ b. refl };
  one_to_one = (tt, tt);
  marked = (refl, tt);
  below = λ i h. ground arith;
  counted = refl;
  fits = omega arith;
  small = omega arith;
}

needs_extend_lem_example :
    ((slot_manager_needs_extend 30 one_mapped ≡ extend_required)
      ↔ (one_mapped.active_slots ≡ one_mapped.total_slots))
    × ((slot_manager_needs_extend 30 one_mapped ≡ extend_needed) ↔ (
        (one_mapped.active_slots < one_mapped.total_slots)
        × (30 * one_mapped.total_slots ≤ 100 * one_mapped.active_slots)))
needs_extend_lem_example =
    needs_extend_lem 30 sim.hash (sixteen_entry ∷ []) one_mapped one_mapped-IsValid

-- A third is in use: at a threshold of 30 percent more is needed, at 50 percent it is not.
needs_extend_at :
    (slot_manager_needs_extend 30 one_mapped ≡ extend_needed)
    × (slot_manager_needs_extend 50 one_mapped ≡ extend_not_needed)
    × (slot_manager_needs_extend 50 full_slots ≡ extend_required)
unfolding slot_manager_needs_extend
needs_extend_at = (refl, refl, refl)

-- Two other processors raise the total to 4 and to 7 before the store is made.
extend_loop_at : extend_loop 8 6 (4 ∷ 7 ∷ []) 3 ≡ 8
unfolding extend_loop target_slots
extend_loop_at = refl

extend_loop-le_example : extend_loop 8 6 (4 ∷ 7 ∷ []) 3 ≤ 8
extend_loop-le_example =
    extend_loop-le 8 6 (4 ∷ 7 ∷ []) 3 (omega arith) (omega arith) (omega arith)
      (omega arith, (omega arith, tt))

-- "33%"
usage_at : read_slot_file slot_usage_percent_file one_mapped ≡ 51 ∷ 51 ∷ percent_newline
unfolding read_slot_file usage_percent_read_file usage_value div_long shown long_text decimal cut
usage_at = refl

read_slot_file_lem_example :
    Shows (read_slot_file total_slots_file one_mapped) newline 3
    × Shows (read_slot_file active_slots_file one_mapped) newline 1
    × Shows (read_slot_file free_slots_file one_mapped) newline 2
    × ((p : ℕ) × Shows (read_slot_file slot_usage_percent_file one_mapped) percent_newline p
        × (p ≤ 100)
        × ((p ≡ 100) ↔ ((1 ≤ 3) × ((i : ℕ) → i < 3 → one_mapped.slot_bitmap i ≡ true))))
read_slot_file_lem_example =
    read_slot_file_lem sim.hash (sixteen_entry ∷ []) one_mapped one_mapped-IsValid
