-- ===== src/V2/Context.antt =====
-- src/driver/v2/context.c: reading, writing and discarding sectors, and growing the backing file.
pub mod View
pub mod Same
pub mod Write
pub mod Growth
pub mod Room
use dynaswap.Base.{
  ℕ, ◌+◌, ◌*◌, ◌%◌, ◌^◌, ℤ, pos, Bool, true, false, List, [], ◌∷◌, Option, none, some,
  if◌then◌else◌, is_neg, nonzero, shl_ulong, shr,
}
use dynaswap.V2.Kernel.{Kernel}
use dynaswap.V2.Slot.{
  SlotManager, extend_not_needed, extend_needed, extend_required, slot_manager_needs_extend,
  get_total_slots, extend_slots, find_slot_sector, reserve_slot_sector, clear_slot_sector_range,
}
use dynaswap.V2.Storage.{page_shift, extend_storage, read_storage, write_storage}

-- The module arguments: CHUNK_SIZE_MB, an unsigned short, and EXTEND_THRESHOLD_PERCENT, an unsigned
-- char.
pub record Params : Type 0 where
  pub chunk_size_mb : ℕ
  pub extend_threshold : ℕ

-- The driver's state: the slot manager, the kernel with the backing file in it, and whether
-- `extend_work` is waiting in the work queue.
pub record Driver (World : Type 0) : Type 0 where
  pub slots : SlotManager
  pub world : World
  pub extend_queued : Bool

-- CHUNK_SIZE
abbrev pub chunk_size : Params → ℕ
chunk_size p = shl_ulong p.chunk_size_mb 20

abbrev pub chunk_slots : Params → ℕ
chunk_slots p = shr (chunk_size p) page_shift

-- The value of the local variable for a slot; it is not written only if the lookup fails.
abbrev pub slot_value : Option ℕ → ℕ
slot_value none = 0
slot_value (some s) = s

module _ {World Page : Type 0} (k : Kernel World Page) (p : Params) where
  -- The ordered work queue runs one function at a time, so no other processor is at the counter.
  -- The total is raised before the file is extended, and stays if that fails.
  unfoldable pub dynaswap_extend : Driver World → Driver World
  dynaswap_extend d =
      let current_slots = get_total_slots d.slots in
      let new_slots = chunk_slots p in
      record d {
        slots = extend_slots [] new_slots d.slots;
        world = (extend_storage k current_slots new_slots d.world).1;
      }

  -- The status, and what the page holds afterwards.
  unfoldable pub dynaswap_read : ℕ → Driver World → ℤ × Page
  dynaswap_read sector d =
      let (found, slot) = find_slot_sector k sector d.slots in
      let (ret, page) = read_storage k (slot_value slot) d.world in
      if nonzero found
      then (pos 0, k.zero_page)
      else (if nonzero ret then (ret, page) else (pos 0, page))

  -- The switch at the start of a write. Queueing work that is queued already does nothing.
  unfoldable pub make_room : Driver World → Driver World
  make_room d = elim (slot_manager_needs_extend p.extend_threshold d.slots) [
    | extend_needed ↦ record d { extend_queued = true }
    | extend_required ↦ dynaswap_extend d
    | extend_not_needed ↦ d
  ]

  -- A write once there is room.
  unfoldable pub write_sector : ℕ → Page → Driver World → ℤ × Driver World
  write_sector sector page d =
      let (reserved, slot, slots, w) = reserve_slot_sector k sector d.slots d.world in
      let (ret, w') = write_storage k (slot_value slot) page w in
      if nonzero reserved
      then (reserved, record d { slots = slots; world = w })
      else ((if nonzero ret then ret else pos 0), record d { slots = slots; world = w' })

  unfoldable pub dynaswap_write : ℕ → Page → Driver World → ℤ × Driver World
  dynaswap_write sector page d = write_sector sector page (make_room d)

-- Nothing is given back to the file.
unfoldable pub dynaswap_discard : {World : Type 0} → ℕ → ℕ → Driver World → ℤ × Driver World
dynaswap_discard start n d =
    let (ret, slots) = clear_slot_sector_range start n d.slots in (ret, record d { slots = slots })
