-- ===== src/V2/Slot.antt =====
-- src/driver/v2/fs/slot.c: which slots of the backing file are in use, and for which sector.
pub mod Valid
pub mod Extend
pub mod Reserve
use dynaswap.Base.{
  ℕ, zero, suc, ◌+◌, ◌-◌, ◌*◌, ◌/◌, ◌%◌, ◌^◌, ℤ, pos, neg, Bool, true, false, List, [], ◌∷◌, Option,
  none, some, ◌==◌, leb, ltb, ◌||◌, if◌then◌else◌, Bits, set_bit, nonzero, ltb_int, to_long,
  add_ulong, mul_ulong, shl_ulong, shr,
}
use dynaswap.V2.Kernel.{Kernel}
use dynaswap.V2.Bimap
use dynaswap.V2.Bimap.{Bimap}

-- `extend_status`
pub data ExtendStatus : Type 0 where
  extend_not_needed extend_needed extend_required : ExtendStatus

-- `struct slot_manager`. The two atomic counters are kept as their 64 bits.
pub record SlotManager : Type 0 where
  pub slot_bitmap : Bits
  pub bitmap_size : ℕ
  pub bitmap_hint : ℕ
  pub slot_bimap : Bimap
  pub total_slots : ℕ
  pub active_slots : ℕ

abbrev pub enospc : ℕ
enospc = 28

-- `threshold` is the module argument EXTEND_THRESHOLD_PERCENT, an unsigned char.
unfoldable pub slot_manager_needs_extend : ℕ → SlotManager → ExtendStatus
slot_manager_needs_extend threshold m =
    if (m.total_slots == 0) || (m.total_slots == m.active_slots)
    then extend_required
    else (if leb threshold (mul_ulong m.active_slots 100 / m.total_slots)
        then extend_needed
        else extend_not_needed)

unfoldable pub get_total_slots : SlotManager → ℕ
get_total_slots m = m.total_slots

-- The value that the loop tries to store: the sum, cut to the size of the bitmap.
unfoldable pub target_slots : ℕ → ℕ → ℕ → ℕ
target_slots max_slots new_slots old_slots =
    if ltb_int (to_long max_slots) (to_long (add_ulong old_slots new_slots))
    then max_slots
    else add_ulong old_slots new_slots

-- The loop, from the value `old_slots` just read. The list is what other processors store in the
-- counter before each try of the compare and exchange; when it is used up, the try succeeds.
unfoldable pub extend_loop : ℕ → ℕ → List ℕ → ℕ → ℕ
extend_loop max_slots new_slots [] old_slots =
    if ltb_int (to_long old_slots) (to_long max_slots)
    then target_slots max_slots new_slots old_slots
    else old_slots
extend_loop max_slots new_slots (seen ∷ others) old_slots =
    let retry = extend_loop max_slots new_slots others seen in
    if ltb_int (to_long old_slots) (to_long max_slots)
    then (if seen == old_slots then target_slots max_slots new_slots old_slots else retry)
    else old_slots

unfoldable pub extend_slots : List ℕ → ℕ → SlotManager → SlotManager
extend_slots others new_slots m = record m {
  total_slots = extend_loop m.bitmap_size new_slots others m.total_slots;
}

-- `clear_slot_sector_range`: its body is commented out.
unfoldable pub clear_slot_sector_range : ℕ → ℕ → SlotManager → ℤ × SlotManager
clear_slot_sector_range sector n m = (pos 0, m)

-- The bookkeeping of a slot that was found, before the map is told.
unfoldable pub mark_slot : ℕ → SlotManager → SlotManager
mark_slot free_slot m = record m {
  slot_bitmap = set_bit free_slot m.slot_bitmap;
  bitmap_hint = add_ulong free_slot 1 % m.total_slots;
  active_slots = add_ulong m.active_slots 1;
}

module _ {World Page : Type 0} (k : Kernel World Page) where
  unfoldable pub find_slot_sector : ℕ → SlotManager → ℤ × Option ℕ
  find_slot_sector sector m = Bimap.find_by_sector k.hash sector m.slot_bimap

  -- The search from the hint on, then from 0.
  unfoldable pub next_free : SlotManager → ℕ
  next_free m =
      let from_hint = k.find_next_zero_bit m.slot_bitmap m.total_slots m.bitmap_hint in
      if leb m.total_slots from_hint
      then k.find_next_zero_bit m.slot_bitmap m.total_slots 0
      else from_hint

  -- Status, the out parameter `slot` (`none`: not written), and the new states.
  unfoldable pub claim_slot : ℕ → ℕ → SlotManager → World → ℤ × Option ℕ × SlotManager × World
  claim_slot sector free_slot m w =
      let (status, b, w') =
        Bimap.insert k.hash k.kmem_cache_alloc sector free_slot m.slot_bimap w in
      if nonzero status
      then (status, none, record m { slot_bimap = b }, w')
      else (pos 0, some free_slot, record m { slot_bimap = b }, w')

  unfoldable pub reserve_slot_sector : ℕ → SlotManager → World → ℤ × Option ℕ × SlotManager × World
  reserve_slot_sector sector m w =
      let (found, slot) = find_slot_sector sector m in
      let free_slot = next_free m in
      if nonzero found
      then (if leb m.total_slots free_slot
          then (neg enospc, none, m, w)
          else claim_slot sector free_slot (mark_slot free_slot m) w)
      else (pos 0, slot, m, w)

-- `gb` is the module argument BLOCK_CAPACITY_GB, `bitmap` and `cache` tell whether the two
-- allocations succeed. The status of `init_bimap` is dropped.
unfoldable pub setup_slot_manager : ℕ → Bool → Bool → SlotManager → ℤ × SlotManager
setup_slot_manager gb bitmap cache m =
    let m' : SlotManager = record m { bitmap_size = shr (shl_ulong gb 30) 12; bitmap_hint = 0 } in
    if bitmap
    then (
      pos 0,
      record m' {
        slot_bitmap = λ i. false;
        slot_bimap = (Bimap.init_bimap cache).1;
        total_slots = 0;
        active_slots = 0;
      },
    )
    else (neg Bimap.enomem, m')

-- With the addresses of the entries that are freed.
unfoldable pub teardown_slot_manager : SlotManager → List ℕ × SlotManager
teardown_slot_manager m =
    let (freed, b) = Bimap.destroy_bimap m.slot_bimap in (freed, record m { slot_bimap = b })
