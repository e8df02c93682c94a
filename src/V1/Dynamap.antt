-- ===== src/V1/Dynamap.antt =====
-- src/driver/src/dynamap.c: a two-level table from the pages of the device to slots of the backing
-- file. The kernel is that of V2/Kernel, and `punch_hole`, the call of `vfs_fallocate` that frees
-- the page at an offset.
-- The semaphore is left out: each function runs alone. So `dynaswap_write` finds at the second test
-- of a table entry what it found at the first.
pub mod Valid
pub mod View
pub mod Write
pub mod Grow
pub mod Discard
use Prim.Native.Nat.{min}
use dynaswap.Base.{
  ℕ, zero, suc, ◌+◌, ◌-◌, ◌*◌, ◌/◌, ◌%◌, ◌^◌, ℤ, Bool, true, false, not, ◌&&◌, if◌then◌else◌, ◌==◌,
  ltb, leb, Bits, set_bit, nonzero, is_nat, add_ulong, mul_ulong, shl_ulong, shr,
}
use dynaswap.V2.Kernel.{Kernel}
use dynaswap.V2.Storage.{offset_of}

-- `struct dynamap_ctx`, less the file and the work queue; `has_dir` tells which pointers of the
-- table's directory are not NULL. `phys_to_virt_map` is filled once and never used.
pub record DynamapCtx : Type 0 where
  pub has_dir : ℕ → Bool
  pub virt_to_phys_map : ℕ → ℕ → ℕ
  pub slot_bitmap : Bits
  pub slot_hint : ℕ
  pub slot_max_count : ℕ
  pub total_slots : ℕ
  pub active_slots : ℕ

-- The context, the kernel with the backing file in it, and whether `extend_work` is queued.
pub record Dynamap (World : Type 0) : Type 0 where
  pub ctx : DynamapCtx
  pub world : World
  pub extend_queued : Bool

abbrev pub entries_per_page : ℕ
entries_per_page = 512

-- `~0UL`
abbrev pub no_slot : ℕ
no_slot = 2 ^ 64 - 1

abbrev pub sector_index_shift : ℕ
sector_index_shift = 3

abbrev pub blk_sts_nospc : ℕ
blk_sts_nospc = 3

abbrev pub blk_sts_ioerr : ℕ
blk_sts_ioerr = 10

-- The table with one entry changed.
abbrev pub put_entry : ℕ → ℕ → ℕ → (ℕ → ℕ → ℕ) → ℕ → ℕ → ℕ
put_entry dir leaf v t a b = if (a == dir) && (b == leaf) then v else t a b

-- `clear_bit`
abbrev pub clear_bit : ℕ → Bits → Bits
clear_bit i b j = if i == j then false else b j

-- `trigger` is the module argument inflate_threshold.
unfoldable pub dynaswap_should_extend : ℕ → DynamapCtx → Bool
dynaswap_should_extend trigger c =
    if c.total_slots == 0 then true else leb trigger (mul_ulong c.active_slots 100 / c.total_slots)

-- A free slot goes to a page.
unfoldable pub take_slot : ℕ → ℕ → ℕ → DynamapCtx → DynamapCtx
take_slot dir leaf p_slot c = record c {
  slot_bitmap = set_bit p_slot c.slot_bitmap;
  slot_hint = add_ulong p_slot 1 % c.total_slots;
  virt_to_phys_map = put_entry dir leaf p_slot c.virt_to_phys_map;
  active_slots = add_ulong c.active_slots 1;
}

-- And is given back.
unfoldable pub drop_slot : ℕ → ℕ → ℕ → DynamapCtx → DynamapCtx
drop_slot dir leaf p_slot c = record c {
  slot_bitmap = clear_bit p_slot c.slot_bitmap;
  virt_to_phys_map = put_entry dir leaf no_slot c.virt_to_phys_map;
  active_slots = (c.active_slots + 2 ^ 64 - 1) % 2 ^ 64;
}

module _ {World Page : Type 0} (k : Kernel World Page) where
  -- `chunk` is the module argument chunk_size.
  unfoldable pub dynaswap_expand_file : ℕ → Dynamap World → Dynamap World
  dynaswap_expand_file chunk s =
      let old_slots = s.ctx.total_slots in
      let sum = add_ulong old_slots (shr (mul_ulong (mul_ulong chunk 1024) 1024) 12) in
      let new_slots = if ltb s.ctx.slot_max_count sum then s.ctx.slot_max_count else sum in
      let (ret, w) =
        k.vfs_fallocate (offset_of old_slots) (offset_of (new_slots - old_slots)) s.world in
      if leb new_slots old_slots
      then s
      else (if nonzero ret
          then record s { world = w }
          else record s { ctx = record s.ctx { total_slots = new_slots }; world = w })

  -- The status, and what the page holds afterwards.
  unfoldable pub dynaswap_read : ℕ → Dynamap World → ℕ × Page
  dynaswap_read sector s =
      let page_index = shr sector sector_index_shift in
      let p_slot =
        s.ctx.virt_to_phys_map (page_index / entries_per_page) (page_index % entries_per_page) in
      let (ret, page) = k.kernel_read (offset_of p_slot) s.world in
      if p_slot == no_slot
      then (0, k.zero_page)
      else (if not (is_nat ret 4096) then (blk_sts_ioerr, k.zero_page) else (0, page))

  -- The search from the hint on, then from 0.
  unfoldable pub find_slot : DynamapCtx → ℕ
  find_slot c =
      let from_hint = k.find_next_zero_bit c.slot_bitmap c.total_slots c.slot_hint in
      if leb c.total_slots from_hint
      then k.find_next_zero_bit c.slot_bitmap c.total_slots 0
      else from_hint

  -- `disk_write`: the result of the write is not looked at.
  unfoldable pub disk_write : ℕ → Page → Dynamap World → ℕ × Dynamap World
  disk_write p_slot page s =
      (0, record s { world = (k.kernel_write page (offset_of p_slot) s.world).1 })

  -- A write once the extension is queued.
  unfoldable pub write_page : ℕ → Page → Dynamap World → ℕ × Dynamap World
  write_page page_index page s =
      let dir = page_index / entries_per_page in
      let leaf = page_index % entries_per_page in
      let p_slot = s.ctx.virt_to_phys_map dir leaf in
      let free = find_slot s.ctx in
      if not (p_slot == no_slot)
      then disk_write p_slot page s
      else (if leb s.ctx.total_slots free
          then (blk_sts_nospc, s)
          else disk_write free page (record s { ctx = take_slot dir leaf free s.ctx }))

  unfoldable pub dynaswap_write : ℕ → ℕ → Page → Dynamap World → ℕ × Dynamap World
  dynaswap_write trigger sector page s =
      write_page (shr sector sector_index_shift) page
        (if dynaswap_should_extend trigger s.ctx then record s { extend_queued = true } else s)

  -- The work function.
  unfoldable pub dynaswap_extend : ℕ → Dynamap World → Dynamap World
  dynaswap_extend chunk s = dynaswap_expand_file chunk (record s { extend_queued = false })

module _ {World : Type 0} (punch_hole : ℕ → World → ℤ × World) where
  -- One round of the inner loop. An error of the hole is only printed.
  unfoldable pub discard_page : ℕ → Dynamap World → Dynamap World
  discard_page i s =
      let dir = i / entries_per_page in
      let leaf = i % entries_per_page in
      let p_slot = s.ctx.virt_to_phys_map dir leaf in
      if not (s.ctx.has_dir dir)
      then s
      else (if p_slot == no_slot then s else record s {
        ctx = drop_slot dir leaf p_slot s.ctx;
        world = (punch_hole (offset_of p_slot) s.world).1;
      })

  -- The inner loop: `n` pages from `i` on.
  unfoldable pub discard_batch : ℕ → ℕ → Dynamap World → Dynamap World
  discard_batch zero i s = s
  discard_batch (suc n) i s = discard_batch n (suc i) (discard_page i s)

  -- The outer loop, at most `n` times round.
  unfoldable pub discard_loop : ℕ → ℕ → ℕ → Dynamap World → Dynamap World
  discard_loop zero i end_index s = s
  discard_loop (suc n) i end_index s =
      let batch_end = min (i + 512) end_index in
      let rest = discard_loop n batch_end end_index (discard_batch (batch_end - i) i s) in
      if ltb i end_index then rest else s

  unfoldable pub dynaswap_discard : ℕ → ℕ → Dynamap World → ℕ × Dynamap World
  dynaswap_discard sector_start nr_sectors s =
      let start_index = shr sector_start sector_index_shift in
      let end_index = shr (add_ulong sector_start nr_sectors) sector_index_shift in
      (0, discard_loop (end_index - start_index) start_index end_index s)
