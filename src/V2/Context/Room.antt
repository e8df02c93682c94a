-- ===== src/V2/Context/Room.antt =====
-- Writes of whole pages never use the bitmap of src/driver/v2/fs/slot.c up: a page of the device
-- takes at most one slot, as long as memory is found for its entry.
use dynaswap.Base.{
  ℕ, ◌*◌, ◌≤◌, ◌<◌, ◌^◌, ◌≡◌, sym, ◌∙◌, ap, ◌≢◌, inl, inr, Bool, true, false, List, ◌∷◌, Option,
  none, some, arith, pos, is_nat, Bits, set_bit, count, count-le, count-set, count_full_iff,
  Option-cases,
}
use native.Mathlib.Decide.{dec_lt}
use mathlib.Core.Path.{fun_ext}
use dynaswap.V2.Kernel.{Kernel, Documented}
use dynaswap.V2.Bimap.{Entry}
use dynaswap.V2.Bimap.Lookup.{slot_of, find_by_sector_refines}
use dynaswap.V2.Slot.{
  SlotManager, find_slot_sector, next_free, reserve_slot_sector, claim_slot, mark_slot,
  extend_slots, slot_manager_needs_extend, extend_needed, extend_required, extend_not_needed,
}
use dynaswap.V2.Slot.Valid.{IsValid}
use dynaswap.V2.Slot.Reserve.{reserve_slot_sector_mapped, reserve_slot_sector_free}
use dynaswap.V2.Context.{Params, Driver, dynaswap_extend, make_room, write_sector, dynaswap_write}
use dynaswap.V2.Context.Same.{make_room-view}
use dynaswap.V2.Context.Growth.{make_room-room, dynaswap_write_mapped, dynaswap_write_zero}

abbrev is_mapped : Option ℕ → Bool
is_mapped none = false
is_mapped (some s) = true

-- A new entry is seen under its own sector only.
entered :
    (i j a free : ℕ) (es : List Entry)
    → let e : Entry = record { addr = a; sector = 8 * i; slot = free } in
      is_mapped (slot_of (8 * j) (e ∷ es)) ≡ set_bit i (λ l. is_mapped (slot_of (8 * l) es)) j
entered i j a free es = ground arith

module _ {World Page : Type 0} (k : Kernel World Page) where
  -- Whether the page `i` of the device, which starts at sector 8 * i, has a slot.
  abbrev pub has_page : SlotManager → Bits
  has_page m i = is_nat (find_slot_sector k (8 * i) m).0 0

  -- No more slots are active than pages have one, in a bitmap for `n` pages.
  pub record HasRoom (n : ℕ) (m : SlotManager) : Type 0 where
    pub paired : m.active_slots ≤ count n (has_page m)
    pub sized : m.bitmap_size ≡ n

  has_page_lem :
      (i : ℕ) (es : List Entry) (m : SlotManager)
      → IsValid k.hash es m
      → has_page m i ≡ is_mapped (slot_of (8 * i) es)
  unfolding find_slot_sector
  has_page_lem i es m v = ground (arith, find_by_sector_refines k.hash (8 * i) v.holds)

  -- A page without a slot leaves one free.
  room_for :
      (n i : ℕ) (es : List Entry) (m : SlotManager)
      → IsValid k.hash es m
      → HasRoom n m
      → i < n
      → slot_of (8 * i) es ≡ none
      → m.active_slots < m.bitmap_size
  room_for n i es m v r lt e = elim (dec_lt (count n (has_page m)) n) [
    | yes some_free ↦ omega (arith, r.paired, r.sized)
    | no full ↦
        let there = count_full_iff n i (has_page m) (omega (arith, count-le n (has_page m))) lt in
        absurd (ground (arith, has_page_lem i es m v, there))
  ]

  claim_slot-bitmap_size :
      (sector free : ℕ) (m : SlotManager) (w : World)
      → (claim_slot k sector free m w).2.bitmap_size ≡ m.bitmap_size
  unfolding claim_slot
  claim_slot-bitmap_size sector free m w = ground arith

  reserve-bitmap_size :
      (sector : ℕ) (m : SlotManager) (w : World)
      → (reserve_slot_sector k sector m w).2.bitmap_size ≡ m.bitmap_size
  unfolding reserve_slot_sector mark_slot
  reserve-bitmap_size sector m w =
      let free = next_free k m in
      ground (arith, claim_slot-bitmap_size sector free (mark_slot free m) w)

module _ {World Page : Type 0} (k : Kernel World Page) (d : Documented k) (p : Params) where
  reserve-HasRoom :
      (n i : ℕ) (es : List Entry) (m : SlotManager) (w : World)
      → IsValid k.hash es m
      → HasRoom k n m
      → i < n
      → (slot_of (8 * i) es ≡ none → m.active_slots < m.total_slots)
      → ((u : World) → (k.kmem_cache_alloc u).0 ≢ none)
      → HasRoom k n (reserve_slot_sector k (8 * i) m w).2
  reserve-HasRoom n i es m w v r lt room memory = elim (Option-cases (slot_of (8 * i) es)) [
    | inr (s, e) ↦ rw (reserve_slot_sector_mapped k d es m w (8 * i) s v e) r
    | inl e ↦
        let (_, _, _, valid, active, _, _) =
          reserve_slot_sector_free k d es m w (8 * i) v e (room e) in
        let free = next_free k m in
        let m' = (reserve_slot_sector k (8 * i) m w).2 in
        elim (Option-cases (k.kmem_cache_alloc w).0) [
          | inl out ↦ absurd (memory w out)
          | inr (a, got) ↦
              let now : has_page k m' ≡ set_bit i (has_page k m) = fun_ext λ j.
                has_page_lem k j _ m' (rw got at valid)
                ∙ entered i j a free es
                ∙ ap (λ (b : Bits). set_bit i b j) (sym (fun_ext (λ l. has_page_lem k l es m v))) in
              let one =
                count-set n i (has_page k m) lt (has_page_lem k i es m v ∙ ap is_mapped e) in
              record {
                paired = rw now (omega (arith, one, active, r.paired));
                sized = reserve-bitmap_size k (8 * i) m w ∙ r.sized;
              }
        ]
  ]

  -- Growing adds no active slot and no entry.
  pub dynaswap_extend-HasRoom :
      (n : ℕ) (v : Driver World) → HasRoom k n v.slots → HasRoom k n (dynaswap_extend k p v).slots
  unfolding dynaswap_extend extend_slots find_slot_sector
  dynaswap_extend-HasRoom n v r = record { paired = r.paired; sized = r.sized }

  make_room-HasRoom :
      (n : ℕ) (v : Driver World) → HasRoom k n v.slots → HasRoom k n (make_room k p v).slots
  unfolding make_room
  make_room-HasRoom n v r =
      elim (slot_manager_needs_extend p.extend_threshold v.slots)
        as (λ need.
          let v' : Driver World = elim need [
            | extend_needed ↦ record v { extend_queued = true }
            | extend_required ↦ dynaswap_extend k p v
            | extend_not_needed ↦ v
          ] in
          HasRoom k n v'.slots) [
            | extend_needed ↦ r
            | extend_required ↦ dynaswap_extend-HasRoom n v r
            | extend_not_needed ↦ r
          ]

  write_sector-slots :
      (sector : ℕ) (page : Page) (v : Driver World)
      → (write_sector k p sector page v).1.slots ≡ (reserve_slot_sector k sector v.slots v.world).2
  unfolding write_sector
  write_sector-slots sector page v = ground arith

  -- A write to a page of the device keeps room, and succeeds, if the kernel does what it is asked.
  pub dynaswap_write-HasRoom :
      (n i : ℕ) (es : List Entry) (v : Driver World) (page : Page)
      → 0 < p.chunk_size_mb
      → p.chunk_size_mb < 2 ^ 16
      → IsValid k.hash es v.slots
      → HasRoom k n v.slots
      → i < n
      → ((u : World) → (k.kmem_cache_alloc u).0 ≢ none)
      → ((u : World) (o : ℕ) → (k.kernel_write page o u).0 ≡ pos 4096)
      → ((u : World) (f l : ℕ) → (k.vfs_fsync_range f l u).0 ≡ pos 0)
      → let (status, v') = dynaswap_write k p (8 * i) page v in
        (status ≡ pos 0) × HasRoom k n v'.slots
  unfolding dynaswap_write
  dynaswap_write-HasRoom n i es v page some_mb small h r lt memory full sync =
      let u = make_room k p v in
      let (h', _) = make_room-view k d p es v small h in
      let space : slot_of (8 * i) es ≡ none → u.slots.active_slots < u.slots.total_slots =
        λ e. make_room-room k p es v some_mb small h (room_for k n i es v.slots h r lt e) in
      let kept =
        reserve-HasRoom n i es u.slots u.world h' (make_room-HasRoom n v r) lt space memory in
      (
        elim (Option-cases (slot_of (8 * i) es)) [
          | inl e ↦
              dynaswap_write_zero k d p es v (8 * i) page some_mb small h
                (room_for k n i es v.slots h r lt e) memory full sync
          | inr (s, e) ↦ dynaswap_write_mapped k d p es v (8 * i) s page small h e full sync
        ],
        rw (write_sector-slots (8 * i) page u) kept,
      )
