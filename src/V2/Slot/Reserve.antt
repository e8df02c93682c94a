-- ===== src/V2/Slot/Reserve.antt =====
-- What `reserve_slot_sector` of src/driver/v2/fs/slot.c does on each of its paths.
use dynaswap.Base.{
  ℕ, ◌+◌, ◌≤◌, ◌<◌, ◌≡◌, refl, sym, ◌∙◌, true, false, List, [], ◌∷◌, Option, none, some, arith, All,
  Bits, count-set, count-le, count_full, count_full_iff, set_bit, nonzero, if◌then◌else◌, pos, neg,
  first,
}
use native.Mathlib.Decide.{dec_le, dec_lt}
use dynaswap.V2.Kernel.{Kernel, Documented}
use dynaswap.V2.Bimap
use dynaswap.V2.Bimap.{Entry, Bimap, has_sector, find_by_sector}
use dynaswap.V2.Bimap.Entries.{Holds, insert_new, add_at}
use dynaswap.V2.Bimap.Lookup.{IsOneToOne, Apart, slot_of, find_by_sector_refines, first-slot_of}
use dynaswap.V2.Slot.{
  SlotManager, find_slot_sector, next_free, mark_slot, claim_slot, reserve_slot_sector,
}
use dynaswap.V2.Slot.Valid.{IsValid, active-le-total}

-- A slot whose bit is clear is in no entry, and a sector that is not found neither.
fresh-Apart :
    (a sector slot : ℕ) (b : Bits) (es : List Entry)
    → slot_of sector es ≡ none
    → b slot ≡ false
    → All (λ e. b e.slot ≡ true) es
    → All (Apart (record { addr = a; sector = sector; slot = slot })) es
fresh-Apart a sector slot b [] n c h = tt
fresh-Apart a sector slot b (e ∷ es) n c h =
    ((λ q. ground arith, λ q. ground arith), fresh-Apart a sector slot b es (ground arith) c h.1)

marked-set :
    (i : ℕ) (b : Bits) (es : List Entry)
    → All (λ e. b e.slot ≡ true) es
    → All (λ e. set_bit i b e.slot ≡ true) es
marked-set i b [] h = tt
marked-set i b (e ∷ es) h = (ground arith, marked-set i b es h.1)

mark_slot-IsValid :
    (hash : ℕ → ℕ) (free : ℕ) (es : List Entry) (m : SlotManager)
    → IsValid hash es m
    → free < m.total_slots
    → m.slot_bitmap free ≡ false
    → IsValid hash es (mark_slot free m)
unfolding mark_slot
mark_slot-IsValid hash free es m v h c = record {
  holds = v.holds;
  one_to_one = v.one_to_one;
  marked = marked-set free m.slot_bitmap es v.marked;
  below = λ i p. ground (arith, v.below i);
  counted = omega (
    arith,
    count-set m.total_slots free m.slot_bitmap h c,
    count-le m.total_slots m.slot_bitmap,
    v.counted,
    v.fits,
    v.small,
  );
  fits = v.fits;
  small = v.small;
}

with_bimap :
    (hash : ℕ → ℕ) {es es' : List Entry} {m : SlotManager} {b : Bimap}
    → IsValid hash es m
    → Holds hash es' b
    → IsOneToOne es' × All (λ e. m.slot_bitmap e.slot ≡ true) es'
    → IsValid hash es' (record m { slot_bimap = b })
with_bimap hash v hd (o, mk) = record {
  holds = hd;
  one_to_one = o;
  marked = mk;
  below = v.below;
  counted = v.counted;
  fits = v.fits;
  small = v.small;
}

module _ {World Page : Type 0} (k : Kernel World Page) (d : Documented k) where
  -- The search finds a clear bit below the total if there is one.
  pub next_free-clear :
      (m : SlotManager) → next_free k m < m.total_slots → m.slot_bitmap (next_free k m) ≡ false
  unfolding next_free
  next_free-clear m h = ground (
    arith,
    d.found_clear m.slot_bitmap m.total_slots m.bitmap_hint,
    d.found_clear m.slot_bitmap m.total_slots 0,
  )

  pub next_free_total :
      (m : SlotManager) (i : ℕ)
      → m.total_slots ≤ next_free k m
      → i < m.total_slots
      → m.slot_bitmap i ≡ true
  unfolding next_free
  next_free_total m i h l = ground (
    arith,
    d.missed_set m.slot_bitmap m.total_slots m.bitmap_hint i,
    d.missed_set m.slot_bitmap m.total_slots 0 i,
  )

  -- There is a free slot exactly if the active count is below the total.
  pub next_free-lt :
      {es : List Entry} {m : SlotManager}
      → IsValid k.hash es m
      → m.active_slots < m.total_slots
      → next_free k m < m.total_slots
  next_free-lt {m = m} v h = elim (dec_le m.total_slots (next_free k m)) [
    | yes le ↦
        let full = count_full m.total_slots m.slot_bitmap (λ i l. next_free_total m i le l) in
        absurd (omega (arith, full, v.counted))
    | no gt ↦ omega arith
  ]

  -- A sector that is mapped keeps its slot, and nothing changes.
  pub reserve_slot_sector_mapped :
      (es : List Entry) (m : SlotManager) (w : World) (sector slot : ℕ)
      → IsValid k.hash es m
      → slot_of sector es ≡ some slot
      → reserve_slot_sector k sector m w ≡ (pos 0, some slot, m, w)
  unfolding reserve_slot_sector find_slot_sector
  reserve_slot_sector_mapped es m w sector slot v e =
      ground (arith, find_by_sector_refines k.hash sector v.holds)

  -- With no slot free a new sector gets -ENOSPC, and nothing changes.
  pub reserve_slot_sector_full :
      (es : List Entry) (m : SlotManager) (w : World) (sector : ℕ)
      → IsValid k.hash es m
      → slot_of sector es ≡ none
      → m.active_slots ≡ m.total_slots
      → reserve_slot_sector k sector m w ≡ (neg 28, none, m, w)
  unfolding reserve_slot_sector find_slot_sector
  reserve_slot_sector_full es m w sector v e full =
      let no_room : m.total_slots ≤ next_free k m = elim (dec_lt (next_free k m) m.total_slots) [
        | yes lt ↦
            let set_there =
              count_full_iff m.total_slots (next_free k m) m.slot_bitmap (sym v.counted ∙ full)
                lt in
            ground (arith, set_there, next_free-clear m lt)
        | no ge ↦ omega arith
      ] in
      ground (arith, find_by_sector_refines k.hash sector v.holds)

  -- What a claim returns and leaves, with what the allocation gave.
  abbrev pub given : Option ℕ → ℕ → Option ℕ
  given none free = none
  given (some a) free = some free

  claim_slot_parts :
      (m : SlotManager) (w : World) (sector free : ℕ)
      → let (status, b, w') = Bimap.insert k.hash k.kmem_cache_alloc sector free m.slot_bimap w in
        let r = claim_slot k sector free m w in
        (r.0 ≡ (if nonzero status then status else pos 0))
        × (r.1 ≡ (if nonzero status then none else some free))
        × (r.2 ≡ record m { slot_bimap = b })
        × (r.3 ≡ w')
  unfolding claim_slot
  claim_slot_parts m w sector free = ground arith

  add_at-IsValid :
      (mem : Option ℕ) (es : List Entry) (m : SlotManager) (b : Bimap) (sector free : ℕ)
      → IsValid k.hash es m
      → slot_of sector es ≡ none
      → free < m.total_slots
      → m.slot_bitmap free ≡ false
      → Holds k.hash (add_at mem sector free es).1 b
      → IsValid k.hash (add_at mem sector free es).1 (record (mark_slot free m) { slot_bimap = b })
  unfolding mark_slot
  add_at-IsValid none es m b sector free v e h c hd =
      with_bimap k.hash (mark_slot-IsValid k.hash free es m v h c) hd
        (v.one_to_one, marked-set free m.slot_bitmap es v.marked)
  add_at-IsValid (some a) es m b sector free v e h c hd =
      with_bimap k.hash (mark_slot-IsValid k.hash free es m v h c) hd (
        (fresh-Apart a sector free m.slot_bitmap es e c v.marked, v.one_to_one),
        (ground arith, marked-set free m.slot_bitmap es v.marked),
      )

  add_at_status :
      (mem : Option ℕ) (sector free : ℕ) (es : List Entry)
      → let status = (add_at mem sector free es).0 in
        ((if nonzero status then status else pos 0) ≡ status)
        × ((if nonzero status then none else some free) ≡ given mem free)
  add_at_status none sector free es = (refl, refl)
  add_at_status (some a) sector free es = (refl, refl)

  -- With a slot free, a new sector gets one that was free, and it is marked and counted. If memory
  -- is found for the entry, the sector is mapped to it, with status 0; if not, the status is
  -- -ENOMEM and the slot stays marked with no sector.
  pub reserve_slot_sector_free :
      (es : List Entry) (m : SlotManager) (w : World) (sector : ℕ)
      → IsValid k.hash es m
      → slot_of sector es ≡ none
      → m.active_slots < m.total_slots
      → let (status, slot, m', w') = reserve_slot_sector k sector m w in
        let free = next_free k m in
        let (mem, w'') = k.kmem_cache_alloc w in
        (m.slot_bitmap free ≡ false)
        × (status ≡ (add_at mem sector free es).0)
        × (slot ≡ given mem free)
        × IsValid k.hash (add_at mem sector free es).1 m'
        × (m'.active_slots ≡ m.active_slots + 1)
        × (m'.total_slots ≡ m.total_slots)
        × (w' ≡ w'')
  unfolding reserve_slot_sector find_slot_sector mark_slot
  reserve_slot_sector_free es m w sector v e h =
      let free = next_free k m in
      let lt = next_free-lt v h in
      let clear = next_free-clear m lt in
      let new : first (has_sector sector) es ≡ none = ground (arith, first-slot_of sector es) in
      let (s, hd, ww) =
        insert_new k.hash k.kmem_cache_alloc sector free m.slot_bimap w es v.holds new in
      let n = mark_slot free m in
      let (status, slot, state, world) = claim_slot_parts n w sector free in
      let mem = (k.kmem_cache_alloc w).0 in
      let reached : reserve_slot_sector k sector m w ≡ claim_slot k sector free n w =
        ground (arith, find_by_sector_refines k.hash sector v.holds) in
      rw (reached, status, slot, state, world)
        (
          clear,
          rw s (add_at_status mem sector free es).0,
          rw s (add_at_status mem sector free es).1,
          add_at-IsValid mem es m _ sector free v e lt clear hd,
          omega (arith, active-le-total v, v.fits, v.small),
          refl,
          ww,
        )
