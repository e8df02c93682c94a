-- ===== src/V2/Context/Growth.antt =====
-- How src/driver/v2/context.c makes room, and that a write then finds it.
use Prim.Native.Nat.{min}
use dynaswap.Base.{
  ℕ, ◌+◌, ◌*◌, ◌<◌, ◌^◌, ◌≡◌, refl, ◌∙◌, ap, ap₂, ◌≢◌, ◌↔◌, inl, inr, List, none, some, arith, pos,
  Option-cases,
}
use dynaswap.V2.Kernel.{Kernel, Documented}
use dynaswap.V2.Bimap.{Entry}
use dynaswap.V2.Bimap.Lookup.{slot_of}
use dynaswap.V2.Slot.{
  SlotManager, next_free, ExtendStatus, extend_needed, extend_required, extend_not_needed,
  slot_manager_needs_extend, get_total_slots,
}
use dynaswap.V2.Slot.Valid.{IsValid, active-le-total}
use dynaswap.V2.Slot.Extend.{extend_slots_alone, needs_extend_lem}
use dynaswap.V2.Slot.Reserve.{reserve_slot_sector_mapped, reserve_slot_sector_free}
use dynaswap.V2.Storage.{extend_storage, offset_of, write_storage, sync_first, sync_last}
use dynaswap.V2.Context.Write.{reserved, write_sector_granted}
use dynaswap.V2.Context.Same.{make_room-view}
use dynaswap.V2.Context.{
  Params, Driver, chunk_slots, dynaswap_extend, make_room, write_sector, dynaswap_write,
}

-- CHUNK_SIZE_MB megabytes are 256 slots each.
pub chunk_slots_lem :
    (p : Params) → p.chunk_size_mb < 2 ^ 16 → chunk_slots p ≡ 256 * p.chunk_size_mb
chunk_slots_lem p small = omega arith

offset_of_lem : (n : ℕ) → n < 2 ^ 52 → offset_of n ≡ 4096 * n
unfolding offset_of
offset_of_lem n h = omega arith

module _ {World Page : Type 0} (k : Kernel World Page) (p : Params) where
  extend_storage-world :
      (c a : ℕ) (w : World)
      → (extend_storage k c a w).1 ≡ (k.vfs_fallocate (offset_of c) (offset_of a) w).1
  unfolding extend_storage
  extend_storage-world c a w = ground arith

  -- `dynaswap_extend` raises the total by the slots of a chunk, up to the size of the bitmap, and
  -- asks for the bytes of a whole chunk from the end of the old slots on. It does so whatever the
  -- file system answers, and also where fewer slots, or none, were added.
  pub dynaswap_extend_lem :
      (es : List Entry) (v : Driver World)
      → p.chunk_size_mb < 2 ^ 16
      → IsValid k.hash es v.slots
      → let total = v.slots.total_slots in
        let more = 256 * p.chunk_size_mb in
        dynaswap_extend k p v ≡ record v {
          slots = record v.slots { total_slots = min (total + more) v.slots.bitmap_size };
          world = (k.vfs_fallocate (4096 * total) (4096 * more) v.world).1;
        }
  unfolding dynaswap_extend get_total_slots
  dynaswap_extend_lem es v small h =
      let grown = extend_slots_alone (chunk_slots p) v.slots h.small (omega arith) h.fits in
      ap₂ (λ (m : SlotManager) (w : World). record v { slots = m; world = w })
        (grown
          ∙ ap
              (λ n. record v.slots {
                total_slots = min (v.slots.total_slots + n) v.slots.bitmap_size;
              })
              (chunk_slots_lem p small))
        (extend_storage-world v.slots.total_slots (chunk_slots p) v.world
          ∙ ap₂ (λ a b. (k.vfs_fallocate a b v.world).1)
              (offset_of_lem v.slots.total_slots (omega (arith, h.fits, h.small)))
              (offset_of_lem (chunk_slots p) (omega arith)
                ∙ ap (λ n. 4096 * n) (chunk_slots_lem p small)))

  -- Unless the bitmap is used up, there is a free slot when the switch at the start of a write is
  -- done.
  pub make_room-room :
      (es : List Entry) (v : Driver World)
      → 0 < p.chunk_size_mb
      → p.chunk_size_mb < 2 ^ 16
      → IsValid k.hash es v.slots
      → v.slots.active_slots < v.slots.bitmap_size
      → let v' = make_room k p v in v'.slots.active_slots < v'.slots.total_slots
  unfolding make_room
  make_room-room es v some_mb small h room =
      by_status (slot_manager_needs_extend p.extend_threshold v.slots) refl
    where
      required :
          (slot_manager_needs_extend p.extend_threshold v.slots ≡ extend_required)
          ↔ (v.slots.active_slots ≡ v.slots.total_slots)
      required = (needs_extend_lem p.extend_threshold k.hash es v.slots h).0

      by_status :
          (need : ExtendStatus)
          → slot_manager_needs_extend p.extend_threshold v.slots ≡ need
          → let v' = make_room k p v in v'.slots.active_slots < v'.slots.total_slots
      by_status extend_needed e =
          let ne : v.slots.active_slots ≢ v.slots.total_slots = λ q. cc (required.1 q) in
          rw (e, make_room) (omega (arith, active-le-total h))
      by_status extend_not_needed e =
          let ne : v.slots.active_slots ≢ v.slots.total_slots = λ q. cc (required.1 q) in
          rw (e, make_room) (omega (arith, active-le-total h))
      by_status extend_required e =
          let q = required.0 e in rw (e, make_room, dynaswap_extend_lem es v small h) (omega arith)

module _ {World Page : Type 0} (k : Kernel World Page) (d : Documented k) (p : Params) where
  write_storage_zero :
      (s : ℕ) (page : Page) (w : World)
      → (k.kernel_write page (offset_of s) w).0 ≡ pos 4096
      → ((u : World) (f l : ℕ) → (k.vfs_fsync_range f l u).0 ≡ pos 0)
      → (write_storage k s page w).0 ≡ pos 0
  unfolding write_storage
  write_storage_zero s page w full sync =
      let z = sync (k.kernel_write page (offset_of s) w).1 (sync_first s) (sync_last s) in
      rw (full, z)

  granted_zero :
      (v : Driver World) (sector s : ℕ) (page : Page)
      → (reserved k d p v sector page).0 ≡ pos 0
      → (reserved k d p v sector page).1 ≡ some s
      → (write_storage k s page (reserved k d p v sector page).3).0 ≡ pos 0
      → (write_sector k p sector page v).0 ≡ pos 0
  granted_zero v sector s page ok got done =
      rw (write_sector_granted k d p v sector page s ok got) (rw done)

  -- A write to a sector that has a slot needs neither room nor memory.
  pub dynaswap_write_mapped :
      (es : List Entry) (v : Driver World) (sector s : ℕ) (page : Page)
      → p.chunk_size_mb < 2 ^ 16
      → IsValid k.hash es v.slots
      → slot_of sector es ≡ some s
      → ((u : World) (o : ℕ) → (k.kernel_write page o u).0 ≡ pos 4096)
      → ((u : World) (f l : ℕ) → (k.vfs_fsync_range f l u).0 ≡ pos 0)
      → (dynaswap_write k p sector page v).0 ≡ pos 0
  unfolding dynaswap_write
  dynaswap_write_mapped es v sector s page small h e full sync =
      let v' = make_room k p v in
      let (h', same) = make_room-view k d p es v small h in
      let r = reserve_slot_sector_mapped k d es v'.slots v'.world sector s h' e in
      granted_zero v' sector s page (ap (λ t. t.0) r) (ap (λ t. t.1) r)
        (write_storage_zero s page _ (full _ (offset_of s)) sync)

  -- With chunks of at least one megabyte that fit their type, a driver in order and fewer slots in use
  -- than the bitmap has, a write succeeds if the kernel does what it is asked: memory is found, whole
  -- pages are written and synced. No growth has to succeed.
  pub dynaswap_write_zero :
      (es : List Entry) (v : Driver World) (sector : ℕ) (page : Page)
      → 0 < p.chunk_size_mb
      → p.chunk_size_mb < 2 ^ 16
      → IsValid k.hash es v.slots
      → v.slots.active_slots < v.slots.bitmap_size
      → ((u : World) → (k.kmem_cache_alloc u).0 ≢ none)
      → ((u : World) (o : ℕ) → (k.kernel_write page o u).0 ≡ pos 4096)
      → ((u : World) (f l : ℕ) → (k.vfs_fsync_range f l u).0 ≡ pos 0)
      → (dynaswap_write k p sector page v).0 ≡ pos 0
  unfolding dynaswap_write
  dynaswap_write_zero es v sector page some_mb small h room memory full sync =
      let v' = make_room k p v in
      let (h', same) = make_room-view k d p es v small h in
      let free = make_room-room k p es v some_mb small h room in
      elim (Option-cases (slot_of sector es)) [
        | inr (s, e) ↦ dynaswap_write_mapped es v sector s page small h e full sync
        | inl e ↦
            let (clear, st, sl, _, _, _, _) =
              reserve_slot_sector_free k d es v'.slots v'.world sector h' e free in
            elim (Option-cases (k.kmem_cache_alloc v'.world).0) [
              | inl out ↦ absurd (memory v'.world out)
              | inr (a, got) ↦
                  let slot = next_free k v'.slots in
                  granted_zero v' sector slot page (ground (arith, st)) (ground (arith, sl))
                    (write_storage_zero slot page _ (full _ (offset_of slot)) sync)
            ]
      ]
