-- ===== src/V2/Context/Same.antt =====
-- What leaves the device of src/driver/v2/context.c as its user sees it.
use dynaswap.Base.{
  ℕ, ◌<◌, ◌^◌, ◌≡◌, refl, sym, ◌∙◌, ◌≢◌, inl, inr, true, List, Option, none, some, arith,
  Option-cases,
}
use dynaswap.V2.Kernel.{Kernel, Documented}
use dynaswap.V2.Bimap.{Entry}
use dynaswap.V2.Bimap.Entries.{add_at}
use dynaswap.V2.Bimap.Lookup.{slot_of}
use dynaswap.V2.Slot.{
  extend_needed, extend_required, extend_not_needed, slot_manager_needs_extend, get_total_slots,
}
use dynaswap.V2.Slot.Valid.{IsValid}
use dynaswap.V2.Slot.Extend.{extend_slots-IsValid}
use dynaswap.V2.Storage.Pages.{page_at, extend_storage-page}
use dynaswap.V2.Context.{Params, Driver, chunk_slots, dynaswap_extend, make_room}
use dynaswap.V2.Context.View.{view, view_mapped, view_unmapped}

module _ {World Page : Type 0} (k : Kernel World Page) (d : Documented k) where
  -- A view depends on the pages of the mapped slots only.
  pub view-ext :
      (es : List Entry) (w w' : World) (j : ℕ)
      → ((s : ℕ) → slot_of j es ≡ some s → page_at k d w' s ≡ page_at k d w s)
      → view k d es w' j ≡ view k d es w j
  view-ext es w w' j same = elim (Option-cases (slot_of j es)) [
    | inl e ↦ view_unmapped k d es w' j e ∙ sym (view_unmapped k d es w j e)
    | inr (s, e) ↦ view_mapped k d es w' j s e ∙ same s e ∙ sym (view_mapped k d es w j s e)
  ]

  -- Growing, whenever it happens, changes no page of the view and keeps the driver in order.
  pub dynaswap_extend-view :
      (p : Params) (es : List Entry) (v : Driver World)
      → p.chunk_size_mb < 2 ^ 16
      → IsValid k.hash es v.slots
      → IsValid k.hash es (dynaswap_extend k p v).slots
        × ((j : ℕ) → view k d es (dynaswap_extend k p v).world j ≡ view k d es v.world j)
  unfolding dynaswap_extend
  dynaswap_extend-view p es v small h = (
    extend_slots-IsValid k.hash es (chunk_slots p) v.slots (omega arith) h,
    λ j.
        view-ext es v.world _ j
          λ s e. extend_storage-page k d (get_total_slots v.slots) (chunk_slots p) v.world s,
  )

  pub make_room-view :
      (p : Params) (es : List Entry) (v : Driver World)
      → p.chunk_size_mb < 2 ^ 16
      → IsValid k.hash es v.slots
      → IsValid k.hash es (make_room k p v).slots
        × ((j : ℕ) → view k d es (make_room k p v).world j ≡ view k d es v.world j)
  unfolding make_room
  make_room-view p es v small h =
      let grown = dynaswap_extend-view p es v small h in
      elim (slot_manager_needs_extend p.extend_threshold v.slots)
        as (λ need.
          let v' : Driver World = elim need [
            | extend_needed ↦ record v { extend_queued = true }
            | extend_required ↦ dynaswap_extend k p v
            | extend_not_needed ↦ v
          ] in
          IsValid k.hash es v'.slots × ((j : ℕ) → view k d es v'.world j ≡ view k d es v.world j)) [
            | extend_needed ↦ (h, λ j. refl)
            | extend_required ↦ grown
            | extend_not_needed ↦ (h, λ j. refl)
          ]

  -- The view at a sector goes by the sector's slot.
  pub view-slot_of :
      (es es' : List Entry) (w : World) (j : ℕ)
      → slot_of j es' ≡ slot_of j es
      → view k d es' w j ≡ view k d es w j
  unfolding view
  view-slot_of es es' w j e = rw (e, view)

  -- Memory for an entry does not touch the view, and a new entry shows in its own sector only.
  pub claimed-view :
      (es : List Entry) (w : World) (mem : Option ℕ) (sector free j : ℕ)
      → j ≢ sector
      → view k d (add_at mem sector free es).1 (k.kmem_cache_alloc w).1 j ≡ view k d es w j
  claimed-view es w mem sector free j ne =
      view-slot_of es (add_at mem sector free es).1 _ j (same_slot mem)
      ∙ view-ext es w (k.kmem_cache_alloc w).1 j (λ s e. d.alloc_content w _)
    where
      same_slot : (o : Option ℕ) → slot_of j (add_at o sector free es).1 ≡ slot_of j es
      same_slot none = refl
      same_slot (some a) = ground arith
