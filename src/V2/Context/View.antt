-- ===== src/V2/Context/View.antt =====
-- The device as its user sees it, a page for each sector, and what src/driver/v2/context.c reads.
use dynaswap.Base.{
  ℕ, ◌<◌, ◌^◌, ◌≡◌, ◌≢◌, ◌⊎◌, inl, inr, true, List, [], ◌∷◌, none, some, arith, pos, nonzero_iff,
  All, Option-cases, some,
}
use dynaswap.V2.Kernel.{Kernel, Documented}
use dynaswap.V2.Bimap.{Entry}
use dynaswap.V2.Bimap.Lookup.{slot_of, slot_of→sector_of, find_by_sector_refines, IsOneToOne}
use dynaswap.V2.Slot.{SlotManager, find_slot_sector}
use dynaswap.V2.Slot.Valid.{IsValid}
use dynaswap.V2.Storage.{read_storage}
use dynaswap.V2.Storage.Pages.{page_at, NotPos, read_storage-NotPos, read_storage_lem}
use dynaswap.V2.Context.{Params, Driver, dynaswap_read, slot_value}

-- A mapped slot is marked, so it lies below the total and the size of the bitmap.
marked_slot :
    (j s : ℕ) (m : SlotManager) (es : List Entry)
    → All (λ e. m.slot_bitmap e.slot ≡ true) es
    → slot_of j es ≡ some s
    → m.slot_bitmap s ≡ true
marked_slot j s m [] h e = ground arith
marked_slot j s m (x ∷ es) h e = ground (arith, marked_slot j s m es h.1)

pub mapped-lt :
    (hash : ℕ → ℕ) (j s : ℕ) {es : List Entry} {m : SlotManager}
    → IsValid hash es m
    → slot_of j es ≡ some s
    → (s < m.total_slots) × (s < 2 ^ 52)
mapped-lt hash j s {es} {m} v e =
    let lt = v.below s (marked_slot j s m es v.marked e) in (lt, omega (arith, lt, v.fits, v.small))

-- Two sectors never share a slot.
pub slots_apart :
    (i j a b : ℕ) (es : List Entry)
    → IsOneToOne es
    → slot_of i es ≡ some a
    → slot_of j es ≡ some b
    → i ≢ j
    → a ≢ b
slots_apart i j a b es o ei ej ne same =
    ground (arith, slot_of→sector_of i a es o, slot_of→sector_of j b es o)

module _ {World Page : Type 0} (k : Kernel World Page) (d : Documented k) where
  -- A page of zeros where nothing was written.
  unfoldable pub view : List Entry → World → ℕ → Page
  view es w j = elim (slot_of j es) [ none ↦ k.zero_page | some s ↦ page_at k d w s ]

  pub view_unmapped :
      (es : List Entry) (w : World) (j : ℕ) → slot_of j es ≡ none → view es w j ≡ k.zero_page
  unfolding view
  view_unmapped es w j e = rw (e, view)

  pub view_mapped :
      (es : List Entry) (w : World) (j s : ℕ)
      → slot_of j es ≡ some s
      → view es w j ≡ page_at k d w s
  unfolding view
  view_mapped es w j s e = rw (e, view)

  -- A read gives the sector's page with status 0, or an error and a page of zeros; it fails only
  -- for a sector that was written.
  pub dynaswap_read_lem :
      (p : Params) (es : List Entry) (v : Driver World) (sector : ℕ)
      → IsValid k.hash es v.slots
      → let (status, page) = dynaswap_read k p sector v in
        ((status ≡ pos 0) × (page ≡ view es v.world sector))
        ⊎ ((status ≢ pos 0) × (page ≡ k.zero_page) × (slot_of sector es ≢ none))
  unfolding dynaswap_read find_slot_sector view
  dynaswap_read_lem p es v sector h =
      let found = find_by_sector_refines k.hash sector h.holds in
      elim (Option-cases (slot_of sector es)) [
        | inl e ↦ inl (ground (arith, found), ground (arith, found))
        | inr (s, e) ↦ elim (read_storage_lem k d s v.world) [
          | inl (ok, page) ↦ inl (ground (arith, found), ground (arith, found))
          | inr (err, zero) ↦
              let failed = (nonzero_iff (read_storage k s v.world).0).1 err in
              inr (λ q. ground (arith, found), ground (arith, found), λ q. ground arith)
        ]
      ]

  pub dynaswap_read-NotPos :
      (p : Params) (v : Driver World) (sector : ℕ) → NotPos (dynaswap_read k p sector v).0
  unfolding dynaswap_read
  dynaswap_read-NotPos p v sector n h =
      ground (
        arith,
        read_storage-NotPos k d (slot_value (find_slot_sector k sector v.slots).1) v.world n,
      )

  -- A read with status 0 gives the sector's page.
  pub dynaswap_read_page :
      (p : Params) (es : List Entry) (v : Driver World) (sector : ℕ)
      → IsValid k.hash es v.slots
      → (dynaswap_read k p sector v).0 ≡ pos 0
      → (dynaswap_read k p sector v).1 ≡ view es v.world sector
  dynaswap_read_page p es v sector h ok = elim (dynaswap_read_lem p es v sector h) [
    | inl (_, page) ↦ page
    | inr (err, _, _) ↦ absurd (err ok)
  ]
