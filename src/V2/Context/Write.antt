-- ===== src/V2/Context/Write.antt =====
-- What `dynaswap_write` of src/driver/v2/context.c does to the device as its user sees it.
use native.Mathlib.Decide.{dec_lt}
use dynaswap.Base.{
  ℕ, ◌<◌, ◌^◌, ◌≡◌, refl, sym, ◌∙◌, ap, ◌≢◌, inl, inr, List, ◌∷◌, Option, none, some, arith, ℤ, pos,
  nonzero, nonzero_iff, zero_of_nonzero, Option-cases, if◌then◌else◌,
}
use dynaswap.V2.Kernel.{Kernel, Documented}
use dynaswap.V2.Bimap.{Entry}
use dynaswap.V2.Bimap.Entries.{add_at}
use dynaswap.V2.Bimap.Lookup.{slot_of}
use dynaswap.V2.Slot.{SlotManager, reserve_slot_sector, next_free}
use dynaswap.V2.Slot.Valid.{IsValid, active-le-total}
use dynaswap.V2.Slot.Reserve.{
  reserve_slot_sector_mapped, reserve_slot_sector_full, reserve_slot_sector_free,
}
use dynaswap.V2.Storage.{write_storage}
use dynaswap.V2.Storage.Pages.{
  NotPos, write_storage-NotPos, write_storage-same, write_storage-other,
}
use dynaswap.V2.Context.{Params, Driver, make_room, write_sector, dynaswap_write}
use dynaswap.V2.Context.View.{view, view_mapped, mapped-lt, slots_apart}
use dynaswap.V2.Context.Same.{view-ext, make_room-view, claimed-view}

module _ {World Page : Type 0} (k : Kernel World Page) (d : Documented k) where
  -- What a write to a sector may do: it keeps the driver in order and the pages of all other
  -- sectors, and with status 0 it leaves the page in the sector; the status is
  -- never positive.
  pub record Wrote (es : List Entry) (v : Driver World) (sector : ℕ) (page : Page)
      (es' : List Entry) (r : ℤ × Driver World) : Type 0 where
    pub valid : IsValid k.hash es' r.1.slots
    pub others : (j : ℕ) → j ≢ sector → view k d es' r.1.world j ≡ view k d es v.world j
    pub written : r.0 ≡ pos 0 → view k d es' r.1.world sector ≡ page
    pub sign : NotPos r.0

  -- The transfer to the slot of a mapped sector.
  transfer-Wrote :
      (p : Params) (es : List Entry) (v : Driver World) (sector slot : ℕ) (page : Page)
      → IsValid k.hash es v.slots
      → slot_of sector es ≡ some slot
      → let (ret, w') = write_storage k slot page v.world in
        Wrote es v sector page es ((if nonzero ret then ret else pos 0), record v { world = w' })
  transfer-Wrote p es v sector slot page h e = record {
    valid = h;
    others = λ j ne. view-ext k d es v.world _ j λ s es_j.
        write_storage-other k d slot s page v.world (mapped-lt k.hash sector slot h e).1
          (mapped-lt k.hash j s h es_j).1
          (slots_apart sector j slot s es h.one_to_one e es_j (λ q. ne (sym q)));
    written = λ ok.
        view_mapped k d es _ sector slot e
        ∙ (write_storage-same k d slot page v.world
            (zero_of_nonzero (write_storage k slot page v.world).0 (ground arith)));
    sign = λ n q. ground (arith, write_storage-NotPos k d slot page v.world n);
  }

  -- A write after steps that change no other page of the view.
  Wrote-after :
      {es es₁ es' : List Entry} {v v₁ : Driver World} {sector : ℕ} {page : Page}
      {r : ℤ × Driver World}
      → ((j : ℕ) → j ≢ sector → view k d es₁ v₁.world j ≡ view k d es v.world j)
      → Wrote es₁ v₁ sector page es' r
      → Wrote es v sector page es' r
  Wrote-after before wr = record {
    valid = wr.valid;
    others = λ j ne. wr.others j ne ∙ before j ne;
    written = wr.written;
    sign = wr.sign;
  }

  module _ (p : Params) (v : Driver World) (sector : ℕ) (page : Page) where
    abbrev pub reserved : ℤ × Option ℕ × SlotManager × World
    reserved = reserve_slot_sector k sector v.slots v.world

    write_sector_refused :
        reserved.0 ≢ pos 0
        → write_sector k p sector page v
          ≡ (reserved.0, record v { slots = reserved.2; world = reserved.3 })
    unfolding write_sector
    write_sector_refused ne = let e = (nonzero_iff reserved.0).1 ne in rw e

    pub write_sector_granted :
        (s : ℕ)
        → reserved.0 ≡ pos 0
        → reserved.1 ≡ some s
        → let (ret, w') = write_storage k s page reserved.3 in
          write_sector k p sector page v
          ≡ ((if nonzero ret then ret else pos 0), record v { slots = reserved.2; world = w' })
    unfolding write_sector
    write_sector_granted s ok got = rw (ok, got)

    write_sector-room :
        (es : List Entry) (mem : Option ℕ)
        → (k.kmem_cache_alloc v.world).0 ≡ mem
        → IsValid k.hash es v.slots
        → slot_of sector es ≡ none
        → v.slots.active_slots < v.slots.total_slots
        → Wrote es v sector page
            (add_at mem sector (next_free k v.slots) es).1
            (write_sector k p sector page v)
    write_sector-room es none got h e room =
        let (clear, st, sl, valid, active, total, wo) =
          reserve_slot_sector_free k d es v.slots v.world sector h e room in
        rw (write_sector_refused (λ q. ground (arith, st))) (record {
          valid = rw got at valid;
          others =
              λ j ne. rw wo (claimed-view k d es v.world none sector (next_free k v.slots) j ne);
          written = λ ok. ground (arith, st);
          sign = λ n q. ground (arith, st);
        })
    write_sector-room es (some a) got h e room =
        let (clear, st, sl, valid, active, total, wo) =
          reserve_slot_sector_free k d es v.slots v.world sector h e room in
        let free = next_free k v.slots in
        let es' : List Entry = record { addr = a; sector = sector; slot = free } ∷ es in
        let v₁ : Driver World = record v { slots = reserved.2; world = reserved.3 } in
        let there : slot_of sector es' ≡ some free = ground arith in
        rw (write_sector_granted free (ground (arith, st)) (ground (arith, sl))) (
          Wrote-after {es₁ = es'} {v₁ = v₁}
            (λ j ne. rw wo (claimed-view k d es v.world (some a) sector free j ne))
            (transfer-Wrote p es' v₁ sector free page (rw got at valid) there))

  -- A write once there is room: which entries there are afterwards depends on whether the sector
  -- was mapped, a slot was free, and memory was found.
  write_sector-Wrote :
      (p : Params) (es : List Entry) (v : Driver World) (sector : ℕ) (page : Page)
      → IsValid k.hash es v.slots
      → (es' : List Entry) × Wrote es v sector page es' (write_sector k p sector page v)
  write_sector-Wrote p es v sector page h = elim (Option-cases (slot_of sector es)) [
    | inr (s, e) ↦
        let r = reserve_slot_sector_mapped k d es v.slots v.world sector s h e in
        (
          es,
          rw (write_sector_granted p v sector page s (ap (λ t. t.0) r) (ap (λ t. t.1) r), r)
              (transfer-Wrote p es v sector s page h e),
        )
    | inl e ↦ elim (dec_lt v.slots.active_slots v.slots.total_slots) [
      | no full ↦
          let r =
            reserve_slot_sector_full k d es v.slots v.world sector h e
              (omega (arith, active-le-total h)) in
          (
            es,
            rw (write_sector_refused p v sector page (λ q. ground (arith, r)), r)
                (record {
                  valid = h;
                  others = λ j ne. refl;
                  written = λ ok. ground arith;
                  sign = λ n q. ground arith;
                }),
          )
      | yes room ↦ (_, write_sector-room p v sector page es _ refl h e room)
    ]
  ]

  -- `dynaswap_write`, with a chunk size that fits its type: the driver stays in order, every other
  -- sector reads as before, also if the backing file grew, and if the status is 0 the sector reads
  -- as the page that was written.
  pub dynaswap_write-Wrote :
      (p : Params) (es : List Entry) (v : Driver World) (sector : ℕ) (page : Page)
      → p.chunk_size_mb < 2 ^ 16
      → IsValid k.hash es v.slots
      → (es' : List Entry) × Wrote es v sector page es' (dynaswap_write k p sector page v)
  unfolding dynaswap_write
  dynaswap_write-Wrote p es v sector page small h =
      let (h', same) = make_room-view k d p es v small h in
      let (es', wr) = write_sector-Wrote p es (make_room k p v) sector page h' in
      (es', Wrote-after (λ j _. same j) wr)
