-- ===== src/V2/Bimap/Threads/Race.antt =====
-- Two calls of `bimap_insert` of src/driver/v2/utils/bimap.c for one sector.
use dynaswap.Base.{
  ℕ, pos, ◌≡◌, ◌≢◌, refl, ap, ◌∙◌, false, List, ◌∷◌, Option, none, some, first, arith,
}
use dynaswap.V2.Bimap.{Entry, has_sector, find_by_sector, find_by_slot}
use dynaswap.V2.Bimap.Entries.{Holds, first-sector}
use dynaswap.V2.Bimap.Lookup.{
  slot_of, sector_of, first-slot_of, find_by_sector_refines, find_by_slot_refines, reply,
}
use dynaswap.V2.Bimap.Threads.Steps.{add-Holds}
use dynaswap.V2.Bimap.Threads.{
  looking, ended, InsertThreads, is_live, set_call, look, add, next_insert, step_call,
  InsertOverlap, start, called, stepped,
}

-- Any call may start.
abbrev pub Anything : {World : Type 0} → ℕ → ℕ → InsertThreads World → Type 0
Anything sector slot t = Unit {0}

module _ {World : Type 0} (hash : ℕ → ℕ) (alloc : World → Option ℕ × World) where
  -- Both calls look the sector up before either adds it.
  abbrev pub both_look : ℕ → ℕ → ℕ → InsertThreads World → InsertThreads World
  both_look sector a b s =
      let t = step_call hash alloc 1 (
        step_call hash alloc 0 (record s {
          calls =
              set_call 1 (record { sector = sector; slot = b; stage = looking })
                (set_call 0 (record { sector = sector; slot = a; stage = looking }) s.calls);
        })) in
      step_call hash alloc 1
        (step_call hash alloc 1 (step_call hash alloc 0 (step_call hash alloc 0 t)))

  both_look-InsertOverlap :
      (sector a b : ℕ) (s : InsertThreads World)
      → is_live (s.calls 0).stage ≡ false
      → is_live (s.calls 1).stage ≡ false
      → InsertOverlap hash alloc Anything s (both_look sector a b s)
  both_look-InsertOverlap sector a b s idle₀ idle₁ = stepped 1 (
      stepped 1 (
        stepped 0 (
          stepped 0 (
            stepped 1
              (stepped 0 (called 1 sector b (called 0 sector a start idle₀ tt) idle₁ tt))))))

  -- What the two calls leave, once both have memory.
  both_added :
      (sector a b x y : ℕ) (es : List Entry) (s : InsertThreads World)
      → Holds hash es s.bimap
      → slot_of sector es ≡ none
      → (alloc s.world).0 ≡ some x
      → (alloc (alloc s.world).1).0 ≡ some y
      → let t = both_look sector a b s in
        ((t.calls 0).stage ≡ ended (pos 0))
        × ((t.calls 1).stage ≡ ended (pos 0))
        × (t.bimap
            ≡ add hash
                (record { addr = y; sector = sector; slot = b })
                (add hash (record { addr = x; sector = sector; slot = a }) s.bimap))
  unfolding step_call next_insert look
  both_added sector a b x y es s h new mx my =
      let miss : first (has_sector sector) (s.bimap.sector_to_slot (hash sector)) ≡ none =
        ground (arith, first-slot_of sector es, first-sector hash sector h) in
      rw (miss, look, next_insert, mx, my) (refl, refl, refl)

  -- For a sector that the map does not have and two slots, with memory for two entries: there are
  -- two calls for that sector that overlap in such a way that both end with status 0. Looking up
  -- either slot then gives the sector, and looking up the sector gives the second slot only, so the
  -- tables are not inverse to one another.
  pub both_inserted :
      (sector a b x y : ℕ) (es : List Entry) (s : InsertThreads World)
      → Holds hash es s.bimap
      → slot_of sector es ≡ none
      → a ≢ b
      → is_live (s.calls 0).stage ≡ false
      → is_live (s.calls 1).stage ≡ false
      → (alloc s.world).0 ≡ some x
      → (alloc (alloc s.world).1).0 ≡ some y
      → (t : InsertThreads World) × InsertOverlap hash alloc Anything s t
        × ((t.calls 0).stage ≡ ended (pos 0))
        × ((t.calls 1).stage ≡ ended (pos 0))
        × (find_by_slot hash a t.bimap ≡ (pos 0, some sector))
        × (find_by_slot hash b t.bimap ≡ (pos 0, some sector))
        × (find_by_sector hash sector t.bimap ≡ (pos 0, some b))
  both_inserted sector a b x y es s h new ne idle₀ idle₁ mx my =
      let e₀ : Entry = record { addr = x; sector = sector; slot = a } in
      let e₁ : Entry = record { addr = y; sector = sector; slot = b } in
      let (st₀, st₁, map) = both_added sector a b x y es s h new mx my in
      let h₂ = add-Holds hash e₁ (e₀ ∷ es) _ (add-Holds hash e₀ es s.bimap h) in
      let at_a : reply (sector_of a (e₁ ∷ e₀ ∷ es)) ≡ (pos 0, some sector) = ground arith in
      let at_b : reply (sector_of b (e₁ ∷ e₀ ∷ es)) ≡ (pos 0, some sector) = ground arith in
      let at_sector : reply (slot_of sector (e₁ ∷ e₀ ∷ es)) ≡ (pos 0, some b) = ground arith in
      (
        both_look sector a b s,
        both_look-InsertOverlap sector a b s idle₀ idle₁,
        st₀,
        st₁,
        ap (find_by_slot hash a) map ∙ find_by_slot_refines hash a h₂ ∙ at_a,
        ap (find_by_slot hash b) map ∙ find_by_slot_refines hash b h₂ ∙ at_b,
        ap (find_by_sector hash sector) map ∙ find_by_sector_refines hash sector h₂ ∙ at_sector,
      )
