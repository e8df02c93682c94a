-- ===== src/V2/Bimap/Entries.antt =====
-- The bimap seen as the list of its entries, newest first: each chain holds those of its bucket.
use dynaswap.Base.{
  ℕ, ◌≡◌, refl, Bool, List, [], ◌∷◌, Option, none, some, arith, ◌==◌, first, keep, Option-cases,
  inl, inr, pos, neg, ℤ, first-keep, eq→==, ==→eq, ap,
}
use dynaswap.V2.Bimap.{
  Entry, Bimap, has_sector, has_slot, insert, insert_at, init_bimap, eexist, enomem,
}

-- What an insertion means on the entries, with what the allocation gives.
abbrev pub add_at : Option ℕ → ℕ → ℕ → List Entry → ℤ × List Entry
add_at none sector slot es = (neg enomem, es)
add_at (some a) sector slot es = (pos 0, record { addr = a; sector = sector; slot = slot } ∷ es)

abbrev pub add_entry : Option ℕ → ℕ → ℕ → List Entry → ℤ × List Entry
add_entry mem sector slot es = elim (first (has_sector sector) es) [
  | some existing ↦ (neg eexist, es)
  | none ↦ add_at mem sector slot es
]

module _ (hash : ℕ → ℕ) where
  abbrev pub in_sector_bucket : ℕ → Entry → Bool
  in_sector_bucket b e = hash e.sector == b

  abbrev pub in_slot_bucket : ℕ → Entry → Bool
  in_slot_bucket b e = hash e.slot == b

  -- Both tables hold exactly the entries `es`.
  pub record Holds (es : List Entry) (m : Bimap) : Type 0 where
    pub sectors : (b : ℕ) → m.sector_to_slot b ≡ keep (in_sector_bucket b) es
    pub slots : (b : ℕ) → m.slot_to_sector b ≡ keep (in_slot_bucket b) es

  pub first-sector :
      {es : List Entry} {m : Bimap} (k : ℕ)
      → Holds es m
      → first (has_sector k) (m.sector_to_slot (hash k)) ≡ first (has_sector k) es
  first-sector {es} k h = rw (h.sectors (hash k)) (
      first-keep (has_sector k) (in_sector_bucket (hash k)) es
        λ e p. eq→== (hash e.sector) (hash k) (ap hash (==→eq e.sector k p)))

  pub first-slot :
      {es : List Entry} {m : Bimap} (s : ℕ)
      → Holds es m
      → first (has_slot s) (m.slot_to_sector (hash s)) ≡ first (has_slot s) es
  first-slot {es} s h = rw (h.slots (hash s)) (
      first-keep (has_slot s) (in_slot_bucket (hash s)) es
        λ e p. eq→== (hash e.slot) (hash s) (ap hash (==→eq e.slot s p)))

  -- A new bimap holds nothing, and its status is that of the cache's creation.
  pub init_bimap-Holds : (cache : Bool) → Holds [] (init_bimap cache).1
  unfolding init_bimap
  init_bimap-Holds cache = record { sectors = λ b. refl; slots = λ b. refl }

insert_at-Holds :
    {World : Type 0} (hash : ℕ → ℕ) (sector slot : ℕ) (m : Bimap) (es : List Entry)
    (r : Option ℕ × World)
    → Holds hash es m
    → let (status, m', w') = insert_at hash sector slot m r in
      (status ≡ (add_at r.0 sector slot es).0)
      × Holds hash (add_at r.0 sector slot es).1 m'
      × (w' ≡ r.1)
insert_at-Holds hash sector slot m es (none, w) h = (refl, h, refl)
insert_at-Holds hash sector slot m es (some a, w) h = (
  refl,
  record { sectors = λ b. ground (arith, h.sectors b); slots = λ b. ground (arith, h.slots b) },
  refl,
)

module _ {World : Type 0} (hash : ℕ → ℕ) (alloc : World → Option ℕ × World) where
  -- `bimap_insert` does on the two tables what `add_entry` does on the entries, with its status. It
  -- asks for memory only for a sector that is not there.
  pub insert_refines :
      (sector slot : ℕ) (m : Bimap) (w : World) (es : List Entry)
      → Holds hash es m
      → ((insert hash alloc sector slot m w).0 ≡ (add_entry (alloc w).0 sector slot es).0)
        × Holds hash (add_entry (alloc w).0 sector slot es).1 (insert hash alloc sector slot m w).1
        × ((insert hash alloc sector slot m w).2
            ≡ elim (first (has_sector sector) es) [ some e ↦ w | none ↦ (alloc w).1 ])
  unfolding insert
  insert_refines sector slot m w es h = elim (Option-cases (first (has_sector sector) es)) [
    | inl new ↦
        rw (first-sector hash sector h, new, insert, add_entry)
          (insert_at-Holds hash sector slot m es (alloc w) h)
    | inr (e, old) ↦ rw (first-sector hash sector h, old, insert, add_entry) (refl, h, refl)
  ]

  -- For a sector that is not there.
  pub insert_new :
      (sector slot : ℕ) (m : Bimap) (w : World) (es : List Entry)
      → Holds hash es m
      → first (has_sector sector) es ≡ none
      → ((insert hash alloc sector slot m w).0 ≡ (add_at (alloc w).0 sector slot es).0)
        × Holds hash (add_at (alloc w).0 sector slot es).1 (insert hash alloc sector slot m w).1
        × ((insert hash alloc sector slot m w).2 ≡ (alloc w).1)
  unfolding insert
  insert_new sector slot m w es h new =
      rw (first-sector hash sector h, new, insert)
        (insert_at-Holds hash sector slot m es (alloc w) h)
