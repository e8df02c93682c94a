-- ===== src/V2/Bimap/Lookup.antt =====
-- What the two lookups of src/driver/v2/utils/bimap.c find.
use dynaswap.Base.{
  ℕ, ◌≡◌, refl, ◌≢◌, Bool, true, false, List, [], ◌∷◌, Option, none, some, arith, ◌==◌,
  if◌then◌else◌, first, All, ◌&&◌, pos, neg, ℤ, ◌↔◌,
}
use dynaswap.V2.Bimap.{Entry, Bimap, has_sector, has_slot, insert, find_by_slot, find_by_sector}
use dynaswap.V2.Bimap.Entries.{Holds, first-sector, first-slot, insert_refines}

-- The slot of a sector, and the sector of a slot.
abbrev pub slot_of : ℕ → List Entry → Option ℕ
slot_of k [] = none
slot_of k (e ∷ es) = if e.sector == k then some e.slot else slot_of k es

abbrev pub sector_of : ℕ → List Entry → Option ℕ
sector_of s [] = none
sector_of s (e ∷ es) = if e.slot == s then some e.sector else sector_of s es

-- No sector and no slot stands in two entries.
abbrev pub Apart : Entry → Entry → Type 0
Apart e f = (e.sector ≢ f.sector) × (e.slot ≢ f.slot)

abbrev pub IsOneToOne : List Entry → Type 0
IsOneToOne [] = Unit {0}
IsOneToOne (e ∷ es) = All (Apart e) es × IsOneToOne es

pub first-slot_of :
    (k : ℕ) (es : List Entry)
    → slot_of k es ≡ elim (first (has_sector k) es) [ some e ↦ some e.slot | none ↦ none ]
first-slot_of k [] = refl
first-slot_of k (e ∷ es) = ground (arith, first-slot_of k es)

pub first-sector_of :
    (s : ℕ) (es : List Entry)
    → sector_of s es ≡ elim (first (has_slot s) es) [ some e ↦ some e.sector | none ↦ none ]
first-sector_of s [] = refl
first-sector_of s (e ∷ es) = ground (arith, first-sector_of s es)

-- A sector that no entry has is found nowhere, and the other way round.
pub slot_of-fresh :
    (k s : ℕ) (e : Entry) (es : List Entry)
    → All (Apart e) es
    → slot_of k es ≡ some s
    → (e.sector ≢ k) × (e.slot ≢ s)
slot_of-fresh k s e [] a h = ground arith
slot_of-fresh k s e (f ∷ es) a h = ground (arith, slot_of-fresh k s e es a.1)

pub sector_of-fresh :
    (k s : ℕ) (e : Entry) (es : List Entry)
    → All (Apart e) es
    → sector_of s es ≡ some k
    → (e.sector ≢ k) × (e.slot ≢ s)
sector_of-fresh k s e [] a h = ground arith
sector_of-fresh k s e (f ∷ es) a h = ground (arith, sector_of-fresh k s e es a.1)

pub slot_of→sector_of :
    (k s : ℕ) (es : List Entry) → IsOneToOne es → slot_of k es ≡ some s → sector_of s es ≡ some k
slot_of→sector_of k s [] o h = ground arith
slot_of→sector_of k s (e ∷ es) o h =
    ground (arith, slot_of→sector_of k s es o.1, slot_of-fresh k s e es o.0)

pub sector_of→slot_of :
    (k s : ℕ) (es : List Entry) → IsOneToOne es → sector_of s es ≡ some k → slot_of k es ≡ some s
sector_of→slot_of k s [] o h = ground arith
sector_of→slot_of k s (e ∷ es) o h =
    ground (arith, sector_of→slot_of k s es o.1, sector_of-fresh k s e es o.0)

-- Status and out parameter for a value that was looked up.
abbrev pub reply : Option ℕ → ℤ × Option ℕ
reply none = (neg 2, none)
reply (some x) = (pos 0, some x)

-- The status of an insertion, and whether it stores an entry.
abbrev pub insert_status : Option ℕ → Option ℕ → ℤ
insert_status (some old) mem = neg 17
insert_status none none = neg 12
insert_status none (some a) = pos 0

abbrev pub stored : Option ℕ → Option ℕ → Bool
stored none (some a) = true
stored _ _ = false

module _ (hash : ℕ → ℕ) where
  pub find_by_sector_refines :
      {es : List Entry} {m : Bimap} (k : ℕ)
      → Holds hash es m
      → find_by_sector hash k m ≡ reply (slot_of k es)
  unfolding find_by_sector
  find_by_sector_refines {es} {m} k h = ground (arith, first-sector hash k h, first-slot_of k es)

  pub find_by_slot_refines :
      {es : List Entry} {m : Bimap} (s : ℕ)
      → Holds hash es m
      → find_by_slot hash s m ≡ reply (sector_of s es)
  unfolding find_by_slot
  find_by_slot_refines {es} {m} s h = ground (arith, first-slot hash s h, first-sector_of s es)

  -- In a bimap whose entries are one to one, looking a sector up gives a slot exactly if looking
  -- that slot up gives the sector: the two tables are inverse to one another.
  pub find_by_sector_iff_slot :
      (es : List Entry) (m : Bimap) (k s : ℕ)
      → Holds hash es m
      → IsOneToOne es
      → (find_by_sector hash k m ≡ (pos 0, some s)) ↔ (find_by_slot hash s m ≡ (pos 0, some k))
  find_by_sector_iff_slot es m k s h o = (
    λ p.
        ground
          (arith, find_by_sector_refines k h, find_by_slot_refines s h, slot_of→sector_of k s es o),
    λ p.
        ground
          (arith, find_by_sector_refines k h, find_by_slot_refines s h, sector_of→slot_of k s es o),
  )

-- After `bimap_insert`, with what the lookup of the sector gave before and what the allocation
-- gave: the status is -EEXIST, -ENOMEM or 0, and looking a sector up gives the new slot if it is
-- the inserted one and the status is 0, and what it gave before in all other cases.
pub find_by_sector-insert :
    {World : Type 0} (hash : ℕ → ℕ) (alloc : World → Option ℕ × World) (es : List Entry) (m : Bimap)
    (w : World) (sector slot k : ℕ)
    → Holds hash es m
    → let (status, m', w') = insert hash alloc sector slot m w in
      let old = (find_by_sector hash sector m).1 in
      let mem = (alloc w).0 in
      (status ≡ insert_status old mem)
      × (find_by_sector hash k m' ≡ (
          if stored old mem && (sector == k) then (pos 0, some slot) else find_by_sector hash k m))
find_by_sector-insert hash alloc es m w sector slot k h =
    let (s, h', _) = insert_refines hash alloc sector slot m w es h in
    ground (
      arith,
      s,
      find_by_sector_refines hash k h,
      find_by_sector_refines hash sector h,
      first-slot_of sector es,
      find_by_sector_refines hash k h',
    )
