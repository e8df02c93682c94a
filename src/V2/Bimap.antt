-- ===== src/V2/Bimap.antt =====
-- src/driver/v2/utils/bimap.c: a two-way map between sectors and slots, as two chained hash tables
-- that share their entries.
-- `hash` is the kernel's hash of a key into a table, and `alloc` is `kmem_cache_alloc`, which takes
-- the state of the kernel and returns an address, or `none` for NULL. A chain is a list, its head
-- first.
pub mod Entries
pub mod Lookup
pub mod Destroy
pub mod Contents
pub mod Threads
use dynaswap.Base.{
  ℕ, zero, suc, ◌+◌, ◌-◌, ◌^◌, ℤ, pos, neg, Bool, true, false, List, [], ◌∷◌, ◌++◌, Option, none,
  some, ◌==◌, if◌then◌else◌, first, keep, not,
}

-- `struct bimap_entry`; `addr` is its address, by which the two list nodes inside it are known.
pub record Entry : Type 0 where
  pub addr : ℕ
  pub sector : ℕ
  pub slot : ℕ

-- A table gives for each bucket its chain.
abbrev pub Table : Type 0
Table = ℕ → List Entry

-- `bimap`, less its lock; `entry_cache` tells whether the pointer is set.
pub record Bimap : Type 0 where
  pub sector_to_slot : Table
  pub slot_to_sector : Table
  pub entry_cache : Bool

abbrev pub bimap_bits : ℕ
bimap_bits = 10

abbrev pub eexist : ℕ
eexist = 17

abbrev pub enomem : ℕ
enomem = 12

abbrev pub enoent : ℕ
enoent = 2

-- `hash_add`: a new entry goes to the head of its chain.
abbrev pub hash_add : ℕ → Entry → Table → Table
hash_add b e t j = if b == j then e ∷ t j else t j

abbrev pub has_sector : ℕ → Entry → Bool
has_sector k e = e.sector == k

abbrev pub has_slot : ℕ → Entry → Bool
has_slot s e = e.slot == s

module _ {World : Type 0} (hash : ℕ → ℕ) where
  -- The new entry goes into both tables, if memory was found for it.
  abbrev pub insert_at : ℕ → ℕ → Bimap → Option ℕ × World → ℤ × Bimap × World
  insert_at sector slot m (none, w) = (neg enomem, m, w)
  insert_at sector slot m (some a, w) =
      let e : Entry = record { addr = a; sector = sector; slot = slot } in
      (
        pos 0,
        record m {
          sector_to_slot = hash_add (hash sector) e m.sector_to_slot;
          slot_to_sector = hash_add (hash slot) e m.slot_to_sector;
        },
        w,
      )

-- `alloc` is the kernel's `kmem_cache_alloc` on the entry cache, in a state of the kernel.
module _ {World : Type 0} (hash : ℕ → ℕ) (alloc : World → Option ℕ × World) where
  unfoldable pub insert : ℕ → ℕ → Bimap → World → ℤ × Bimap × World
  insert sector slot m w = elim (first (has_sector sector) (m.sector_to_slot (hash sector))) [
    | some existing ↦ (neg eexist, m, w)
    | none ↦ insert_at hash sector slot m (alloc w)
  ]

module _ (hash : ℕ → ℕ) where
  -- The status, and what is stored through the out parameter (`none`: nothing).
  unfoldable pub find_by_slot : ℕ → Bimap → ℤ × Option ℕ
  find_by_slot slot m = elim (first (has_slot slot) (m.slot_to_sector (hash slot))) [
    | some e ↦ (pos 0, some e.sector)
    | none ↦ (neg enoent, none)
  ]

  unfoldable pub find_by_sector : ℕ → Bimap → ℤ × Option ℕ
  find_by_sector sector m = elim (first (has_sector sector) (m.sector_to_slot (hash sector))) [
    | some e ↦ (pos 0, some e.slot)
    | none ↦ (neg enoent, none)
  ]

-- `cache` tells whether `kmem_cache_create` returned a cache.
unfoldable pub init_bimap : Bool → ℤ × Bimap
init_bimap cache = (
  if cache then pos 0 else neg enomem,
  record { sector_to_slot = λ b. []; slot_to_sector = λ b. []; entry_cache = cache },
)

-- `hlist_del` takes the node of the entry at `a` out of the chain that it is in.
abbrev pub hlist_del : ℕ → Table → Table
hlist_del a t b = keep (λ e. not (e.addr == a)) (t b)

-- One chain, `tmp` being the rest of it as it was; with the addresses that were freed, in order.
unfoldable pub destroy_chain : List Entry → Bimap → List ℕ × Bimap
destroy_chain [] m = ([], m)
destroy_chain (e ∷ tmp) m =
    let (freed, m') = destroy_chain tmp (record m {
      sector_to_slot = hlist_del e.addr m.sector_to_slot;
      slot_to_sector = hlist_del e.addr m.slot_to_sector;
    }) in
    (e.addr ∷ freed, m')

-- The buckets from `bkt` on, `n` of them.
unfoldable pub destroy_buckets : ℕ → ℕ → Bimap → List ℕ × Bimap
destroy_buckets zero bkt m = ([], m)
destroy_buckets (suc n) bkt m =
    let (here, m') = destroy_chain (m.sector_to_slot bkt) m in
    let (rest, m'') = destroy_buckets n (suc bkt) m' in (here ++ rest, m'')

-- The cache itself is not destroyed. The NULL test of the pointer `bimap` always passes.
unfoldable pub destroy_bimap : Bimap → List ℕ × Bimap
destroy_bimap m = if m.entry_cache then destroy_buckets (2 ^ bimap_bits) 0 m else ([], m)
