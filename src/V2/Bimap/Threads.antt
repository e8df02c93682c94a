-- ===== src/V2/Bimap/Threads.antt =====
-- Calls of `bimap_insert` of src/driver/v2/utils/bimap.c that overlap: it looks the sector up under
-- the lock for reading, lets the lock go, asks for memory, and adds the entry under the lock for
-- writing. The lookups run under the lock for reading, and see the map between two of these steps.
pub mod Alone
pub mod Steps
pub mod Order
pub mod Race
use dynaswap.Base.{
  ℕ, ℤ, pos, neg, Bool, true, false, Option, none, some, ◌≡◌, ◌==◌, if◌then◌else◌, first,
}
use dynaswap.V2.Bimap.{Entry, Bimap, has_sector, hash_add, eexist, enomem}

-- Where a call stands: none runs, before the lock for reading, before the allocation, before the
-- lock for writing with the new entry's address, and ended with a status.
pub data InsertStage : Type 0 where
  idle looking allocating : InsertStage
  adding : ℕ → InsertStage
  ended : ℤ → InsertStage

pub record Call : Type 0 where
  pub sector : ℕ
  pub slot : ℕ
  pub stage : InsertStage

-- The map, the kernel, and the call of each thread.
pub record InsertThreads (World : Type 0) : Type 0 where
  pub bimap : Bimap
  pub world : World
  pub calls : ℕ → Call

-- Whether a call is under way.
abbrev pub is_live : InsertStage → Bool
is_live idle = false
is_live looking = true
is_live allocating = true
is_live (adding a) = true
is_live (ended status) = false

abbrev pub set_call : ℕ → Call → (ℕ → Call) → ℕ → Call
set_call i c calls j = if i == j then c else calls j

-- Under the lock for reading.
unfoldable pub look : (ℕ → ℕ) → ℕ → Bimap → InsertStage
look hash sector m = elim (first (has_sector sector) (m.sector_to_slot (hash sector))) [
  | some existing ↦ ended (neg eexist)
  | none ↦ allocating
]

-- What `kmem_cache_alloc` gave.
abbrev pub allocated : Option ℕ → InsertStage
allocated none = ended (neg enomem)
allocated (some a) = adding a

-- Under the lock for writing.
unfoldable pub add : (ℕ → ℕ) → Entry → Bimap → Bimap
add hash e m = record m {
  sector_to_slot = hash_add (hash e.sector) e m.sector_to_slot;
  slot_to_sector = hash_add (hash e.slot) e m.slot_to_sector;
}

module _ {World : Type 0} (hash : ℕ → ℕ) (alloc : World → Option ℕ × World) where
  -- What a call does next.
  unfoldable pub next_insert : InsertStage → ℕ → ℕ → Bimap → World → InsertStage × Bimap × World
  next_insert idle sector slot m w = (idle, m, w)
  next_insert looking sector slot m w = (look hash sector m, m, w)
  next_insert allocating sector slot m w = let (mem, w') = alloc w in (allocated mem, m, w')
  next_insert (adding a) sector slot m w =
      (ended (pos 0), add hash (record { addr = a; sector = sector; slot = slot }) m, w)
  next_insert (ended status) sector slot m w = (ended status, m, w)

  -- One step of the thread `i`.
  unfoldable pub step_call : ℕ → InsertThreads World → InsertThreads World
  step_call i s =
      let c = s.calls i in
      let (stage, m, w) = next_insert c.stage c.sector c.slot s.bimap s.world in
      record { bimap = m; world = w; calls = set_call i (record c { stage = stage }) s.calls }

  -- What can happen from `s` on, where a call for a sector and a slot may start if `May` says so.
  pub data InsertOverlap (May : ℕ → ℕ → InsertThreads World → Type 0) (s : InsertThreads World)
      : InsertThreads World → Type 0 where
    start : InsertOverlap May s s
    called :
        {t : InsertThreads World} (i sector slot : ℕ)
        → InsertOverlap May s t
        → is_live (t.calls i).stage ≡ false
        → May sector slot t
        → InsertOverlap May s (record t {
          calls = set_call i (record { sector = sector; slot = slot; stage = looking }) t.calls;
        })
    stepped :
        {t : InsertThreads World} (i : ℕ)
        → InsertOverlap May s t
        → InsertOverlap May s (step_call i t)
