-- ===== src/V1/Threads.antt =====
-- Writes of src/driver/src/dynamap.c that overlap: the work queue runs items on several processors.
-- A write holds `map_rwsem` for reading while it looks its page up and for writing while it takes a
-- slot, and writes to the file without it. Reads change nothing and are left out.
pub mod Steps
pub mod Holds
pub mod Order
use dynaswap.Base.{
  ℕ, ◌+◌, ◌/◌, ◌%◌, ◌<◌, ◌≡◌, Bool, true, false, not, ◌&&◌, ◌||◌, ℤ, List, [], ◌∷◌, ◌++◌,
  if◌then◌else◌, ◌==◌, leb,
}
use dynaswap.V2.Kernel.{Kernel}
use dynaswap.V2.Storage.{offset_of}
use dynaswap.V1.Dynamap.{
  DynamapCtx, Dynamap, no_slot, take_slot, find_slot, disk_write, dynaswap_should_extend,
  dynaswap_extend, discard_page, blk_sts_nospc,
}
use dynaswap.V1.Dynamap.Valid.{entry}

-- Where a write stands: before `queue_work`, before either lock, before the transfer to its slot,
-- and ended with a status.
pub data WriteStage : Type 0 where
  asking looking claiming : WriteStage
  writing : ℕ → WriteStage
  ended : ℕ → WriteStage

pub record Writer (Page : Type 0) : Type 0 where
  pub page_index : ℕ
  pub page : Page
  pub stage : WriteStage

-- The map, and the writes that run.
pub record Threads (World Page : Type 0) : Type 0 where
  pub map : Dynamap World
  pub writers : List (Writer Page)

abbrev pub is_writing : WriteStage → Bool
is_writing asking = false
is_writing looking = false
is_writing claiming = false
is_writing (writing p_slot) = true
is_writing (ended status) = false

-- Whether a transfer to the slot of a page is about to happen.
abbrev pub in_flight : {Page : Type 0} → ℕ → List (Writer Page) → Bool
in_flight j [] = false
in_flight j (w ∷ ws) = ((w.page_index == j) && is_writing w.stage) || in_flight j ws

-- Under the lock for reading.
unfoldable pub look_up : ℕ → DynamapCtx → WriteStage
look_up i c = let p_slot = entry c i in if not (p_slot == no_slot) then writing p_slot else claiming

module _ {World Page : Type 0} (k : Kernel World Page) where
  -- Under the lock for writing.
  unfoldable pub claim : ℕ → Dynamap World → WriteStage × Dynamap World
  claim i s =
      let p_slot = entry s.ctx i in
      let free = find_slot k s.ctx in
      if not (p_slot == no_slot)
      then (writing p_slot, s)
      else (if leb s.ctx.total_slots free
          then (ended blk_sts_nospc, s)
          else (writing free, record s { ctx = take_slot (i / 512) (i % 512) free s.ctx }))

module _ {World Page : Type 0} (k : Kernel World Page) (trigger : ℕ) where
  -- What a write does next.
  unfoldable pub next_stage : WriteStage → ℕ → Page → Dynamap World → WriteStage × Dynamap World
  next_stage asking i page s = (
    looking,
    if dynaswap_should_extend trigger s.ctx then record s { extend_queued = true } else s,
  )
  next_stage looking i page s = (look_up i s.ctx, s)
  next_stage claiming i page s = claim k i s
  next_stage (writing p_slot) i page s =
      let (status, t) = disk_write k p_slot page s in (ended status, t)
  next_stage (ended status) i page s = (ended status, s)

  unfoldable pub write_step : Writer Page → Dynamap World → Writer Page × Dynamap World
  write_step w s =
      let (stage, t) = next_stage w.stage w.page_index w.page s in (record w { stage = stage }, t)

  -- The page that the step stores, before those stored earlier.
  abbrev pub store_step : WriteStage → ℕ → Page → List (ℕ × Page) → List (ℕ × Page)
  store_step asking i page l = l
  store_step looking i page l = l
  store_step claiming i page l = l
  store_step (writing p_slot) i page l = (i, page) ∷ l
  store_step (ended status) i page l = l

  -- What can happen from `s` on, with the pages stored meanwhile, the last one first, a page of zeros
  -- where it was discarded. `chunk` is the module argument chunk_size, `punch_hole` as in V1/Dynamap.
  -- A page is discarded alone, under the lock for writing, and not while it is in flight.
  pub data Overlap (punch_hole : ℕ → World → ℤ × World) (chunk : ℕ) (s : Threads World Page)
      : List (ℕ × Page) → Threads World Page → Type 0 where
    start : Overlap punch_hole chunk s [] s
    arrived :
        {l : List (ℕ × Page)} {t : Threads World Page} (i : ℕ) (page : Page)
        → Overlap punch_hole chunk s l t
        → t.map.ctx.has_dir (i / 512) ≡ true
        → Overlap punch_hole chunk s l (record t {
          writers = record { page_index = i; page = page; stage = asking } ∷ t.writers;
        })
    stepped :
        {l : List (ℕ × Page)} {t : Threads World Page} (before after : List (Writer Page))
        (w : Writer Page)
        → Overlap punch_hole chunk s l t
        → t.writers ≡ before ++ w ∷ after
        → Overlap punch_hole chunk s (store_step w.stage w.page_index w.page l) (record {
          map = (write_step w t.map).1;
          writers = before ++ (write_step w t.map).0 ∷ after;
        })
    extended :
        {l : List (ℕ × Page)} {t : Threads World Page}
        → Overlap punch_hole chunk s l t
        → t.map.extend_queued ≡ true
        → Overlap punch_hole chunk s l (record t { map = dynaswap_extend k chunk t.map })
    discarded :
        {l : List (ℕ × Page)} {t : Threads World Page} (i : ℕ)
        → Overlap punch_hole chunk s l t
        → in_flight i t.writers ≡ false
        → Overlap punch_hole chunk s
            ((i, k.zero_page) ∷ l)
            (record t { map = discard_page punch_hole i t.map })
