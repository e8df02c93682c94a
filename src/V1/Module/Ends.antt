-- ===== src/V1/Module/Ends.antt =====
-- The ways in which loading the module of src/driver/src/dynaswap_drv.c can end.
use dynaswap.Base.{ℕ, ◌≡◌, ◌≢◌, ℤ, pos, true, false, is_neg, nonzero, [], none}
use dynaswap.V1.Setup.{nr_dirs}
use dynaswap.V1.Cleanup.{MapSetup, Ledger, null_file}
use dynaswap.V1.Setup.Balance.{IsBalanced, IsEmpty}
use dynaswap.V1.Setup.Init.{Granted}
use dynaswap.V1.Setup.Outcome.{IsSetUp}
use dynaswap.V1.Module.{ModuleState, ModuleAnswers, total_capacity, capacity_sectors}
use dynaswap.V1.Module.Load.{IsConsistent, IsGone}

-- The static variables before the module is loaded.
abbrev pub no_map : MapSetup
no_map = record {
  backing_file = null_file;
  virt_table = none;
  phys_table = none;
  map_entries = 0;
  bitmap_block = false;
  wq = false;
  work_func = false;
  work_queued = false;
  max_count = 0;
  ledger = record {
    opens = 0;
    closes = 0;
    error_closes = 0;
    allocs = 0;
    frees = 0;
    queues_made = 0;
    queues_destroyed = 0;
    pages_got = [];
    pages_freed = [];
  };
}

abbrev pub unloaded : ModuleState
unloaded = record {
  block_major = pos 0;
  tags = false;
  dynaswap_disk = false;
  registered = false;
  gendisks = 0;
  added = false;
  bad_deletes = 0;
  capacity = 0;
  dynamap = no_map;
}

-- The map can be had.
pub record MapGranted (gb : ℕ) (a : ModuleAnswers) : Type 0 where
  pub path : a.path ≡ true
  pub opened : nonzero a.setup.filp_open_result ≡ false
  pub granted : Granted a.setup (nr_dirs (total_capacity gb))

-- All but the last step is granted.
pub record Prepared (gb : ℕ) (a : ModuleAnswers) : Type 0 where
  pub map : MapGranted gb a
  pub major : is_neg a.register_blkdev ≡ false
  pub tags : nonzero a.blk_mq_alloc_tag_set ≡ false
  pub disk : nonzero a.blk_mq_alloc_disk ≡ false

-- How often the file was opened and closed in the end, and an error pointer closed in its place.
pub data IsFileEnd (gb : ℕ) (a : ModuleAnswers) (l : Ledger) : Type 0 where
  no_path : a.path ≡ false → l.opens ≡ 0 → l.closes ≡ 0 → l.error_closes ≡ 0 → IsFileEnd gb a l
  error_closed :
      nonzero a.setup.filp_open_result ≡ true
      → l.opens ≡ 0
      → l.closes ≡ 0
      → l.error_closes ≡ 1
      → IsFileEnd gb a l
  closed_twice :
      nonzero a.setup.filp_open_result ≡ false
      → ¬ Granted a.setup (nr_dirs (total_capacity gb))
      → l.opens ≡ 1
      → l.closes ≡ 2
      → l.error_closes ≡ 0
      → IsFileEnd gb a l
  closed_once : MapGranted gb a → l.opens ≡ 1 → l.closes ≡ 1 → l.error_closes ≡ 0 → IsFileEnd gb a l

-- All that was taken is given back.
pub record IsUnwound (gb : ℕ) (a : ModuleAnswers) (t : ModuleState) : Type 0 where
  pub gone : IsGone t
  pub balanced : IsBalanced t.dynamap.ledger
  pub empty : IsEmpty t.dynamap
  pub file : IsFileEnd gb a t.dynamap.ledger

pub record IsLoaded (gb : ℕ) (t : ModuleState) : Type 0 where
  pub consistent : IsConsistent t
  pub map : IsSetUp (total_capacity gb) no_map t.dynamap
  pub registered : t.registered ≡ true
  pub tags : t.tags ≡ true
  pub disk : t.dynaswap_disk ≡ true
  pub added : t.added ≡ true
  pub capacity : t.capacity ≡ capacity_sectors gb
  pub bad_deletes : t.bad_deletes ≡ 0

pub data ModuleOutcome (gb : ℕ) (a : ModuleAnswers) (r : ℤ × ModuleState) : Type 0 where
  loaded :
      Prepared gb a
      → nonzero a.add_disk ≡ false
      → r.0 ≡ pos 0
      → IsLoaded gb r.1
      → ModuleOutcome gb a r
  -- the disk is deleted although it was not added
  not_added :
      Prepared gb a
      → nonzero a.add_disk ≡ true
      → r.0 ≡ a.add_disk
      → IsUnwound gb a r.1
      → r.1.bad_deletes ≡ 1
      → ModuleOutcome gb a r
  not_prepared :
      ¬ Prepared gb a
      → nonzero r.0 ≡ true
      → IsUnwound gb a r.1
      → r.1.bad_deletes ≡ 0
      → ModuleOutcome gb a r

-- The major number is positive or an error.
abbrev pub GivesMajor : ModuleAnswers → Type 0
GivesMajor a = a.register_blkdev ≢ pos 0
