-- ===== src/V2/Disk.antt =====
-- src/driver/v2/device.c, the second half: registering the device, its tag set and its disk.
pub mod Unwind
use dynaswap.Base.{
  ℕ, zero, suc, ◌+◌, ◌-◌, ◌*◌, ◌^◌, ℤ, pos, negsuc, Bool, true, false, not, if◌then◌else◌, is_neg,
  nonzero, shr, shl_ulong, ltb_int,
}

-- The static variables: BLOCK_MAJOR, whether TAG_SET has tags, whether DYNASWAP_DISK is set; and
-- what is held behind them: the registration, and the disks that are allocated and added.
pub record Disk : Type 0 where
  pub block_major : ℤ
  pub tags : Bool
  pub dynaswap_disk : Bool
  pub registered : Bool
  pub gendisks : ℕ
  pub added : Bool
  pub capacity : ℕ

-- What the kernel answers: the major number or an error, the result of the tag set's allocation,
-- whether a disk was allocated, and the result of adding it.
pub record DiskAnswers : Type 0 where
  pub register_blkdev : ℤ
  pub blk_mq_alloc_tag_set : ℤ
  pub blk_mq_alloc_disk : Bool
  pub add_disk : ℤ

unfoldable pub register_device : DiskAnswers → Disk → Bool × Disk
register_device a s =
    if is_neg a.register_blkdev
    then (false, s)
    else (true, record s { block_major = a.register_blkdev; registered = true })

unfoldable pub unregister_device : Disk → Disk
unregister_device s =
    if ltb_int (pos 0) s.block_major
    then record s { block_major = pos 0; registered = false }
    else s

unfoldable pub alloc_tagset : DiskAnswers → Disk → Bool × Disk
alloc_tagset a s =
    if nonzero a.blk_mq_alloc_tag_set then (false, s) else (true, record s { tags = true })

unfoldable pub free_tagset : Disk → Disk
free_tagset s = if not s.tags then s else record s { tags = false }

-- BLOCK_CAPACITY >> SECTOR_SHIFT, for BLOCK_CAPACITY_GB.
abbrev pub capacity_sectors : ℕ → ℕ
capacity_sectors gb = shr (shl_ulong gb 30) 9

-- A disk that cannot be added is forgotten without being put.
unfoldable pub create_disk : ℕ → DiskAnswers → Disk → Bool × Disk
create_disk gb a s =
    let allocated : Disk = record s {
      dynaswap_disk = true;
      gendisks = suc s.gendisks;
      capacity = capacity_sectors gb;
    } in
    if not a.blk_mq_alloc_disk
    then (false, record s { dynaswap_disk = false })
    else (if nonzero a.add_disk
        then (false, record allocated { dynaswap_disk = false })
        else (true, record allocated { added = true }))

unfoldable pub remove_disk : Disk → Disk
remove_disk s =
    if not s.dynaswap_disk
    then s
    else record s { dynaswap_disk = false; gendisks = s.gendisks - 1; added = false }

unfoldable pub setup_disk : ℕ → DiskAnswers → Disk → Bool × Disk
setup_disk gb a s =
    let (registered, s₁) = register_device a s in
    let (allocated, s₂) = alloc_tagset a s₁ in
    let (created, s₃) = create_disk gb a s₂ in
    if not registered
    then (false, s₁)
    else (if not allocated
        then (false, unregister_device s₂)
        else (if not created then (false, unregister_device (free_tagset s₃)) else (true, s₃)))

unfoldable pub teardown_disk : Disk → Disk
teardown_disk s = unregister_device (free_tagset (remove_disk s))
