-- ===== src/V2/Disk/Unwind.antt =====
-- How the setup of src/driver/v2/device.c unwinds, and that teardown undoes it.
use dynaswap.Base.{
  ℕ, ◌≡◌, ◌≢◌, Bool, true, false, arith, pos, is_neg, nonzero, not, ◌&&◌, if◌then◌else◌,
}
use dynaswap.V2.Disk.{
  Disk, DiskAnswers, register_device, unregister_device, alloc_tagset, free_tagset, create_disk,
  remove_disk, setup_disk, teardown_disk, capacity_sectors,
}

-- Nothing is set up.
abbrev pub unset : Disk
unset = record {
  block_major = pos 0;
  tags = false;
  dynaswap_disk = false;
  registered = false;
  gendisks = 0;
  added = false;
  capacity = 0;
}

-- `register_blkdev` gives a number of its own, which is positive, or an error.
abbrev pub GivesMajor : DiskAnswers → Type 0
GivesMajor a = a.register_blkdev ≢ pos 0

-- Whether the answers let the setup go through.
abbrev pub accepts : DiskAnswers → Bool
accepts a =
    not (is_neg a.register_blkdev)
    && (not (nonzero a.blk_mq_alloc_tag_set) && (a.blk_mq_alloc_disk && not (nonzero a.add_disk)))

-- Whether the answers let the setup come to a disk that is allocated.
abbrev pub has_disk : DiskAnswers → Bool
has_disk a =
    not (is_neg a.register_blkdev) && (not (nonzero a.blk_mq_alloc_tag_set) && a.blk_mq_alloc_disk)

-- Setup from scratch succeeds exactly if the kernel grants all it asks. Then the disk is added with
-- its capacity; otherwise the registration and the tags are given back and no disk
-- is set; but a disk that was allocated stays so, also where it could not be added.
pub setup_disk_lem :
    (gb : ℕ) (a : DiskAnswers)
    → GivesMajor a
    → let (done, s) = setup_disk gb a unset in
      (done ≡ accepts a)
      × (s.registered ≡ accepts a)
      × (s.tags ≡ accepts a)
      × (s.dynaswap_disk ≡ accepts a)
      × (s.added ≡ accepts a)
      × (done ≡ true → s.capacity ≡ capacity_sectors gb)
      × (s.gendisks ≡ (if has_disk a then 1 else 0))
unfolding setup_disk register_device alloc_tagset create_disk unregister_device free_tagset
setup_disk_lem gb a pm = ground arith

-- Teardown after a setup that succeeded gives everything back.
pub teardown-setup :
    (gb : ℕ) (a : DiskAnswers)
    → GivesMajor a
    → (setup_disk gb a unset).0 ≡ true
    → teardown_disk (setup_disk gb a unset).1 ≡ record unset { capacity = capacity_sectors gb }
unfolding setup_disk register_device alloc_tagset create_disk unregister_device free_tagset
    teardown_disk remove_disk
teardown-setup gb a pm done = ground arith
