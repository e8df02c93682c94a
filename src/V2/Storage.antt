-- ===== src/V2/Storage.antt =====
-- src/driver/v2/fs/storage.c: the backing file, one page of it for each slot.
pub mod Pages
pub mod Lifetime
use dynaswap.Base.{
  ℕ, ◌+◌, ◌-◌, ◌%◌, ◌^◌, ℤ, pos, neg, Bool, true, false, not, List, [], ◌∷◌, if◌then◌else◌, is_neg,
  is_nat, nonzero, add_ulong, shl_ulong,
}
use dynaswap.V2.Kernel.{Kernel}

abbrev pub page_shift : ℕ
page_shift = 12

abbrev pub page_size : ℕ
page_size = 4096

abbrev pub eio : ℕ
eio = 5

abbrev pub einval : ℕ
einval = 22

-- `(loff_t)(slot) << PAGE_SHIFT`, as its 64 bits.
unfoldable pub offset_of : ℕ → ℕ
offset_of slot = shl_ulong slot page_shift

-- `a - b` on 64 bits.
abbrev sub_ulong : ℕ → ℕ → ℕ
sub_ulong a b = (a + 2 ^ 64 - b) % 2 ^ 64

-- The error of a transfer that did not move a whole page. Errors fit in an int.
unfoldable pub transfer_error : ℤ → ℤ
transfer_error ret = if is_neg ret then ret else neg eio

-- The range that is synced, from the offset that a full write has moved on by a page.
unfoldable pub sync_first : ℕ → ℕ
sync_first slot = sub_ulong (add_ulong (offset_of slot) page_size) page_size

unfoldable pub sync_last : ℕ → ℕ
sync_last slot = sub_ulong (add_ulong (offset_of slot) page_size) 1

module _ {World Page : Type 0} (k : Kernel World Page) where
  unfoldable pub extend_storage : ℕ → ℕ → World → ℤ × World
  extend_storage current_slots added_slots w =
      let (ret, w') = k.vfs_fallocate (offset_of current_slots) (offset_of added_slots) w in
      if is_neg ret then (ret, w') else (pos 0, w')

  -- The status, and what the page holds afterwards.
  unfoldable pub read_storage : ℕ → World → ℤ × Page
  read_storage slot w =
      let (ret, page) = k.kernel_read (offset_of slot) w in
      if not (is_nat ret page_size) then (transfer_error ret, k.zero_page) else (pos 0, page)

  unfoldable pub write_storage : ℕ → Page → World → ℤ × World
  write_storage slot page w =
      let (ret, w') = k.kernel_write page (offset_of slot) w in
      let (sync_err, w'') = k.vfs_fsync_range (sync_first slot) (sync_last slot) w' in
      if not (is_nat ret page_size)
      then (transfer_error ret, w')
      else (if nonzero sync_err then (sync_err, w'') else (pos 0, w''))

-- The calls on the file and its inode that setup and teardown make and that succeed.
pub data FileCall : Type 0 where
  filp_open filp_close get_write_access put_write_access vfs_truncate : FileCall

-- `struct storage_context`: whether `backing_file` is set.
pub record StorageContext : Type 0 where
  pub backing_file : Bool

-- `path` tells whether the module argument is given, `opened` is 0 or the error of `filp_open`,
-- `access` what `get_write_access` returns. With the calls made, in order. An error pointer is
-- replaced by NULL before the return.
unfoldable pub setup_storage : Bool → ℤ → ℤ → StorageContext → ℤ × StorageContext × List FileCall
setup_storage path opened access c =
    if not path
    then (neg einval, c, [])
    else (if nonzero opened
        then (opened, record { backing_file = false }, [])
        else (if nonzero access
            then (access, record { backing_file = false }, filp_open ∷ filp_close ∷ [])
            else (pos 0, record { backing_file = true }, filp_open ∷ get_write_access ∷ [])))

-- An open file has an inode.
unfoldable pub teardown_storage : StorageContext → StorageContext × List FileCall
teardown_storage c = (
  record { backing_file = false },
  (if c.backing_file then put_write_access ∷ filp_close ∷ vfs_truncate ∷ [] else []),
)
