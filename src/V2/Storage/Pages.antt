-- ===== src/V2/Storage/Pages.antt =====
-- What the transfers of src/driver/v2/fs/storage.c do to the pages of the backing file.
use dynaswap.Base.{
  ℕ, ◌+◌, ◌≤◌, ◌<◌, ◌^◌, ◌≡◌, ◌≢◌, ◌⊎◌, inl, inr, true, arith, ℤ, pos, negsuc, is_nat, Bool-cases,
}
use dynaswap.V2.Kernel.{Kernel, Documented}
use dynaswap.V2.Storage.{
  extend_storage, read_storage, write_storage, offset_of, sync_first, sync_last, transfer_error,
}

pub is_nat→eq : (x : ℤ) (n : ℕ) → is_nat x n ≡ true → x ≡ pos n
is_nat→eq (pos m) n h = ground arith
is_nat→eq (negsuc m) n h = ground arith

transfer_error-nonzero : (x : ℤ) → transfer_error x ≢ pos 0
unfolding transfer_error
transfer_error-nonzero (pos m) h = ground arith
transfer_error-nonzero (negsuc m) h = ground arith

-- No status is positive.
abbrev pub NotPos : ℤ → Type 0
NotPos x = (n : ℕ) → x ≡ pos n → n ≡ 0

transfer_error-NotPos : (x : ℤ) → NotPos (transfer_error x)
unfolding transfer_error
transfer_error-NotPos (pos m) n h = ground arith
transfer_error-NotPos (negsuc m) n h = ground arith

-- The pages of two slots do not overlap.
pub offset_of_apart :
    (a b : ℕ)
    → a < 2 ^ 52
    → b < 2 ^ 52
    → a ≢ b
    → (offset_of a + 4096 ≤ offset_of b) ⊎ (offset_of b + 4096 ≤ offset_of a)
unfolding offset_of
offset_of_apart a b ha hb ne = ground arith

module _ {World Page : Type 0} (k : Kernel World Page) (d : Documented k) where
  abbrev pub page_at : World → ℕ → Page
  page_at w slot = d.content w (offset_of slot)

  pub extend_storage-page :
      (current added : ℕ) (w : World) (slot : ℕ)
      → page_at (extend_storage k current added w).1 slot ≡ page_at w slot
  unfolding extend_storage
  extend_storage-page current added w slot =
      ground (arith, d.fallocate_content w (offset_of current) (offset_of added) (offset_of slot))

  -- `read_storage` gives the slot's page, or an error and a page of zeros.
  pub read_storage_lem :
      (slot : ℕ) (w : World)
      → let (status, page) = read_storage k slot w in
        ((status ≡ pos 0) × (page ≡ page_at w slot)) ⊎ ((status ≢ pos 0) × (page ≡ k.zero_page))
  unfolding read_storage
  read_storage_lem slot w = elim (Bool-cases (is_nat (k.kernel_read (offset_of slot) w).0 4096)) [
    | inl full ↦ inl (
      ground arith,
      ground (
        arith,
        d.read_content w (offset_of slot),
        is_nat→eq (k.kernel_read (offset_of slot) w).0 4096 full,
      ),
    )
    | inr short ↦ inr (
      (λ e. ground (arith, transfer_error-nonzero (k.kernel_read (offset_of slot) w).0)),
      ground arith,
    )
  ]

  -- A successful `write_storage` leaves the page in the slot.
  pub write_storage-same :
      (slot : ℕ) (page : Page) (w : World)
      → (write_storage k slot page w).0 ≡ pos 0
      → page_at (write_storage k slot page w).1 slot ≡ page
  unfolding write_storage
  write_storage-same slot page w e =
      let (ret, w') = k.kernel_write page (offset_of slot) w in
      ground (
        arith,
        transfer_error-nonzero ret,
        is_nat→eq ret 4096,
        d.write_content w page (offset_of slot),
        d.fsync_content w' (sync_first slot) (sync_last slot) (offset_of slot),
      )

  -- Successful or not, it leaves the pages of all other slots.
  pub write_storage-other :
      (slot j : ℕ) (page : Page) (w : World)
      → slot < 2 ^ 52
      → j < 2 ^ 52
      → slot ≢ j
      → page_at (write_storage k slot page w).1 j ≡ page_at w j
  unfolding write_storage
  write_storage-other slot j page w hs hj ne =
      let (ret, w') = k.kernel_write page (offset_of slot) w in
      ground (
        arith,
        d.write_other w page (offset_of slot) (offset_of j) (offset_of_apart slot j hs hj ne),
        d.fsync_content w' (sync_first slot) (sync_last slot) (offset_of j),
      )

  pub read_storage-NotPos : (slot : ℕ) (w : World) → NotPos (read_storage k slot w).0
  unfolding read_storage
  read_storage-NotPos slot w n h =
      ground (arith, transfer_error-NotPos (k.kernel_read (offset_of slot) w).0 n)

  pub write_storage-NotPos :
      (slot : ℕ) (page : Page) (w : World) → NotPos (write_storage k slot page w).0
  unfolding write_storage
  write_storage-NotPos slot page w n h =
      let (ret, w') = k.kernel_write page (offset_of slot) w in
      ground
        (arith, transfer_error-NotPos ret n, d.fsync_status w' (sync_first slot) (sync_last slot) n)

-- The range that a write syncs is the page that it wrote.
pub sync_range :
    (slot : ℕ)
    → slot < 2 ^ 52
    → (sync_first slot ≡ offset_of slot) × (sync_last slot ≡ offset_of slot + 4095)
unfolding sync_first sync_last offset_of
sync_range slot h = omega arith
