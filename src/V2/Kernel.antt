-- ===== src/V2/Kernel.antt =====
-- The kernel as the v2 driver sees it: the functions that src/driver/v2 calls and does not define.
-- `World` is the state behind them (memory, the file system), `Page` the contents of a page.
use dynaswap.Base.{ℕ, ◌+◌, ◌≤◌, ◌<◌, ◌^◌, ◌≡◌, ◌⊎◌, true, false, Option, Bits, ℤ, pos, negsuc}

pub record Kernel (World Page : Type 0) : Type 0 where
  -- the bucket of a key in a hash table of linux/hashtable.h
  pub hash : ℕ → ℕ
  -- bitmap, size, offset
  pub find_next_zero_bit : Bits → ℕ → ℕ → ℕ
  -- an address, or `none` for NULL
  pub kmem_cache_alloc : World → Option ℕ × World
  -- offset and length; the mode is 0
  pub vfs_fallocate : ℕ → ℕ → World → ℤ × World
  -- what is read at an offset into a page: the count or an error, and the page
  pub kernel_read : ℕ → World → ℤ × Page
  pub kernel_write : Page → ℕ → World → ℤ × World
  -- first and last byte
  pub vfs_fsync_range : ℕ → ℕ → World → ℤ × World
  pub zero_page : Page
  pub errno_to_blk_status : ℤ → ℕ

-- What their documentation promises. `content w o` is the page of the backing file at offset `o`,
-- zero where nothing was written.
pub record Documented {World Page : Type 0} (k : Kernel World Page) : Type 0 where
  pub hash_bound : (key : ℕ) → k.hash key < 2 ^ 10
  -- the first clear bit from the offset on, and at least the size if there is none
  pub found_clear :
      (b : Bits) (n o : ℕ) → k.find_next_zero_bit b n o < n → b (k.find_next_zero_bit b n o) ≡ false
  pub missed_set :
      (b : Bits) (n o i : ℕ) → n ≤ k.find_next_zero_bit b n o → o ≤ i → i < n → b i ≡ true
  pub content : World → ℕ → Page
  pub alloc_content : (w : World) (o : ℕ) → content (k.kmem_cache_alloc w).1 o ≡ content w o
  pub fallocate_content :
      (w : World) (f l o : ℕ) → content (k.vfs_fallocate f l w).1 o ≡ content w o
  pub fsync_content : (w : World) (f l o : ℕ) → content (k.vfs_fsync_range f l w).1 o ≡ content w o
  -- 0 or a negative error
  pub fsync_status : (w : World) (f l n : ℕ) → (k.vfs_fsync_range f l w).0 ≡ pos n → n ≡ 0
  -- a full read gives what the file holds
  pub read_content :
      (w : World) (o : ℕ) → (k.kernel_read o w).0 ≡ pos 4096 → (k.kernel_read o w).1 ≡ content w o
  -- a full write is there, and a write touches no other page
  pub write_content :
      (w : World) (p : Page) (o : ℕ)
      → (k.kernel_write p o w).0 ≡ pos 4096
      → content (k.kernel_write p o w).1 o ≡ p
  pub write_other :
      (w : World) (p : Page) (o j : ℕ)
      → (o + 4096 ≤ j) ⊎ (j + 4096 ≤ o)
      → content (k.kernel_write p o w).1 j ≡ content w j
  pub status_of_zero : k.errno_to_blk_status (pos 0) ≡ 0
  pub status_of_error : (n : ℕ) → (k.errno_to_blk_status (negsuc n) ≡ 0) → ⊥
