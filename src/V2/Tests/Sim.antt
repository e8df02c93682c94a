-- ===== src/V2/Tests/Sim.antt =====
-- A kernel that always has memory, a file of whole pages and a bitmap search, as documented.
use dynaswap.Base.{
  ℕ, zero, suc, ◌+◌, ◌-◌, ◌%◌, ◌≤◌, ◌<◌, ◌≡◌, refl, ◌⊎◌, inl, inr, true, false, some, arith, Bits,
  ℤ, pos, negsuc, is_neg, ◌==◌, if◌then◌else◌, Bool-cases,
}
use dynaswap.V2.Kernel.{Kernel, Documented}

-- The file's pages by their offset, and the next free address.
pub record SimWorld : Type 0 where
  pub pages : ℕ → ℕ
  pub next : ℕ

abbrev pub scan : ℕ → Bits → ℕ → ℕ
scan zero b i = i
scan (suc f) b i = let rest = scan f b (suc i) in if b i then rest else i

scan_found : (f : ℕ) (b : Bits) (i : ℕ) → scan f b i < f + i → b (scan f b i) ≡ false
scan_found zero b i h = absurd (omega arith)
scan_found (suc f) b i h = ground (arith, scan_found f b (suc i))

scan_missed : (f : ℕ) (b : Bits) (i j : ℕ) → f + i ≤ scan f b i → i ≤ j → j < f + i → b j ≡ true
scan_missed zero b i j h l u = absurd (omega arith)
scan_missed (suc f) b i j h l u = elim (Bool-cases (i == j)) [
  | inl e ↦ ground arith
  | inr ne ↦ ground (arith, scan_missed f b (suc i) j)
]

abbrev pub find : Bits → ℕ → ℕ → ℕ
find b n o = scan (n - o) b o

abbrev pub sim : Kernel SimWorld ℕ
sim = record {
  hash = λ key. key % 1024;
  find_next_zero_bit = find;
  kmem_cache_alloc = λ w. (some w.next, record w { next = suc w.next });
  vfs_fallocate = λ o l w. (pos 0, w);
  kernel_read = λ o w. (pos 4096, w.pages o);
  kernel_write = λ p o w. (pos 4096, record w { pages = λ j. if o == j then p else w.pages j });
  vfs_fsync_range = λ f l w. (pos 0, w);
  zero_page = 0;
  errno_to_blk_status = λ e. if is_neg e then 10 else 0;
}

pub find_clear : (b : Bits) (n o : ℕ) → find b n o < n → b (find b n o) ≡ false
find_clear b n o h = scan_found (n - o) b o (omega arith)

pub find_set : (b : Bits) (n o i : ℕ) → n ≤ find b n o → o ≤ i → i < n → b i ≡ true
find_set b n o i h l u = scan_missed (n - o) b o i (omega arith) l (omega arith)

pub sim_other :
    (w : SimWorld) (p o j : ℕ)
    → (o + 4096 ≤ j) ⊎ (j + 4096 ≤ o)
    → (if o == j then p else w.pages j) ≡ w.pages j
sim_other w p o j h = ground arith

pub sim_sync : (n : ℕ) → ◌≡◌ {A = ℤ} (pos 0) (pos n) → n ≡ 0
sim_sync n h = ground arith

pub sim_same : (w : SimWorld) (p o : ℕ) → (if o == o then p else w.pages o) ≡ p
sim_same w p o = ground arith

pub sim_error : (n : ℕ) → (sim.errno_to_blk_status (negsuc n) ≡ 0) → ⊥
sim_error n h = ground arith

abbrev pub sim_documented : Documented sim
sim_documented = record {
  hash_bound = λ key. omega arith;
  found_clear = find_clear;
  missed_set = find_set;
  content = λ w o. w.pages o;
  alloc_content = λ w o. refl;
  fallocate_content = λ w f l o. refl;
  fsync_content = λ w f l o. refl;
  fsync_status = λ w f l n h. sim_sync n h;
  read_content = λ w o h. refl;
  write_content = λ w p o h. sim_same w p o;
  write_other = sim_other;
  status_of_zero = refl;
  status_of_error = λ n h. sim_error n h;
}

-- An empty file, with addresses from 100 on.
abbrev pub empty_world : SimWorld
empty_world = record { pages = λ o. 0; next = 100 }
