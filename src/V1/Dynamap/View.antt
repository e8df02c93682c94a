-- ===== src/V1/Dynamap/View.antt =====
-- The device as its user sees it, a page for each index, and reads of src/driver/src/dynamap.c.
use dynaswap.Base.{
  ℕ, ◌/◌, ◌^◌, ◌<◌, ◌≡◌, ◌≢◌, if◌then◌else◌, ◌==◌, ◌⊎◌, inl, inr, arith, is_nat, Bool-cases, ==→ne,
}
use dynaswap.V2.Kernel.{Kernel, Documented}
use dynaswap.V2.Storage.{offset_of}
use dynaswap.V2.Storage.Pages.{page_at, is_nat→eq}
use dynaswap.V1.Dynamap.{DynamapCtx, Dynamap, no_slot, dynaswap_read}
use dynaswap.V1.Dynamap.Valid.{entry, IsValid}

module _ {World Page : Type 0} (k : Kernel World Page) (d : Documented k) where
  -- What the device holds in a page.
  unfoldable pub view : Dynamap World → ℕ → Page
  view s j = if entry s.ctx j == no_slot then k.zero_page else page_at k d s.world (entry s.ctx j)

  -- A mapped slot lies below the size of the bitmap.
  pub entry-lt : (c : DynamapCtx) (i : ℕ) → IsValid c → entry c i ≢ no_slot → entry c i < 2 ^ 52
  entry-lt c i v m = omega (arith, v.below (entry c i) (v.marked i m), v.fits, v.small)

  -- A read gives the page of the device with status 0, or an error and a page of zeros.
  pub dynaswap_read-view :
      (s : Dynamap World) (sector : ℕ)
      → let (status, page) = dynaswap_read k sector s in
        ((status ≡ 0) × (page ≡ view s (sector / 8))) ⊎ ((status ≡ 10) × (page ≡ k.zero_page))
  unfolding dynaswap_read view
  dynaswap_read-view s sector =
      let slot = entry s.ctx (sector / 8) in
      let (ret, page) = k.kernel_read (offset_of slot) s.world in
      elim (Bool-cases (slot == no_slot)) [
        | inl e ↦ inl (ground arith, ground arith)
        | inr e ↦ elim (Bool-cases (is_nat ret 4096)) [
          | inl full ↦ inl (
            ground arith,
            ground (arith, d.read_content s.world (offset_of slot), is_nat→eq ret 4096 full),
          )
          | inr short ↦ inr (ground arith, ground arith)
        ]
      ]

  pub view_same :
      (s t : Dynamap World) (j : ℕ)
      → entry t.ctx j ≡ entry s.ctx j
      → (entry s.ctx j ≢ no_slot
          → page_at k d t.world (entry s.ctx j) ≡ page_at k d s.world (entry s.ctx j))
      → view t j ≡ view s j
  unfolding view
  view_same s t j e h = elim (Bool-cases (entry s.ctx j == no_slot)) [
    | inl z ↦ ground arith
    | inr z ↦ ground (arith, h (==→ne (entry s.ctx j) no_slot z))
  ]

  pub view_mapped :
      (s : Dynamap World) (j : ℕ)
      → entry s.ctx j ≢ no_slot
      → view s j ≡ page_at k d s.world (entry s.ctx j)
  unfolding view
  view_mapped s j m = ground arith

  pub view_unmapped : (s : Dynamap World) (j : ℕ) → entry s.ctx j ≡ no_slot → view s j ≡ k.zero_page
  unfolding view
  view_unmapped s j m = ground arith
