-- ===== src/V1/Dynamap/Grow.antt =====
-- How the file of src/driver/src/dynamap.c grows.
use dynaswap.Base.{
  ℕ, ◌-◌, ◌≤◌, ◌≡◌, refl, sym, ◌∙◌, if◌then◌else◌, ◌⊎◌, inl, inr, arith, pos, nonzero, leb, ltb,
  if_cases, shr, count_grow, add_ulong, mul_ulong, zero_of_nonzero,
}
use dynaswap.V2.Kernel.{Kernel, Documented}
use dynaswap.V2.Storage.{offset_of}
use dynaswap.V2.Storage.Pages.{page_at}
use dynaswap.V1.Dynamap.{DynamapCtx, Dynamap, dynaswap_expand_file}
use dynaswap.V1.Dynamap.Valid.{entry, IsValid}
use dynaswap.V1.Dynamap.View.{view, view_same}

module _ {World Page : Type 0} (k : Kernel World Page) (d : Documented k) where
  -- What growing the file leaves behind.
  pub record Grown (s t : Dynamap World) : Type 0 where
    pub valid : IsValid t.ctx
    pub same : (j : ℕ) → view k d t j ≡ view k d s j
    pub total : s.ctx.total_slots ≤ t.ctx.total_slots
    pub granted :
        (t.ctx.total_slots ≡ s.ctx.total_slots)
        ⊎ ((k.vfs_fallocate
              (offset_of s.ctx.total_slots)
              (offset_of (t.ctx.total_slots - s.ctx.total_slots))
              s.world).0
            ≡ pos 0)

  with_total :
      (n : ℕ) (c : DynamapCtx)
      → IsValid c
      → c.total_slots ≤ n
      → n ≤ c.slot_max_count
      → IsValid (record c { total_slots = n })
  with_total n c v grow fits = record {
    one_to_one = v.one_to_one;
    marked = v.marked;
    dirs = v.dirs;
    owned = v.owned;
    below = λ p m. omega (arith, v.below p m);
    counted = v.counted ∙ sym (count_grow c.total_slots n c.slot_bitmap grow v.below);
    fits = fits;
    small = v.small;
  }

  -- Growing the file keeps the table in order and what the device holds. The total never falls, and
  -- it is raised only if the file system granted the pages of the new slots.
  pub dynaswap_expand_file_lem :
      (chunk : ℕ) (s : Dynamap World) → IsValid s.ctx → Grown s (dynaswap_expand_file k chunk s)
  unfolding dynaswap_expand_file
  dynaswap_expand_file_lem chunk s v =
      let old = s.ctx.total_slots in
      let sum = add_ulong old (shr (mul_ulong (mul_ulong chunk 1024) 1024) 12) in
      let new = if ltb s.ctx.slot_max_count sum then s.ctx.slot_max_count else sum in
      let fits : new ≤ s.ctx.slot_max_count = ground arith in
      let (ret, w) = k.vfs_fallocate (offset_of old) (offset_of (new - old)) s.world in
      let kept : (slot : ℕ) → page_at k d w slot ≡ page_at k d s.world slot = λ slot.
        d.fallocate_content s.world (offset_of old) (offset_of (new - old)) (offset_of slot) in
      if_cases (Grown s) (leb new old)
        (λ _. record { valid = v; same = λ j. refl; total = omega arith; granted = inl refl })
        (λ above.
          if_cases (Grown s) (nonzero ret)
            (λ _. record {
              valid = v;
              same =
                  λ j. view_same k d s (record s { world = w }) j refl (λ _. kept (entry s.ctx j));
              total = omega arith;
              granted = inl refl;
            })
            (λ zero. record {
              valid = with_total new s.ctx v (ground arith) fits;
              same = λ j.
                  view_same k d s (record s { ctx = record s.ctx { total_slots = new }; world = w })
                    j refl (λ _. kept (entry s.ctx j));
              total = ground arith;
              granted = inr (zero_of_nonzero ret zero);
            }))

  -- The table is not touched.
  pub dynaswap_expand_file-table :
      (chunk : ℕ) (s : Dynamap World)
      → let t = dynaswap_expand_file k chunk s in
        ((i : ℕ) → entry t.ctx i ≡ entry s.ctx i)
        × ((dir : ℕ) → t.ctx.has_dir dir ≡ s.ctx.has_dir dir)
  unfolding dynaswap_expand_file
  dynaswap_expand_file-table chunk s =
      let old = s.ctx.total_slots in
      let sum = add_ulong old (shr (mul_ulong (mul_ulong chunk 1024) 1024) 12) in
      let new = if ltb s.ctx.slot_max_count sum then s.ctx.slot_max_count else sum in
      let ret = (k.vfs_fallocate (offset_of old) (offset_of (new - old)) s.world).0 in
      let same : Dynamap World → Type 0 = λ t.
        ((i : ℕ) → entry t.ctx i ≡ entry s.ctx i)
        × ((dir : ℕ) → t.ctx.has_dir dir ≡ s.ctx.has_dir dir) in
      if_cases same (leb new old) (λ _. (λ i. refl, λ dir. refl))
        (λ _.
          if_cases same (nonzero ret) (λ _. (λ i. refl, λ dir. refl))
            (λ _. (λ i. refl, λ dir. refl)))
