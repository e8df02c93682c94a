-- ===== src/V1/Dynamap/Write.antt =====
-- Reads and writes of src/driver/src/dynamap.c, and the growth of the file.
use dynaswap.Base.{
  ℕ, ◌/◌, ◌%◌, ◌^◌, ◌≤◌, ◌<◌, ◌≡◌, ◌≢◌, refl, sym, ap, ◌∙◌, true, false, not, ◌==◌, ◌⊎◌, ◌↔◌, inl,
  inr, arith, pos, is_nat, leb, Bool-cases, ==→eq, ==→ne, count_full, if_cases, count_full_iff,
}
use dynaswap.V2.Kernel.{Kernel, Documented}
use dynaswap.V2.Storage.{offset_of}
use dynaswap.V2.Storage.Pages.{page_at, offset_of_apart, is_nat→eq}
use dynaswap.V1.Dynamap.{
  DynamapCtx, Dynamap, no_slot, take_slot, find_slot, disk_write, write_page, dynaswap_write,
  dynaswap_should_extend,
}
use dynaswap.V1.Dynamap.Valid.{entry, IsValid, take_slot-IsValid, put_entry-same, put_entry-other}
use dynaswap.V1.Dynamap.View.{view, entry-lt, view_same, view_mapped}

module _ {World Page : Type 0} (k : Kernel World Page) (d : Documented k) where
  -- The search finds a clear bit below the total, and fails only if there is none.
  pub find_slot-clear :
      (c : DynamapCtx) → find_slot k c < c.total_slots → c.slot_bitmap (find_slot k c) ≡ false
  unfolding find_slot
  find_slot-clear c h = ground (
    arith,
    d.found_clear c.slot_bitmap c.total_slots c.slot_hint,
    d.found_clear c.slot_bitmap c.total_slots 0,
  )

  find_slot_full :
      (c : DynamapCtx) (i : ℕ)
      → c.total_slots ≤ find_slot k c
      → i < c.total_slots
      → c.slot_bitmap i ≡ true
  unfolding find_slot
  find_slot_full c i h l = ground (
    arith,
    d.missed_set c.slot_bitmap c.total_slots c.slot_hint i,
    d.missed_set c.slot_bitmap c.total_slots 0 i,
  )

  -- A write into one slot leaves the pages of the others.
  pub page-kept :
      (a b : ℕ) (page : Page) (w : World)
      → a < 2 ^ 52
      → b < 2 ^ 52
      → a ≢ b
      → page_at k d (k.kernel_write page (offset_of a) w).1 b ≡ page_at k d w b
  page-kept a b page w ha hb ne =
      d.write_other w page (offset_of a) (offset_of b) (offset_of_apart a b ha hb ne)

  -- What a write of a page of the device leaves behind.
  pub record Wrote (s : Dynamap World) (i : ℕ) (page : Page) (r : ℕ × Dynamap World) : Type 0 where
    pub valid : IsValid (r.1).ctx
    pub others : (j : ℕ) → j ≢ i → view k d r.1 j ≡ view k d s j
    pub stored :
        r.0 ≡ 0
        → ((k.kernel_write page (offset_of (entry (r.1).ctx i)) s.world).0 ≢ pos 4096)
          ⊎ (view k d r.1 i ≡ page)

  stored_or_short :
      (s t : Dynamap World) (i : ℕ) (page : Page)
      → entry t.ctx i ≢ no_slot
      → t.world ≡ (k.kernel_write page (offset_of (entry t.ctx i)) s.world).1
      → ((k.kernel_write page (offset_of (entry t.ctx i)) s.world).0 ≢ pos 4096)
        ⊎ (view k d t i ≡ page)
  stored_or_short s t i page m e =
      let slot = entry t.ctx i in
      let ret = (k.kernel_write page (offset_of slot) s.world).0 in
      elim (Bool-cases (is_nat ret 4096)) [
        | inl full ↦ inr (
            view_mapped k d t i m
            ∙ ap (λ w. page_at k d w slot) e
            ∙ d.write_content s.world page (offset_of slot) (is_nat→eq ret 4096 full))
        | inr short ↦ inl (λ z. ground arith)
      ]

  disk_write-Wrote :
      (s : Dynamap World) (i : ℕ) (page : Page)
      → IsValid s.ctx
      → entry s.ctx i ≢ no_slot
      → Wrote s i page (disk_write k (entry s.ctx i) page s)
  unfolding disk_write
  disk_write-Wrote s i page v m =
      let t = record s { world = (k.kernel_write page (offset_of (entry s.ctx i)) s.world).1 } in
      record {
        valid = v;
        others = λ j ne. view_same k d s t j refl (λ mj.
            page-kept (entry s.ctx i) (entry s.ctx j) page s.world (entry-lt k d s.ctx i v m)
              (entry-lt k d s.ctx j v mj) (λ z. ne (sym (v.one_to_one i j m z))));
        stored = λ _. stored_or_short s t i page m refl;
      }

  -- A write to a page that takes the slot `p`.
  taken-Wrote :
      (s : Dynamap World) (i p : ℕ) (page : Page)
      → IsValid s.ctx
      → entry s.ctx i ≡ no_slot
      → s.ctx.has_dir (i / 512) ≡ true
      → p < s.ctx.total_slots
      → s.ctx.slot_bitmap p ≡ false
      → Wrote s i page
          (disk_write k p page (record s { ctx = take_slot (i / 512) (i % 512) p s.ctx }))
  unfolding disk_write take_slot
  taken-Wrote s i p page v e hd lt free =
      let c = take_slot (i / 512) (i % 512) p s.ctx in
      let t = record s { ctx = c; world = (k.kernel_write page (offset_of p) s.world).1 } in
      let new : entry c i ≡ p = put_entry-same i p s.ctx.virt_to_phys_map in
      let small : p < 2 ^ 52 = omega (arith, lt, v.fits, v.small) in
      record {
        valid = take_slot-IsValid i p s.ctx v e hd lt free;
        others = λ j ne.
            view_same k d s t j (put_entry-other i j p s.ctx.virt_to_phys_map (λ z. ne (sym z)))
              (λ mj.
                page-kept p (entry s.ctx j) page s.world small (entry-lt k d s.ctx j v mj)
                  (λ z. ground (arith, v.marked j mj)));
        stored = λ _.
            stored_or_short s t i page (λ z. omega (arith, new, small, z))
              (ap (λ q. (k.kernel_write page (offset_of q) s.world).1) (sym new));
      }

  write_page-Wrote :
      (s : Dynamap World) (i : ℕ) (page : Page)
      → IsValid s.ctx
      → s.ctx.has_dir (i / 512) ≡ true
      → Wrote s i page (write_page k i page s)
  unfolding write_page
  write_page-Wrote s i page v hd =
      if_cases (Wrote s i page) (not (entry s.ctx i == no_slot))
        (λ m. disk_write-Wrote s i page v (==→ne (entry s.ctx i) no_slot (ground arith)))
        (λ u.
          if_cases (Wrote s i page) (leb s.ctx.total_slots (find_slot k s.ctx))
            (λ full. record { valid = v; others = λ j ne. refl; stored = λ z. ground arith })
            (λ some.
              taken-Wrote s i (find_slot k s.ctx) page v
                (==→eq (entry s.ctx i) no_slot (ground arith)) hd (ground arith)
                (find_slot-clear s.ctx (ground arith))))

  -- A write to a sector whose directory entry is set: the table stays in order and every other page
  -- of the device reads as before. If the status is BLK_STS_OK, the page reads as what was written,
  -- or the kernel moved less than a page, which the status does not tell.
  pub dynaswap_write_stored :
      (trigger sector : ℕ) (page : Page) (s : Dynamap World)
      → IsValid s.ctx
      → s.ctx.has_dir (sector / 8 / 512) ≡ true
      → Wrote s (sector / 8) page (dynaswap_write k trigger sector page s)
  unfolding dynaswap_write view
  dynaswap_write_stored trigger sector page s v hd =
      if_cases (λ t. Wrote s (sector / 8) page (write_page k (sector / 8) page t))
        (dynaswap_should_extend trigger s.ctx)
        (λ _.
          let wr = write_page-Wrote (record s { extend_queued = true }) (sector / 8) page v hd in
          record { valid = wr.valid; others = wr.others; stored = wr.stored })
        (λ _. write_page-Wrote s (sector / 8) page v hd)

  -- BLK_STS_NOSPC exactly for a page with no slot while no slot is free, and BLK_STS_OK otherwise.
  abbrev pub IsStatus : DynamapCtx → ℕ → ℕ → Type 0
  IsStatus c i status =
      ((status ≡ 0) ⊎ (status ≡ 3))
      × ((status ≡ 3) ↔ ((entry c i ≡ no_slot) × (c.active_slots ≡ c.total_slots)))

  write_page-IsStatus :
      (s : Dynamap World) (i : ℕ) (page : Page)
      → IsValid s.ctx
      → IsStatus s.ctx i (write_page k i page s).0
  unfolding write_page disk_write
  write_page-IsStatus s i page v =
      let free = find_slot k s.ctx in
      if_cases (λ (r : ℕ × Dynamap World). IsStatus s.ctx i r.0) (not (entry s.ctx i == no_slot))
        (λ m. (
          inl refl,
          (λ z. ground arith, λ z. absurd (==→ne (entry s.ctx i) no_slot (ground arith) z.0)),
        ))
        (λ u.
          if_cases (λ (r : ℕ × Dynamap World). IsStatus s.ctx i r.0) (leb s.ctx.total_slots free)
            (λ full.
              let all =
                count_full s.ctx.total_slots s.ctx.slot_bitmap
                  (λ j l. find_slot_full s.ctx j (ground arith) l) in
              (
                inr refl,
                (λ _. (==→eq (entry s.ctx i) no_slot (ground arith), v.counted ∙ all), λ _. refl),
              ))
            (λ some. (
              inl refl,
              (
                λ z. ground arith,
                λ z.
                    let lt : free < s.ctx.total_slots = ground arith in
                    let set =
                      count_full_iff s.ctx.total_slots free s.ctx.slot_bitmap (sym v.counted ∙ z.1)
                        lt in
                    ground (arith, set, find_slot-clear s.ctx lt),
              ),
            )))

  -- The status of a write: BLK_STS_NOSPC exactly for a page with no slot while no slot is free, and
  -- BLK_STS_OK otherwise.
  pub dynaswap_write-IsStatus :
      (trigger sector : ℕ) (page : Page) (s : Dynamap World)
      → IsValid s.ctx
      → IsStatus s.ctx (sector / 8) (dynaswap_write k trigger sector page s).0
  unfolding dynaswap_write
  dynaswap_write-IsStatus trigger sector page s v =
      if_cases (λ t. IsStatus s.ctx (sector / 8) (write_page k (sector / 8) page t).0)
        (dynaswap_should_extend trigger s.ctx)
        (λ _. write_page-IsStatus (record s { extend_queued = true }) (sector / 8) page v)
        (λ _. write_page-IsStatus s (sector / 8) page v)
