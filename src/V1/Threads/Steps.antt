-- ===== src/V1/Threads/Steps.antt =====
-- One step of a write of src/driver/src/dynamap.c among others.
use dynaswap.Base.{
  ℕ, ◌/◌, ◌%◌, ◌^◌, ◌<◌, ◌≡◌, ◌≢◌, refl, sym, ap, subst, ◌∙◌, Bool, true, false, not, ◌==◌, arith,
  pos, leb, if_cases, ==→eq, ==→ne, if◌then◌else◌,
}
use dynaswap.V2.Kernel.{Kernel, Documented}
use dynaswap.V2.Storage.{offset_of}
use dynaswap.V2.Storage.Pages.{page_at}
use dynaswap.V1.Dynamap.{
  DynamapCtx, Dynamap, no_slot, take_slot, find_slot, disk_write, dynaswap_should_extend,
}
use dynaswap.V1.Dynamap.Valid.{entry, IsValid, take_slot-IsValid, put_entry-other, put_entry-same}
use dynaswap.V1.Dynamap.View.{view, entry-lt, view_same, view_mapped}
use dynaswap.V1.Dynamap.Write.{page-kept, find_slot-clear}
use dynaswap.V1.Threads.{
  is_writing, WriteStage, asking, looking, claiming, writing, ended, look_up, claim, next_stage,
}

-- A stage before a transfer holds the slot of its page.
abbrev pub HoldsSlot : DynamapCtx → ℕ → WriteStage → Type 0
HoldsSlot c i asking = Unit
HoldsSlot c i looking = Unit
HoldsSlot c i claiming = Unit
HoldsSlot c i (writing p_slot) = (entry c i ≡ p_slot) × (p_slot ≢ no_slot)
HoldsSlot c i (ended status) = Unit

module _ {World Page : Type 0} (k : Kernel World Page) (d : Documented k) where
  -- The file system stores whole pages.
  pub record WritesWhole : Type 0 where
    pub whole : (page : Page) (o : ℕ) (w : World) → (k.kernel_write page o w).0 ≡ pos 4096

  -- What a step of the page `i` does: mapped pages keep their slots, no other page reads otherwise,
  -- and the page reads as before unless its slot is about to be written or was written.
  pub record Stepped (i : ℕ) (page : Page) (before : WriteStage) (s : Dynamap World)
      (r : WriteStage × Dynamap World) : Type 0 where
    pub valid : IsValid (r.1).ctx
    pub dirs : (dir : ℕ) → (r.1).ctx.has_dir dir ≡ s.ctx.has_dir dir
    pub keeps : (j : ℕ) → entry s.ctx j ≢ no_slot → entry (r.1).ctx j ≡ entry s.ctx j
    pub holds : HoldsSlot (r.1).ctx i r.0
    pub others : (j : ℕ) → j ≢ i → view k d r.1 j ≡ view k d s j
    pub own :
        is_writing r.0 ≡ false → view k d r.1 i ≡ (if is_writing before then page else view k d s i)

  -- A step that changes neither the table nor the file.
  unchanged :
      (i : ℕ) (page : Page) (before after : WriteStage) (s : Dynamap World)
      → IsValid s.ctx
      → is_writing before ≡ false
      → HoldsSlot s.ctx i after
      → Stepped i page before s (after, s)
  unchanged i page before after s v n h = record {
    valid = v;
    dirs = λ dir. refl;
    keeps = λ j m. refl;
    holds = h;
    others = λ j ne. refl;
    own = λ z. ground arith;
  }

  taken-Stepped :
      (i p : ℕ) (page : Page) (s : Dynamap World)
      → IsValid s.ctx
      → entry s.ctx i ≡ no_slot
      → s.ctx.has_dir (i / 512) ≡ true
      → p < s.ctx.total_slots
      → s.ctx.slot_bitmap p ≡ false
      → Stepped i page claiming s
          (writing p, record s { ctx = take_slot (i / 512) (i % 512) p s.ctx })
  unfolding take_slot
  taken-Stepped i p page s v e hd lt free =
      let t = s.ctx.virt_to_phys_map in
      let u = record s { ctx = take_slot (i / 512) (i % 512) p s.ctx } in
      record {
        valid = take_slot-IsValid i p s.ctx v e hd lt free;
        dirs = λ dir. refl;
        keeps = λ j m. put_entry-other i j p t (λ z. m (ap (entry s.ctx) (sym z) ∙ e));
        holds = (put_entry-same i p t, λ z. omega (arith, v.fits, v.small));
        others =
            λ j ne. view_same k d s u j (put_entry-other i j p t (λ z. ne (sym z))) (λ _. refl);
        own = λ z. ground arith;
      }

  claim-Stepped :
      (i : ℕ) (page : Page) (s : Dynamap World)
      → IsValid s.ctx
      → s.ctx.has_dir (i / 512) ≡ true
      → Stepped i page claiming s (claim k i s)
  unfolding claim
  claim-Stepped i page s v hd =
      let free = find_slot k s.ctx in
      if_cases (Stepped i page claiming s) (not (entry s.ctx i == no_slot))
        (λ m.
          unchanged i page claiming (writing (entry s.ctx i)) s v refl
            (refl, ==→ne (entry s.ctx i) no_slot (ground arith)))
        (λ u.
          if_cases (Stepped i page claiming s) (leb s.ctx.total_slots free)
            (λ full. unchanged i page claiming (ended 3) s v refl tt)
            (λ some.
              let lt : free < s.ctx.total_slots = ground arith in
              taken-Stepped i free page s v (==→eq (entry s.ctx i) no_slot (ground arith)) hd lt
                (find_slot-clear k d s.ctx lt)))

  -- The transfer to the slot of the page.
  transfer-Stepped :
      (i p : ℕ) (page : Page) (s : Dynamap World)
      → WritesWhole
      → IsValid s.ctx
      → HoldsSlot s.ctx i (writing p)
      → Stepped i page
          (writing p)
          s
          (ended 0, record s { world = (k.kernel_write page (offset_of p) s.world).1 })
  transfer-Stepped i p page s ww v (e, ne) =
      let u = record s { world = (k.kernel_write page (offset_of p) s.world).1 } in
      let m : entry s.ctx i ≢ no_slot = λ z. ne (sym e ∙ z) in
      record {
        valid = v;
        dirs = λ dir. refl;
        keeps = λ j mj. refl;
        holds = tt;
        others = λ j nj. view_same k d s u j refl (λ mj.
            page-kept k d p (entry s.ctx j) page s.world
              (subst (λ q. q < 2 ^ 52) e (entry-lt k d s.ctx i v m)) (entry-lt k d s.ctx j v mj)
              (λ z. nj (sym (v.one_to_one i j m (e ∙ z)))));
        own = λ z.
            view_mapped k d u i m
            ∙ ap (page_at k d u.world) e
            ∙ d.write_content s.world page (offset_of p) (ww.whole page (offset_of p) s.world);
      }

  asking-Stepped :
      (i : ℕ) (page : Page) (s : Dynamap World) (b : Bool)
      → IsValid s.ctx
      → Stepped i page asking s (looking, if b then record s { extend_queued = true } else s)
  unfolding view
  asking-Stepped i page s true v = record {
    valid = v;
    dirs = λ dir. refl;
    keeps = λ j m. refl;
    holds = tt;
    others = λ j ne. refl;
    own = λ z. refl;
  }
  asking-Stepped i page s false v = unchanged i page asking looking s v refl tt

  pub next_stage-Stepped :
      (trigger : ℕ) (stage : WriteStage) (i : ℕ) (page : Page) (s : Dynamap World)
      → WritesWhole
      → IsValid s.ctx
      → s.ctx.has_dir (i / 512) ≡ true
      → HoldsSlot s.ctx i stage
      → Stepped i page stage s (next_stage k trigger stage i page s)
  unfolding next_stage look_up disk_write
  next_stage-Stepped trigger asking i page s ww v hd h =
      asking-Stepped i page s (dynaswap_should_extend trigger s.ctx) v
  next_stage-Stepped trigger looking i page s ww v hd h =
      if_cases (λ stage. Stepped i page looking s (stage, s)) (not (entry s.ctx i == no_slot))
        (λ m.
          unchanged i page looking (writing (entry s.ctx i)) s v refl
            (refl, ==→ne (entry s.ctx i) no_slot (ground arith)))
        (λ _. unchanged i page looking claiming s v refl tt)
  next_stage-Stepped trigger claiming i page s ww v hd h = claim-Stepped i page s v hd
  next_stage-Stepped trigger (writing p) i page s ww v hd h = transfer-Stepped i p page s ww v h
  next_stage-Stepped trigger (ended status) i page s ww v hd h =
      unchanged i page (ended status) (ended status) s v refl tt
