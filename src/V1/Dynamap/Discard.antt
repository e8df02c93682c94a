-- ===== src/V1/Dynamap/Discard.antt =====
-- What the discard of src/driver/src/dynamap.c clears.
use Prim.Native.Nat.{min}
use dynaswap.Base.{
  ℕ, zero, suc, ◌+◌, ◌-◌, ◌/◌, ◌%◌, ◌^◌, ◌≤◌, ◌<◌, ◌≡◌, ◌≢◌, refl, sym, ap, ap₂, ◌∙◌, not, ◌==◌,
  ◌⊎◌, inl, inr, ℤ, arith, Bool-cases, ==→eq, ==→ne, if_cases, ltb, subst,
}
use native.Mathlib.Decide.{dec_le}
use dynaswap.V2.Kernel.{Kernel, Documented}
use dynaswap.V2.Storage.{offset_of}
use dynaswap.V2.Storage.Pages.{offset_of_apart}
use dynaswap.V1.Dynamap.{
  Dynamap, no_slot, drop_slot, discard_page, discard_batch, discard_loop, dynaswap_discard,
}
use dynaswap.V1.Dynamap.Valid.{entry, IsValid, drop_slot-IsValid, put_entry-same, put_entry-other}
use dynaswap.V1.Dynamap.View.{view, entry-lt, view_same, view_unmapped}

module _ {World : Type 0} (punch_hole : ℕ → World → ℤ × World) where
  discard_batch-at :
      (m n i j : ℕ) (s : Dynamap World)
      → m ≡ n
      → i ≡ j
      → discard_batch punch_hole m i s ≡ discard_batch punch_hole n j s
  discard_batch-at m n i j s e f = ap₂ (λ x y. discard_batch punch_hole x y s) e f

  -- The inner loop goes on where it stopped.
  discard_batch-add :
      (a b i : ℕ) (s : Dynamap World)
      → discard_batch punch_hole (a + b) i s
        ≡ discard_batch punch_hole b (i + a) (discard_batch punch_hole a i s)
  unfolding discard_batch
  discard_batch-add zero b i s = discard_batch-at (0 + b) b i (i + 0) s (omega arith) (omega arith)
  discard_batch-add (suc a) b i s =
      let t = discard_page punch_hole i s in
      discard_batch-at (suc a + b) (suc (a + b)) i i s (omega arith) refl
      ∙ discard_batch-add a b (suc i) t
      ∙ discard_batch-at b b (suc i + a) (i + suc a) (discard_batch punch_hole a (suc i) t) refl
          (omega arith)

  -- The batches only serve the lock: the outer loop does what one inner loop over all pages does.
  pub discard_loop_lem :
      (n i end_index : ℕ) (s : Dynamap World)
      → end_index - i ≤ n
      → discard_loop punch_hole n i end_index s ≡ discard_batch punch_hole (end_index - i) i s
  unfolding discard_loop discard_batch
  discard_loop_lem zero i end_index s h =
      discard_batch-at 0 (end_index - i) i i s (omega arith) refl
  discard_loop_lem (suc n) i end_index s h =
      let be = min (i + 512) end_index in
      let part = discard_batch punch_hole (be - i) i s in
      if_cases (λ r. r ≡ discard_batch punch_hole (end_index - i) i s) (ltb i end_index)
        (λ lt.
          discard_loop_lem n be end_index part (ground arith)
          ∙ discard_batch-at (end_index - be) (end_index - be) be (i + (be - i)) part refl
              (ground arith)
          ∙ sym (discard_batch-add (be - i) (end_index - be) i s)
          ∙ discard_batch-at (be - i + (end_index - be)) (end_index - i) i i s (ground arith) refl)
        (λ ge. discard_batch-at 0 (end_index - i) i i s (ground arith) refl)

module _ {World Page : Type 0} (k : Kernel World Page) (d : Documented k)
    (punch_hole : ℕ → World → ℤ × World) where
  -- The documentation of FALLOC_FL_PUNCH_HOLE: the rest of the file is as before.
  pub record PunchesPage : Type 0 where
    pub punch_other :
        (w : World) (o j : ℕ)
        → (o + 4096 ≤ j) ⊎ (j + 4096 ≤ o)
        → d.content (punch_hole o w).1 j ≡ d.content w j

  -- Pages from `i` on, `n` of them, are cleared, and no other.
  pub record Cleared (i n : ℕ) (s t : Dynamap World) : Type 0 where
    pub valid : IsValid t.ctx
    pub inside : (j : ℕ) → i ≤ j → j < i + n → view k d t j ≡ k.zero_page
    pub outside : (j : ℕ) → (j < i) ⊎ (i + n ≤ j) → view k d t j ≡ view k d s j

  pub discard_page-Cleared :
      (i : ℕ) (s : Dynamap World)
      → PunchesPage
      → IsValid s.ctx
      → Cleared i 1 s (discard_page punch_hole i s)
  unfolding discard_page drop_slot
  discard_page-Cleared i s pd v =
      if_cases (Cleared i 1 s) (not (s.ctx.has_dir (i / 512)))
        (λ nodir. untouched (elim (Bool-cases (entry s.ctx i == no_slot)) [
          | inl e ↦ ==→eq (entry s.ctx i) no_slot e
          | inr e ↦ ground (arith, v.dirs i (==→ne (entry s.ctx i) no_slot e))
        ]))
        (λ _.
          if_cases (Cleared i 1 s) (entry s.ctx i == no_slot)
            (λ e. untouched (==→eq (entry s.ctx i) no_slot e))
            (λ e. dropped (==→ne (entry s.ctx i) no_slot e)))
    where
      only : (j : ℕ) → i ≤ j → j < i + 1 → j ≡ i
      only j l h = omega arith

      apart : (j : ℕ) → (j < i) ⊎ (i + 1 ≤ j) → i ≢ j
      apart j o = omega arith

      untouched : entry s.ctx i ≡ no_slot → Cleared i 1 s s
      untouched e = record {
        valid = v;
        inside = λ j l h. view_unmapped k d s j (ap (entry s.ctx) (only j l h) ∙ e);
        outside = λ j o. refl;
      }

      dropped :
          entry s.ctx i ≢ no_slot
          → Cleared i 1 s (record s {
            ctx = drop_slot (i / 512) (i % 512) (entry s.ctx i) s.ctx;
            world = (punch_hole (offset_of (entry s.ctx i)) s.world).1;
          })
      dropped m =
          let p = entry s.ctx i in
          let c = drop_slot (i / 512) (i % 512) p s.ctx in
          let t = record s { ctx = c; world = (punch_hole (offset_of p) s.world).1 } in
          let gone : entry c i ≡ no_slot = put_entry-same i no_slot s.ctx.virt_to_phys_map in
          record {
            valid = drop_slot-IsValid i p s.ctx v refl m;
            inside = λ j l h. view_unmapped k d t j (ap (entry c) (only j l h) ∙ gone);
            outside = λ j o.
                view_same k d s t j
                  (put_entry-other i j no_slot s.ctx.virt_to_phys_map (omega arith))
                  (λ mj. pd.punch_other s.world (offset_of p) (offset_of (entry s.ctx j)) (
                    offset_of_apart p (entry s.ctx j) (entry-lt k d s.ctx i v m)
                      (entry-lt k d s.ctx j v mj) (λ z. apart j o (v.one_to_one i j m z))));
          }

  -- The other entries and the directories stay.
  pub discard_page-table :
      (i : ℕ) (s : Dynamap World)
      → let t = discard_page punch_hole i s in
        ((dir : ℕ) → t.ctx.has_dir dir ≡ s.ctx.has_dir dir)
        × ((j : ℕ) → j ≢ i → entry t.ctx j ≡ entry s.ctx j)
  unfolding discard_page drop_slot
  discard_page-table i s =
      let kept : Dynamap World → Type 0 = λ t.
        ((dir : ℕ) → t.ctx.has_dir dir ≡ s.ctx.has_dir dir)
        × ((j : ℕ) → j ≢ i → entry t.ctx j ≡ entry s.ctx j) in
      if_cases kept (not (s.ctx.has_dir (i / 512))) (λ _. (λ dir. refl, λ j ne. refl))
        (λ _.
          if_cases kept (entry s.ctx i == no_slot) (λ _. (λ dir. refl, λ j ne. refl))
            (λ _. (
              λ dir. refl,
              λ j ne. put_entry-other i j no_slot s.ctx.virt_to_phys_map (λ z. ne (sym z)),
            )))

  discard_batch-Cleared :
      (n i : ℕ) (s : Dynamap World)
      → PunchesPage
      → IsValid s.ctx
      → Cleared i n s (discard_batch punch_hole n i s)
  unfolding discard_batch
  discard_batch-Cleared zero i s pd v = record {
    valid = v;
    inside = λ j l h. absurd (omega arith);
    outside = λ j o. refl;
  }
  discard_batch-Cleared (suc n) i s pd v =
      let one = discard_page-Cleared i s pd v in
      let more = discard_batch-Cleared n (suc i) (discard_page punch_hole i s) pd one.valid in
      record {
        valid = more.valid;
        inside = λ j l h. elim (dec_le (suc i) j) [
          | yes above ↦ more.inside j above (omega arith)
          | no here ↦ more.outside j (inl (omega arith)) ∙ one.inside j l (omega arith)
        ];
        outside = λ j o. more.outside j (omega arith) ∙ one.outside j (omega arith);
      }

  -- A discard whose end does not overflow clears the pages from that of its first sector on, up to
  -- and without that of the sector behind its last one; the table stays in order, every other page
  -- reads as before, and the status is BLK_STS_OK.
  pub dynaswap_discard-Cleared :
      (start n : ℕ) (s : Dynamap World)
      → PunchesPage
      → IsValid s.ctx
      → start + n < 2 ^ 64
      → let (status, t) = dynaswap_discard punch_hole start n s in
        (status ≡ 0) × Cleared (start / 8) ((start + n) / 8 - start / 8) s t
  unfolding dynaswap_discard
  dynaswap_discard-Cleared start n s pd v h =
      let end_index = (start + n) % 2 ^ 64 / 8 in
      let i = start / 8 in
      let e : (start + n) / 8 - i ≡ end_index - i = omega arith in
      (
        refl,
        subst (λ m. Cleared i m s (discard_loop punch_hole (end_index - i) i end_index s)) (sym e)
            (subst (Cleared i (end_index - i) s)
              (sym (discard_loop_lem punch_hole (end_index - i) i end_index s (omega arith)))
              (discard_batch-Cleared (end_index - i) i s pd v)),
      )
