-- ===== src/V1/Threads/Order.antt =====
-- Writes that overlap in src/driver/src/dynamap.c take effect in one order.
use dynaswap.Base.{
  ℕ, ◌/◌, ◌≡◌, ◌≢◌, refl, sym, ap, subst, ◌∙◌, false, List, [], ◌∷◌, ◌++◌, All, All-append,
  if◌then◌else◌, ◌==◌, arith, Bool-cases, if_cases, ℤ, inl, inr, ==→eq, ==→ne, All-split,
}
use dynaswap.V2.Kernel.{Kernel, Documented}
use dynaswap.V1.Dynamap.{Dynamap, dynaswap_extend, discard_page}
use dynaswap.V1.Dynamap.Valid.{IsValid}
use dynaswap.V1.Dynamap.View.{view}
use dynaswap.V1.Dynamap.Grow.{dynaswap_expand_file_lem, dynaswap_expand_file-table}
use dynaswap.V1.Dynamap.Discard.{PunchesPage, discard_page-Cleared, discard_page-table}
use dynaswap.V1.Threads.{
  WriteStage, asking, looking, claiming, writing, ended, Writer, Threads, in_flight, is_writing,
  next_stage, write_step, store_step, Overlap, start, arrived, stepped, extended, discarded,
}
use dynaswap.V1.Threads.Steps.{WritesWhole, Stepped, next_stage-Stepped}
use dynaswap.V1.Threads.Holds.{
  Holds, All-kept, All-idle, is_busy, none_in_flight, none_in_flight_all,
}

-- A page after the stores, the last one first.
abbrev pub stored {ℓ} : {Page : Type ℓ} → List (ℕ × Page) → ℕ → Page → Page
stored [] j old = old
stored ((i, page) ∷ l) j old = if i == j then page else stored l j old

module _ {World Page : Type 0} (k : Kernel World Page) (d : Documented k)
    (punch_hole : ℕ → World → ℤ × World) (trigger chunk : ℕ) where
  -- The table is in order, each write holds what it needs, and a page that no transfer is about to
  -- hit reads as the last of the pages stored there, or as it did at first.
  pub record IsOrdered (s : Threads World Page) (l : List (ℕ × Page)) (t : Threads World Page)
      : Type 0 where
    pub valid : IsValid t.map.ctx
    pub writers : All (Holds t.map.ctx) t.writers
    pub pages :
        (j : ℕ) → in_flight j t.writers ≡ false → view k d t.map j ≡ stored l j (view k d s.map j)

  -- The store of a step, in one page.
  store_step-own :
      (stage : WriteStage) (i : ℕ) (page : Page) (l : List (ℕ × Page)) (old : Page)
      → stored (store_step k trigger stage i page l) i old
        ≡ (if is_writing stage then page else stored l i old)
  store_step-own asking i page l old = refl
  store_step-own looking i page l old = refl
  store_step-own claiming i page l old = refl
  store_step-own (writing p) i page l old = ground arith
  store_step-own (ended status) i page l old = refl

  store_step-other :
      (stage : WriteStage) (i j : ℕ) (page : Page) (l : List (ℕ × Page)) (old : Page)
      → j ≢ i
      → stored (store_step k trigger stage i page l) j old ≡ stored l j old
  store_step-other asking i j page l old ne = refl
  store_step-other looking i j page l old ne = refl
  store_step-other claiming i j page l old ne = refl
  store_step-other (writing p) i j page l old ne = ground arith
  store_step-other (ended status) i j page l old ne = refl

  -- The page of the step, where no transfer to it is left.
  own_page :
      (s t : Threads World Page) (l : List (ℕ × Page)) (w : Writer Page) (u : Dynamap World)
      (stage : WriteStage)
      → Stepped k d w.page_index w.page w.stage t.map (stage, u)
      → (j : ℕ) → w.page_index ≡ j
      → is_writing stage ≡ false
      → (is_busy j w ≡ false → view k d t.map j ≡ stored l j (view k d s.map j))
      → view k d u j
        ≡ stored (store_step k trigger w.stage w.page_index w.page l) j (view k d s.map j)
  own_page s t l w u stage st j e idle reads =
      let old = view k d s.map j in
      let store = store_step k trigger w.stage w.page_index w.page l in
      let now : view k d u j ≡ (if is_writing w.stage then w.page else view k d t.map j) =
        subst (λ j. view k d u j ≡ (if is_writing w.stage then w.page else view k d t.map j)) e
          (st.own idle) in
      let then_stored : stored store j old
          ≡ (if is_writing w.stage then w.page else stored l j old) =
        subst
          (λ j.
            stored store j (view k d s.map j)
            ≡ (if is_writing w.stage then w.page else stored l j (view k d s.map j)))
          e (store_step-own w.stage w.page_index w.page l (view k d s.map w.page_index)) in
      elim (Bool-cases (is_writing w.stage)) [
        | inl busy ↦ ground (arith, now, then_stored)
        | inr free ↦ ground (arith, now, then_stored, reads (ground arith))
      ]

  step-IsOrdered :
      (s t : Threads World Page) (l : List (ℕ × Page)) (before after : List (Writer Page))
      (w : Writer Page)
      → WritesWhole k d
      → t.writers ≡ before ++ w ∷ after
      → IsOrdered s l t
      → IsOrdered s (store_step k trigger w.stage w.page_index w.page l) (record {
        map = (write_step k trigger w t.map).1;
        writers = before ++ (write_step k trigger w t.map).0 ∷ after;
      })
  unfolding write_step
  step-IsOrdered s t l before after w ww e o =
      let i = w.page_index in
      let (front, hw, back) =
        All-split (Holds t.map.ctx) before w after (subst (All (Holds t.map.ctx)) e o.writers) in
      let st = next_stage-Stepped k d trigger w.stage i w.page t.map ww o.valid hw.dir hw.slot in
      let (stage, u) = next_stage k trigger w.stage i w.page t.map in
      let w' : Writer Page = record w { stage = stage } in
      let l' = store_step k trigger w.stage i w.page l in
      let kept : (ws : List (Writer Page)) → All (Holds t.map.ctx) ws → All (Holds u.ctx) ws =
        λ ws. All-kept t.map.ctx u.ctx ws st.dirs st.keeps in
      record {
        valid = st.valid;
        writers =
            All-append (Holds u.ctx) before (w' ∷ after) (kept before front)
              (record { dir = st.dirs (i / 512) ∙ hw.dir; slot = st.holds }, kept after back);
        pages = λ j z.
            let (a, b, c) = none_in_flight j before w' after z in
            let old = view k d s.map j in
            let reads : is_busy j w ≡ false → view k d t.map j ≡ stored l j old = λ idle.
              o.pages j (ap (in_flight j) e ∙ none_in_flight_all j before w after a idle c) in
            elim (Bool-cases (i == j)) [
              | inl eq ↦ own_page s t l w u stage st j (==→eq i j eq) (ground arith) reads
              | inr ne ↦
                  let other : j ≢ i = λ q. ==→ne i j ne (sym q) in
                  st.others j other
                  ∙ reads (ground arith)
                  ∙ sym (store_step-other w.stage i j w.page l old other)
            ];
      }

  extend-IsOrdered :
      (s t : Threads World Page) (l : List (ℕ × Page))
      → IsOrdered s l t
      → IsOrdered s l (record t { map = dynaswap_extend k chunk t.map })
  unfolding dynaswap_extend view
  extend-IsOrdered s t l o =
      let m : Dynamap World = record t.map { extend_queued = false } in
      let g = dynaswap_expand_file_lem k d chunk m o.valid in
      let (table, dirs) = dynaswap_expand_file-table k d chunk m in
      record {
        valid = g.valid;
        writers = All-kept t.map.ctx _ t.writers dirs (λ j _. table j) o.writers;
        pages = λ j z. g.same j ∙ o.pages j z;
      }

  discard-IsOrdered :
      (s t : Threads World Page) (l : List (ℕ × Page)) (i : ℕ)
      → PunchesPage k d punch_hole
      → in_flight i t.writers ≡ false
      → IsOrdered s l t
      → IsOrdered s ((i, k.zero_page) ∷ l) (record t { map = discard_page punch_hole i t.map })
  discard-IsOrdered s t l i pd idle o =
      let c = discard_page-Cleared k d punch_hole i t.map pd o.valid in
      let (dirs, table) = discard_page-table k d punch_hole i t.map in
      record {
        valid = c.valid;
        writers = All-idle t.map.ctx _ i t.writers dirs table idle o.writers;
        pages = λ j z.
            if_cases (λ page. view k d (discard_page punch_hole i t.map) j ≡ page) (i == j)
              (λ e. c.inside j (omega (arith, ==→eq i j e)) (omega (arith, ==→eq i j e)))
              (λ ne. c.outside j (omega (arith, ==→ne i j ne)) ∙ o.pages j z);
      }

  -- With a file system that stores whole pages and punches no more than the page it is given, from a
  -- table in order whose writes hold what they need: after any interleaving of the steps of writes,
  -- of extensions, and of discards of pages that no transfer is about to hit, the table is in order,
  -- and each page that no transfer is about to hit reads as the last page stored there, as zeros if
  -- it was discarded since, or as it did at first.
  pub Overlap-IsOrdered :
      (s : Threads World Page) {l : List (ℕ × Page)} (t : Threads World Page)
      → WritesWhole k d
      → PunchesPage k d punch_hole
      → IsValid s.map.ctx
      → All (Holds s.map.ctx) s.writers
      → Overlap k trigger punch_hole chunk s l t
      → IsOrdered s l t
  Overlap-IsOrdered s t ww pd v h start = record { valid = v; writers = h; pages = λ j z. refl }
  Overlap-IsOrdered s t ww pd v h (arrived {t = u} i page r hd) =
      let o = Overlap-IsOrdered s u ww pd v h r in
      record {
        valid = o.valid;
        writers = (record { dir = hd; slot = tt }, o.writers);
        pages = λ j z. o.pages j (ground arith);
      }
  Overlap-IsOrdered s t ww pd v h (stepped {l = m} {t = u} before after w r e) =
      step-IsOrdered s u m before after w ww e (Overlap-IsOrdered s u ww pd v h r)
  Overlap-IsOrdered s t ww pd v h (extended {t = u} r q) =
      let o = Overlap-IsOrdered s u ww pd v h r in extend-IsOrdered s u _ o
  Overlap-IsOrdered s t ww pd v h (discarded {t = u} i r idle) =
      discard-IsOrdered s u _ i pd idle (Overlap-IsOrdered s u ww pd v h r)
