-- ===== src/V1/Driver/History.antt =====
-- The disk that src/driver/src/dynaswap_drv.c is, as a relation: what a request leaves in the pages of
-- the device, and the status that it is ended with. A page is known by its index, sector / 8.
use dynaswap.Base.{
  ℕ, ◌+◌, ◌/◌, ◌^◌, ◌≤◌, ◌<◌, ◌≡◌, refl, ap, ◌≢◌, ◌⊎◌, inl, inr, true, List, [], ◌∷◌, ℤ, arith, All,
  not, ◌==◌, leb, ltb, if_cases,
}
use dynaswap.V2.Kernel.{Kernel, Documented}
use dynaswap.V2.Device.{
  ReqOp, req_op_read, req_op_write, req_op_flush, req_op_discard, req_op_other,
}
use dynaswap.V1.Dynamap.{
  Dynamap, no_slot, dynaswap_read, dynaswap_write, write_page, disk_write, find_slot,
  dynaswap_should_extend,
}
use dynaswap.V1.Dynamap.Valid.{entry}
use dynaswap.V1.Dynamap.View.{view, dynaswap_read-view}
use dynaswap.V1.Dynamap.Write.{dynaswap_write_stored, dynaswap_write-IsStatus}
use dynaswap.V1.Dynamap.Discard.{PunchesPage, dynaswap_discard-Cleared}
use dynaswap.V1.Driver.{
  Segment, DriverRequest, process_segment, process_segments, process_operation,
  dynaswap_process_work,
}
use dynaswap.V1.Driver.Kept.{IsReady, InRange, process_segment-IsReady}
use dynaswap.V1.Threads.Steps.{WritesWhole}

-- The pages of the device are the same.
abbrev pub SamePages : {Page : Type 0} → (ℕ → Page) → (ℕ → Page) → Type 0
SamePages f g = (j : ℕ) → g j ≡ f j

-- One segment of a write: its page is stored, with status 0, or no slot is free for it and nothing
-- changes, with BLK_STS_NOSPC. No other page changes.
abbrev pub TakesSegment : {Page : Type 0} → Segment Page → ℕ → (ℕ → Page) → (ℕ → Page) → Type 0
TakesSegment b status f g =
    ((j : ℕ) → j ≢ b.segment_sector / 8 → g j ≡ f j)
    × (((status ≡ 0) × (g (b.segment_sector / 8) ≡ b.segment_page))
        ⊎ ((status ≡ 3) × (g (b.segment_sector / 8) ≡ f (b.segment_sector / 8))))

-- All segments of a write, one after the other, with the status before and that of the last one.
abbrev pub TakesAll :
    {Page : Type 0} → List (Segment Page) → ℕ → ℕ → (ℕ → Page) → (ℕ → Page) → Type 0
TakesAll [] before status f g = (status ≡ before) × SamePages f g
TakesAll {Page} (b ∷ bs) before status f g =
    (r : ℕ) × (h : ℕ → Page) × TakesSegment b r f h × TakesAll bs r status h g

module _ {Page : Type 0} (zero_page : Page) where
  -- One segment of a read: the page of the device, or BLK_STS_IOERR and a page of zeros.
  abbrev pub GivesSegment : Segment Page → Segment Page → ℕ → (ℕ → Page) → Type 0
  GivesSegment b b' status f =
      (b'.segment_sector ≡ b.segment_sector)
      × (((status ≡ 0) × (b'.segment_page ≡ f (b.segment_sector / 8)))
          ⊎ ((status ≡ 10) × (b'.segment_page ≡ zero_page)))

  abbrev pub GivesAll : List (Segment Page) → List (Segment Page) → ℕ → ℕ → (ℕ → Page) → Type 0
  GivesAll [] [] before status f = status ≡ before
  GivesAll [] (b' ∷ bs') before status f = ⊥
  GivesAll (b ∷ bs) [] before status f = ⊥
  GivesAll (b ∷ bs) (b' ∷ bs') before status f =
      (r : ℕ) × GivesSegment b b' r f × GivesAll bs bs' r status f

  -- A discard zeroes the pages from that of its first sector up to that of the sector behind its last.
  abbrev pub Zeroes : ℕ → ℕ → (ℕ → Page) → (ℕ → Page) → Type 0
  Zeroes start n f g =
      ((j : ℕ) → start / 8 ≤ j → j < (start + n) / 8 → g j ≡ zero_page)
      × ((j : ℕ) → (j < start / 8) ⊎ ((start + n) / 8 ≤ j) → g j ≡ f j)

  -- A request, its segments afterwards, its status, and the pages before and after.
  abbrev pub Ends :
      ReqOp → DriverRequest Page → List (Segment Page) → ℕ → (ℕ → Page) → (ℕ → Page) → Type 0
  Ends req_op_write rq bs' status f g = TakesAll rq.segments 0 status f g
  Ends req_op_read rq bs' status f g = GivesAll rq.segments bs' 0 status f × SamePages f g
  Ends req_op_discard rq bs' status f g = (status ≡ 0) × Zeroes rq.start rq.nr_sectors f g
  Ends req_op_flush rq bs' status f g = (status ≡ 0) × SamePages f g
  Ends (req_op_other m) rq bs' status f g = (status ≡ 0) × SamePages f g

module _ {World Page : Type 0} (k : Kernel World Page) (d : Documented k)
    (punch_hole : ℕ → World → ℤ × World) (trigger n : ℕ) where
  -- A write that finds no slot leaves the table and the file.
  write_page_nospc :
      (i : ℕ) (page : Page) (s : Dynamap World)
      → (write_page k i page s).0 ≡ 3
      → SamePages (view k d s) (view k d (write_page k i page s).1)
  unfolding write_page disk_write
  write_page_nospc i page s =
      let P = λ (r : ℕ × Dynamap World). r.0 ≡ 3 → SamePages (view k d s) (view k d r.1) in
      if_cases P (not (entry s.ctx i == no_slot)) (λ _ z. absurd (omega arith))
        (λ _.
          if_cases P (leb s.ctx.total_slots (find_slot k s.ctx)) (λ _ z j. refl)
            (λ _ z. absurd (omega arith)))

  write_nospc :
      (b : Segment Page) (s : Dynamap World)
      → let (status, t) = dynaswap_write k trigger b.segment_sector b.segment_page s in
        status ≡ 3 → SamePages (view k d s) (view k d t)
  unfolding dynaswap_write view
  write_nospc b s =
      if_cases
        (λ t.
          (write_page k (b.segment_sector / 8) b.segment_page t).0 ≡ 3
          → SamePages (view k d s)
              (view k d (write_page k (b.segment_sector / 8) b.segment_page t).1))
        (dynaswap_should_extend trigger s.ctx)
        (λ _.
          write_page_nospc (b.segment_sector / 8) b.segment_page
            (record s { extend_queued = true }))
        (λ _. write_page_nospc (b.segment_sector / 8) b.segment_page s)

  write-TakesSegment :
      (b : Segment Page) (s : Dynamap World)
      → WritesWhole k d
      → IsReady n s
      → InRange k d punch_hole trigger n b
      → let (status, t) = dynaswap_write k trigger b.segment_sector b.segment_page s in
        TakesSegment b status (view k d s) (view k d t)
  write-TakesSegment b s ww h r =
      let wr =
        dynaswap_write_stored k d trigger b.segment_sector b.segment_page s h.valid (h.dirs _ r) in
      let (st, _) = dynaswap_write-IsStatus k d trigger b.segment_sector b.segment_page s h.valid in
      (
        wr.others,
        elim st [
          | inl ok ↦ elim (wr.stored ok) [
            | inl short ↦ absurd (short (ww.whole _ _ _))
            | inr stored ↦ inl (ok, stored)
          ]
          | inr full ↦ inr (full, write_nospc b s full (b.segment_sector / 8))
        ],
      )

  segments-TakesAll :
      (bs : List (Segment Page)) (before : ℕ) (s : Dynamap World)
      → WritesWhole k d
      → IsReady n s
      → All (InRange k d punch_hole trigger n) bs
      → let (status, _, t) = process_segments k punch_hole trigger req_op_write bs before s in
        TakesAll bs before status (view k d s) (view k d t)
  unfolding process_segments process_segment
  segments-TakesAll [] before s ww h rs = (refl, λ j. refl)
  segments-TakesAll (b ∷ bs) before s ww h (r, rs) =
      let (result, t) = dynaswap_write k trigger b.segment_sector b.segment_page s in
      (
        result,
        view k d t,
        write-TakesSegment b s ww h r,
        segments-TakesAll bs result t ww
            (process_segment-IsReady k d punch_hole trigger n req_op_write b before s r h) rs,
      )

  segments-GivesAll :
      (bs : List (Segment Page)) (before : ℕ) (s : Dynamap World)
      → let (status, bs', t) = process_segments k punch_hole trigger req_op_read bs before s in
        GivesAll k.zero_page bs bs' before status (view k d s) × (t ≡ s)
  unfolding process_segments process_segment
  segments-GivesAll [] before s = (refl, refl)
  segments-GivesAll (b ∷ bs) before s =
      let result = (dynaswap_read k b.segment_sector s).0 in
      let (rest, same) = segments-GivesAll bs result s in
      ((result, (refl, dynaswap_read-view k d s b.segment_sector), rest), same)

  -- Operations that no segment acts on.
  segments_idle :
      (op : ReqOp) (bs : List (Segment Page)) (before : ℕ) (s : Dynamap World)
      → ((b : Segment Page) (st : ℕ) → process_segment k punch_hole trigger op b st s ≡ (st, b, s))
      → let (status, _, t) = process_segments k punch_hole trigger op bs before s in
        (status ≡ before) × (t ≡ s)
  unfolding process_segments
  segments_idle op [] before s h = (refl, refl)
  segments_idle op (b ∷ bs) before s h = rw (h b before) (segments_idle op bs before s h)

  discard-Zeroes :
      (rq : DriverRequest Page) (s : Dynamap World)
      → PunchesPage k d punch_hole
      → IsReady n s
      → rq.start + rq.nr_sectors < 2 ^ 64
      → let (status, _, t) = process_operation k punch_hole trigger req_op_discard rq s in
        (status ≡ 0) × Zeroes k.zero_page rq.start rq.nr_sectors (view k d s) (view k d t)
  unfolding process_operation
  discard-Zeroes rq s pd h small =
      let (zero, cl) =
        dynaswap_discard-Cleared k d punch_hole rq.start rq.nr_sectors s pd h.valid small in
      let P = λ (r : ℕ × List (Segment Page) × Dynamap World).
        (r.0 ≡ 0) × Zeroes k.zero_page rq.start rq.nr_sectors (view k d s) (view k d r.2) in
      if_cases P (ltb 0 rq.nr_sectors)
        (λ _. (zero, (λ j l u. cl.inside j l (omega arith), λ j o. cl.outside j (omega arith))))
        (λ none.
          let empty : rq.nr_sectors ≡ 0 = ground arith in
          (refl, (λ j l u. absurd (omega (arith, empty)), λ j o. refl)))

  same_view : (s t : Dynamap World) → t ≡ s → SamePages (view k d s) (view k d t)
  same_view s t e j = ap (λ u. view k d u j) e

  -- Every request is ended as the relation says.
  pub dynaswap_process_work-Ends :
      (rq : DriverRequest Page) (s : Dynamap World)
      → WritesWhole k d
      → PunchesPage k d punch_hole
      → IsReady n s
      → All (InRange k d punch_hole trigger n) rq.segments
      → rq.start + rq.nr_sectors < 2 ^ 64
      → let (status, bs', t) = dynaswap_process_work k punch_hole trigger rq s in
        Ends k.zero_page rq.operation rq bs' status (view k d s) (view k d t)
  unfolding dynaswap_process_work process_operation process_segment
  dynaswap_process_work-Ends rq s ww pd h r small = by_operation rq.operation
    where
      by_operation :
          (op : ReqOp)
          → let (status, bs', t) = process_operation k punch_hole trigger op rq s in
            Ends k.zero_page op rq bs' status (view k d s) (view k d t)
      by_operation req_op_write = segments-TakesAll rq.segments 0 s ww h r
      by_operation req_op_read =
          let (gives, same) = segments-GivesAll rq.segments 0 s in (gives, same_view s _ same)
      by_operation req_op_discard = discard-Zeroes rq s pd h small
      by_operation req_op_flush =
          let (zero, same) = segments_idle req_op_flush rq.segments 0 s (λ b st. refl) in
          (zero, same_view s _ same)
      by_operation (req_op_other m) =
          let (zero, same) = segments_idle (req_op_other m) rq.segments 0 s (λ b st. refl) in
          (zero, same_view s _ same)
