-- ===== src/V1/Driver/Kept.antt =====
-- What every request of src/driver/src/dynaswap_drv.c keeps.
use dynaswap.Base.{
  ℕ, zero, suc, ◌+◌, ◌-◌, ◌/◌, ◌%◌, ◌^◌, ◌<◌, ◌≡◌, sym, subst, true, not, List, [], ◌∷◌, ℤ, All,
  arith, if_cases, leb, ltb, ◌==◌,
}
use dynaswap.V2.Kernel.{Kernel, Documented}
use dynaswap.V2.Device.{
  ReqOp, req_op_read, req_op_write, req_op_flush, req_op_discard, req_op_other,
}
use dynaswap.V1.Dynamap.{
  Dynamap, no_slot, dynaswap_write, write_page, disk_write, take_slot, find_slot,
  dynaswap_should_extend, drop_slot, discard_page, discard_batch, dynaswap_discard,
}
use dynaswap.V1.Dynamap.Valid.{entry, IsValid}
use dynaswap.V1.Dynamap.Write.{dynaswap_write_stored}
use dynaswap.V1.Dynamap.Discard.{PunchesPage, dynaswap_discard-Cleared, discard_loop_lem}
use dynaswap.V1.Driver.{
  Segment, DriverRequest, process_segment, process_segments, process_operation,
  dynaswap_process_work,
}

-- The directories below `n` are set.
abbrev pub HasDirs : {World : Type 0} → ℕ → Dynamap World → Type 0
HasDirs n s = (dir : ℕ) → dir < n → s.ctx.has_dir dir ≡ true

-- The table is in order and has its directories.
pub record IsReady {World : Type 0} (n : ℕ) (s : Dynamap World) : Type 0 where
  pub valid : IsValid s.ctx
  pub dirs : HasDirs n s

write_page-HasDirs :
    {World Page : Type 0} (k : Kernel World Page) (n i : ℕ) (page : Page) (s : Dynamap World)
    → HasDirs n s
    → HasDirs n (write_page k i page s).1
unfolding write_page disk_write take_slot
write_page-HasDirs k n i page s h =
    if_cases (λ (r : ℕ × Dynamap _). HasDirs n r.1) (not (entry s.ctx i == no_slot)) (λ _. h)
      (λ _.
        if_cases (λ (r : ℕ × Dynamap _). HasDirs n r.1) (leb s.ctx.total_slots (find_slot k s.ctx))
          (λ _. h) (λ _. h))

dynaswap_write-HasDirs :
    {World Page : Type 0} (k : Kernel World Page) (n trigger sector : ℕ) (page : Page)
    (s : Dynamap World)
    → HasDirs n s
    → HasDirs n (dynaswap_write k trigger sector page s).1
unfolding dynaswap_write
dynaswap_write-HasDirs k n trigger sector page s h =
    if_cases (λ t. HasDirs n (write_page k (sector / 8) page t).1)
      (dynaswap_should_extend trigger s.ctx)
      (λ _. write_page-HasDirs k n (sector / 8) page (record s { extend_queued = true }) h)
      (λ _. write_page-HasDirs k n (sector / 8) page s h)

discard_batch-HasDirs :
    {World : Type 0} (punch_hole : ℕ → World → ℤ × World) (m n i : ℕ) (s : Dynamap World)
    → HasDirs n s
    → HasDirs n (discard_batch punch_hole m i s)
unfolding discard_batch discard_page drop_slot
discard_batch-HasDirs punch_hole zero n i s h = h
discard_batch-HasDirs punch_hole (suc m) n i s h =
    discard_batch-HasDirs punch_hole m n (suc i) (discard_page punch_hole i s) (
      if_cases (HasDirs n) (not (s.ctx.has_dir (i / 512))) (λ _. h)
        (λ _. if_cases (HasDirs n) (entry s.ctx i == no_slot) (λ _. h) (λ _. h)))

dynaswap_discard-HasDirs :
    {World : Type 0} (punch_hole : ℕ → World → ℤ × World) (n start count : ℕ) (s : Dynamap World)
    → HasDirs n s
    → HasDirs n (dynaswap_discard punch_hole start count s).1
unfolding dynaswap_discard
dynaswap_discard-HasDirs punch_hole n start count s h =
    let end_index = (start + count) % 2 ^ 64 / 8 in
    subst (HasDirs n)
      (sym
        (discard_loop_lem punch_hole (end_index - start / 8) (start / 8) end_index s (omega arith)))
      (discard_batch-HasDirs punch_hole (end_index - start / 8) n (start / 8) s h)

module _ {World Page : Type 0} (k : Kernel World Page) (d : Documented k)
    (punch_hole : ℕ → World → ℤ × World) (trigger n : ℕ) where
  -- The segment lies in a page whose directory is below `n`.
  abbrev pub InRange : Segment Page → Type 0
  InRange b = b.segment_sector / 8 / 512 < n

  pub process_segment-IsReady :
      (op : ReqOp) (b : Segment Page) (status : ℕ) (s : Dynamap World)
      → InRange b
      → IsReady n s
      → IsReady n (process_segment k punch_hole trigger op b status s).2
  unfolding process_segment
  process_segment-IsReady req_op_write b status s r h = record {
    valid =
        (dynaswap_write_stored k d trigger b.segment_sector b.segment_page s h.valid
          (h.dirs _ r)).valid;
    dirs = dynaswap_write-HasDirs k n trigger b.segment_sector b.segment_page s h.dirs;
  }
  process_segment-IsReady req_op_read b status s r h = h
  process_segment-IsReady req_op_flush b status s r h = h
  process_segment-IsReady req_op_discard b status s r h = h
  process_segment-IsReady (req_op_other m) b status s r h = h

  process_segments-IsReady :
      (op : ReqOp) (bs : List (Segment Page)) (status : ℕ) (s : Dynamap World)
      → All InRange bs
      → IsReady n s
      → IsReady n (process_segments k punch_hole trigger op bs status s).2
  unfolding process_segments
  process_segments-IsReady op [] status s r h = h
  process_segments-IsReady op (b ∷ bs) status s (r, rs) h =
      let (result, b', t) = process_segment k punch_hole trigger op b status s in
      process_segments-IsReady op bs result t rs (process_segment-IsReady op b status s r h)

  -- Any request whose segments lie on the device keeps the table in order with its directories.
  pub dynaswap_process_work-IsReady :
      (rq : DriverRequest Page) (s : Dynamap World)
      → PunchesPage k d punch_hole
      → All InRange rq.segments
      → rq.start + rq.nr_sectors < 2 ^ 64
      → IsReady n s
      → IsReady n (dynaswap_process_work k punch_hole trigger rq s).2
  unfolding dynaswap_process_work process_operation
  dynaswap_process_work-IsReady rq s pd r small h = by_operation rq.operation
    where
      by_operation : (op : ReqOp) → IsReady n (process_operation k punch_hole trigger op rq s).2
      by_operation req_op_write = process_segments-IsReady req_op_write rq.segments 0 s r h
      by_operation req_op_read = process_segments-IsReady req_op_read rq.segments 0 s r h
      by_operation req_op_flush = process_segments-IsReady req_op_flush rq.segments 0 s r h
      by_operation (req_op_other m) = process_segments-IsReady (req_op_other m) rq.segments 0 s r h
      by_operation req_op_discard =
          if_cases (λ (q : ℕ × List (Segment Page) × Dynamap World). IsReady n q.2)
            (ltb 0 rq.nr_sectors)
            (λ _. record {
              valid =
                  (dynaswap_discard-Cleared k d punch_hole rq.start rq.nr_sectors s pd h.valid
                    small).1.valid;
              dirs = dynaswap_discard-HasDirs punch_hole n rq.start rq.nr_sectors s h.dirs;
            })
            (λ _. h)
