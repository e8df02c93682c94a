-- ===== src/V1/Driver.antt =====
-- The requests of src/driver/src/dynaswap_drv.c. `punch_hole` is as in V1/Dynamap, `trigger` the
-- module argument inflate_threshold.
pub mod Kept
pub mod Queue
pub mod Served
pub mod History
pub mod Traced
use dynaswap.Base.{ℕ, ℤ, Bool, true, false, List, [], ◌∷◌, if◌then◌else◌, ltb}
use dynaswap.V2.Kernel.{Kernel}
use dynaswap.V2.Device.{
  ReqOp, req_op_read, req_op_write, req_op_flush, req_op_discard, req_op_other,
}
use dynaswap.V1.Dynamap.{Dynamap, dynaswap_read, dynaswap_write, dynaswap_discard}

-- A segment as `rq_for_each_segment` gives it, of one page.
pub record Segment (Page : Type 0) : Type 0 where
  pub segment_sector : ℕ
  pub segment_page : Page

-- `struct request`
pub record DriverRequest (Page : Type 0) : Type 0 where
  pub operation : ReqOp
  pub start : ℕ
  pub nr_sectors : ℕ
  pub segments : List (Segment Page)

module _ {World Page : Type 0} (k : Kernel World Page) (punch_hole : ℕ → World → ℤ × World)
    (trigger : ℕ) where
  -- One round of the loop: the status, which an unknown operation leaves, the segment, which a read
  -- fills, and the map.
  unfoldable pub process_segment :
      ReqOp → Segment Page → ℕ → Dynamap World → ℕ × Segment Page × Dynamap World
  process_segment req_op_write b status s =
      let (result, t) = dynaswap_write k trigger b.segment_sector b.segment_page s in (result, b, t)
  process_segment req_op_read b status s =
      let (result, page) = dynaswap_read k b.segment_sector s in
      (result, record b { segment_page = page }, s)
  process_segment req_op_flush b status s = (status, b, s)
  process_segment req_op_discard b status s = (status, b, s)
  process_segment (req_op_other n) b status s = (status, b, s)

  unfoldable pub process_segments :
      ReqOp → List (Segment Page) → ℕ → Dynamap World → ℕ × List (Segment Page) × Dynamap World
  process_segments op [] status s = (status, [], s)
  process_segments op (b ∷ bs) status s =
      let (result, b', t) = process_segment op b status s in
      let rest = process_segments op bs result t in (rest.0, b' ∷ rest.1, rest.2)

  -- The function after its first test, `op` being the operation of the request.
  unfoldable pub process_operation :
      ReqOp → DriverRequest Page → Dynamap World → ℕ × List (Segment Page) × Dynamap World
  process_operation req_op_discard rq s =
      let (result, t) = dynaswap_discard punch_hole rq.start rq.nr_sectors s in
      if ltb 0 rq.nr_sectors then (result, rq.segments, t) else (0, rq.segments, s)
  process_operation op rq s = process_segments op rq.segments 0 s

  -- The status that the request is ended with.
  unfoldable pub dynaswap_process_work :
      DriverRequest Page → Dynamap World → ℕ × List (Segment Page) × Dynamap World
  dynaswap_process_work rq s = process_operation rq.operation rq s
