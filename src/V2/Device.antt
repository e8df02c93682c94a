-- ===== src/V2/Device.antt =====
-- src/driver/v2/device.c: requests, the work queue that runs them, and the block device's lifetime.
pub mod Requests
pub mod Queue
pub mod Events
pub mod Drain
pub mod History
pub mod Traced
pub mod Reference
pub mod Granted
pub mod Perfect
use dynaswap.Base.{
  ℕ, ◌+◌, ◌^◌, ℤ, pos, neg, Bool, true, false, not, List, [], ◌∷◌, ◌++◌, if◌then◌else◌, is_neg,
  nonzero, shr, shl_ulong,
}
use dynaswap.V2.Kernel.{Kernel}
use dynaswap.V2.Context.{
  Params, Driver, dynaswap_read, dynaswap_write, dynaswap_discard, dynaswap_extend,
}

-- `enum req_op`, by the operations that the code tells apart.
pub data ReqOp : Type 0 where
  req_op_read req_op_write req_op_flush req_op_discard : ReqOp
  req_op_other : ℕ → ReqOp

-- A segment of a request, as `rq_for_each_bvec` gives it: its sector, the page that `bv_page` points
-- to, and the pages behind that one, which a segment of several pages has.
pub record BioVec (Page : Type 0) : Type 0 where
  pub bi_sector : ℕ
  pub bv_page : Page
  pub bv_rest : List Page

-- `struct request`: `blk_rq_pos`, `blk_rq_sectors` and the segments.
pub record Request (Page : Type 0) : Type 0 where
  pub op : ReqOp
  pub rq_pos : ℕ
  pub rq_sectors : ℕ
  pub bvecs : List (BioVec Page)

abbrev pub blk_sts_ok : ℕ
blk_sts_ok = 0

abbrev pub blk_sts_resource : ℕ
blk_sts_resource = 9

module _ {World Page : Type 0} (k : Kernel World Page) (p : Params) where
  -- One segment: the result, the segment afterwards (a read fills its page), the driver.
  unfoldable pub perform_bvec : ReqOp → BioVec Page → Driver World → ℤ × BioVec Page × Driver World
  perform_bvec req_op_write b d =
      let (ret, d') = dynaswap_write k p b.bi_sector b.bv_page d in (ret, b, d')
  perform_bvec req_op_flush b d =
      let (ret, d') = dynaswap_write k p b.bi_sector b.bv_page d in (ret, b, d')
  perform_bvec req_op_read b d =
      let (ret, page) = dynaswap_read k p b.bi_sector d in (ret, record b { bv_page = page }, d)
  perform_bvec req_op_discard b d = (neg 5, b, d)
  perform_bvec (req_op_other n) b d = (neg 5, b, d)

  -- The loop, which stops at the first error.
  unfoldable pub perform_bvecs :
      ReqOp → List (BioVec Page) → Driver World → ℕ × List (BioVec Page) × Driver World
  perform_bvecs op [] d = (blk_sts_ok, [], d)
  perform_bvecs op (b ∷ bs) d =
      let (ret, b', d') = perform_bvec op b d in
      let rest = perform_bvecs op bs d' in
      if is_neg ret then (k.errno_to_blk_status ret, b' ∷ bs, d') else (rest.0, b' ∷ rest.1, rest.2)

  -- The status, the segments with what was read, and the driver.
  unfoldable pub perform_rq : Request Page → Driver World → ℕ × List (BioVec Page) × Driver World
  perform_rq rq d = elim rq.op [
    | req_op_discard ↦
        let (ret, d') = dynaswap_discard rq.rq_pos rq.rq_sectors d in
        (k.errno_to_blk_status ret, rq.bvecs, d')
    | op ↦ perform_bvecs op rq.bvecs d
  ]

-- The items of the work queue: a request, or `extend_work`.
pub data Work (Page : Type 0) : Type 0 where
  handle_rq : Request Page → Work Page
  extend_work : Work Page

-- A request that has been answered, with its status and its segments.
pub record Answer (Page : Type 0) : Type 0 where
  pub status : ℕ
  pub segments : List (BioVec Page)

-- The device: the driver's state, the ordered work queue, and the answers given, newest first.
pub record Device (World Page : Type 0) : Type 0 where
  pub driver : Driver World
  pub work : List (Work Page)
  pub answers : List (Answer Page)

-- `kmalloc` tells whether memory is found for the work item.
unfoldable pub queue_rq :
    {World Page : Type 0} → Bool → Request Page → Device World Page → ℕ × Device World Page
queue_rq kmalloc rq s =
    if kmalloc
    then (blk_sts_ok, record s { work = s.work ++ handle_rq rq ∷ [] })
    else (blk_sts_resource, s)

-- Work that a function has queued meanwhile stands at the end; `extend_work` that was waiting
-- before stands there already.
abbrev pub queue_extend : {Page : Type 0} → Bool → Bool → List (Work Page) → List (Work Page)
queue_extend false true ws = ws ++ extend_work ∷ []
queue_extend _ _ ws = ws

module _ {World Page : Type 0} (k : Kernel World Page) (p : Params) where
  -- The queue takes its first item and runs it to the end.
  unfoldable pub run_work : Work Page → List (Work Page) → Device World Page → Device World Page
  run_work (handle_rq rq) ws s =
      let (status, segments, d) = perform_rq k p rq s.driver in
      record {
        driver = d;
        work = queue_extend s.driver.extend_queued d.extend_queued ws;
        answers = record { status = status; segments = segments } ∷ s.answers;
      }
  run_work extend_work ws s = record s {
    driver = dynaswap_extend k p (record s.driver { extend_queued = false });
    work = ws;
  }

  unfoldable pub run_one : List (Work Page) → Device World Page → Device World Page
  run_one [] s = s
  run_one (item ∷ ws) s = run_work item ws s
