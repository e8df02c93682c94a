-- ===== src/V2/Device/Queue.antt =====
-- The work queue of src/driver/v2/device.c over any sequence of arrivals and runs.
use dynaswap.Base.{
  ℕ, suc, ◌+◌, ◌≡◌, refl, inl, inr, Bool, true, false, List, [], ◌∷◌, ◌++◌, arith, Bool-cases,
  length,
}
use dynaswap.V2.Kernel.{Kernel}
use dynaswap.V2.Slot.{clear_slot_sector_range}
use dynaswap.V2.Context.{
  Params, Driver, dynaswap_write, dynaswap_discard, dynaswap_extend, make_room, write_sector,
}
use dynaswap.V2.Device.{
  ReqOp, req_op_read, req_op_write, req_op_flush, req_op_discard, req_op_other, BioVec, Request,
  perform_bvec, perform_bvecs, perform_rq, Work, handle_rq, extend_work, Device, queue_extend,
  run_work,
}

-- How many requests and how many extensions wait.
abbrev pub requests : {Page : Type 0} → List (Work Page) → ℕ
requests [] = 0
requests (handle_rq rq ∷ ws) = suc (requests ws)
requests (extend_work ∷ ws) = requests ws

abbrev pub extensions : {Page : Type 0} → List (Work Page) → ℕ
extensions [] = 0
extensions (handle_rq rq ∷ ws) = extensions ws
extensions (extend_work ∷ ws) = suc (extensions ws)

module _ {Page : Type 0} where
  pub requests-append : (ws us : List (Work Page)) → requests (ws ++ us) ≡ requests ws + requests us
  requests-append [] us = omega arith
  requests-append (handle_rq rq ∷ ws) us = omega (arith, requests-append ws us)
  requests-append (extend_work ∷ ws) us = requests-append ws us

  pub extensions-append :
      (ws us : List (Work Page)) → extensions (ws ++ us) ≡ extensions ws + extensions us
  extensions-append [] us = omega arith
  extensions-append (handle_rq rq ∷ ws) us = extensions-append ws us
  extensions-append (extend_work ∷ ws) us = omega (arith, extensions-append ws us)

abbrev pub flag : Bool → ℕ
flag true = 1
flag false = 0

module _ {World Page : Type 0} (k : Kernel World Page) (p : Params) where
  -- A function of the queue never takes `extend_work` out.
  make_room-queued :
      (v : Driver World) → v.extend_queued ≡ true → (make_room k p v).extend_queued ≡ true
  unfolding make_room dynaswap_extend
  make_room-queued v h = ground arith

  dynaswap_write-queued :
      (s : ℕ) (page : Page) (v : Driver World)
      → v.extend_queued ≡ true
      → (dynaswap_write k p s page v).1.extend_queued ≡ true
  unfolding dynaswap_write write_sector
  dynaswap_write-queued s page v h = ground (arith, make_room-queued v h)

  perform_bvec-queued :
      (op : ReqOp) (b : BioVec Page) (v : Driver World)
      → v.extend_queued ≡ true
      → (perform_bvec k p op b v).2.extend_queued ≡ true
  unfolding perform_bvec
  perform_bvec-queued req_op_write b v h = dynaswap_write-queued b.bi_sector b.bv_page v h
  perform_bvec-queued req_op_flush b v h = dynaswap_write-queued b.bi_sector b.bv_page v h
  perform_bvec-queued req_op_read b v h = h
  perform_bvec-queued req_op_discard b v h = h
  perform_bvec-queued (req_op_other n) b v h = h

  perform_bvecs-queued :
      (op : ReqOp) (bs : List (BioVec Page)) (v : Driver World)
      → v.extend_queued ≡ true
      → (perform_bvecs k p op bs v).2.extend_queued ≡ true
  unfolding perform_bvecs
  perform_bvecs-queued op [] v h = h
  perform_bvecs-queued op (b ∷ bs) v h =
      ground (
        arith,
        perform_bvec-queued op b v h,
        perform_bvecs-queued op bs (perform_bvec k p op b v).2,
      )

  perform_rq-queued :
      (rq : Request Page) (v : Driver World)
      → v.extend_queued ≡ true
      → (perform_rq k p rq v).2.extend_queued ≡ true
  unfolding perform_rq dynaswap_discard clear_slot_sector_range
  perform_rq-queued rq v h = by_op rq.op refl
    where
      by_op : (op : ReqOp) → rq.op ≡ op → (perform_rq k p rq v).2.extend_queued ≡ true
      by_op req_op_write e = rw e (perform_bvecs-queued req_op_write rq.bvecs v h)
      by_op req_op_flush e = rw e (perform_bvecs-queued req_op_flush rq.bvecs v h)
      by_op req_op_read e = rw e (perform_bvecs-queued req_op_read rq.bvecs v h)
      by_op req_op_discard e = rw e h
      by_op (req_op_other n) e = rw e (perform_bvecs-queued (req_op_other n) rq.bvecs v h)

  -- `extend_work` waits at most once, exactly while the driver's flag is set.
  abbrev pub IsQueued : Device World Page → Type 0
  IsQueued s = extensions s.work ≡ flag s.driver.extend_queued

  pub queue_extend-extensions :
      (old new : Bool) (ws : List (Work Page))
      → (old ≡ true → new ≡ true)
      → extensions ws ≡ flag old
      → extensions (queue_extend old new ws) ≡ flag new
  queue_extend-extensions true true ws m h = h
  queue_extend-extensions true false ws m h = ground (arith, m refl)
  queue_extend-extensions false true ws m h = omega (arith, extensions-append ws (extend_work ∷ []))
  queue_extend-extensions false false ws m h = h

  pub queue_extend-requests :
      (old new : Bool) (ws : List (Work Page)) → requests (queue_extend old new ws) ≡ requests ws
  queue_extend-requests true new ws = refl
  queue_extend-requests false true ws = omega (arith, requests-append ws (extend_work ∷ []))
  queue_extend-requests false false ws = refl

  pub run_work-IsQueued :
      (item : Work Page) (ws : List (Work Page)) (s : Device World Page)
      → extensions (item ∷ ws) ≡ flag s.driver.extend_queued
      → IsQueued (run_work k p item ws s)
  unfolding run_work dynaswap_extend
  run_work-IsQueued (handle_rq rq) ws s h =
      queue_extend-extensions s.driver.extend_queued _ ws (perform_rq-queued rq s.driver) h
  run_work-IsQueued extend_work ws s h = elim (Bool-cases s.driver.extend_queued) [
    | inl e ↦ let f : flag s.driver.extend_queued ≡ 1 = rw e refl in omega (arith, f, h)
    | inr e ↦ let f : flag s.driver.extend_queued ≡ 0 = rw e refl in absurd (omega (arith, f, h))
  ]

  -- One run answers the request at the head of the queue, or extends: the answers and the requests
  -- that wait stay the same in number together.
  pub run_work-answers :
      (item : Work Page) (ws : List (Work Page)) (s : Device World Page)
      → let t = run_work k p item ws s in
        length t.answers + requests t.work ≡ length s.answers + requests (item ∷ ws)
  unfolding run_work
  run_work-answers (handle_rq rq) ws s = omega (
    arith,
    queue_extend-requests s.driver.extend_queued (perform_rq k p rq s.driver).2.extend_queued ws,
  )
  run_work-answers extend_work ws s = refl
