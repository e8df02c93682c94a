-- ===== src/V2/Device/Events.antt =====
-- Every interleaving of requests that arrive and items that the work queue of
-- src/driver/v2/device.c runs.
use dynaswap.Base.{
  ℕ, suc, ◌+◌, ◌<◌, ◌^◌, ◌≡◌, refl, sym, ◌∙◌, ap, inl, inr, Bool, true, false, List, [], ◌∷◌, arith,
  if◌then◌else◌, length,
}
use dynaswap.V2.Kernel.{Kernel, Documented}
use dynaswap.V2.Bimap.{Entry}
use dynaswap.V2.Slot.{clear_slot_sector_range}
use dynaswap.V2.Slot.Valid.{IsValid}
use dynaswap.V2.Context.{Params, Driver, dynaswap_discard}
use dynaswap.V2.Context.Same.{dynaswap_extend-view}
use dynaswap.V2.Device.{
  ReqOp, req_op_read, req_op_write, req_op_flush, req_op_discard, req_op_other, BioVec, Request,
  perform_bvec, perform_bvecs, perform_rq, Work, handle_rq, extend_work, Device, queue_rq, run_work,
  run_one,
}
use dynaswap.V2.Device.Requests.{perform_rq-Stored, perform_rq-read}
use dynaswap.V2.Device.Queue.{
  requests, extensions, flag, IsQueued, run_work-IsQueued, run_work-answers, requests-append,
  extensions-append,
}

-- A request arrives, with the outcome of `kmalloc`, or the queue runs its first item.
pub data Event (Page : Type 0) : Type 0 where
  arrives : Bool → Request Page → Event Page
  runs : Event Page

-- The requests that `queue_rq` takes.
abbrev pub accepted : {Page : Type 0} → List (Event Page) → ℕ
accepted [] = 0
accepted (arrives true rq ∷ evs) = suc (accepted evs)
accepted (arrives false rq ∷ evs) = accepted evs
accepted (runs ∷ evs) = accepted evs

module _ {World Page : Type 0} (k : Kernel World Page) (p : Params) where
  unfoldable pub steps : List (Event Page) → Device World Page → Device World Page
  steps [] s = s
  steps (arrives kmalloc rq ∷ evs) s = steps evs (queue_rq kmalloc rq s).1
  steps (runs ∷ evs) s = steps evs (run_one k p s.work s)

  pub run_one-answers :
      (ws : List (Work Page)) (s : Device World Page)
      → s.work ≡ ws
      → let t = run_one k p ws s in
        length t.answers + requests t.work ≡ length s.answers + requests s.work
  unfolding run_one
  run_one-answers [] s e = refl
  run_one-answers (item ∷ ws) s e =
      run_work-answers k p item ws s ∙ ap (λ us. length s.answers + requests us) (sym e)

  queue_rq-answers :
      (kmalloc : Bool) (rq : Request Page) (s : Device World Page)
      → let t = (queue_rq kmalloc rq s).1 in
        length t.answers + requests t.work
        ≡ length s.answers + requests s.work + (if kmalloc then 1 else 0)
  unfolding queue_rq
  queue_rq-answers true rq s = omega (arith, requests-append s.work (handle_rq rq ∷ []))
  queue_rq-answers false rq s = omega arith

  -- No request that was accepted is lost and none is answered twice: the answers and the requests
  -- that still wait are together those there were and those accepted since.
  pub steps-answers :
      (evs : List (Event Page)) (s : Device World Page)
      → let t = steps evs s in
        length t.answers + requests t.work ≡ length s.answers + requests s.work + accepted evs
  unfolding steps
  steps-answers [] s = omega arith
  steps-answers (arrives true rq ∷ evs) s =
      omega (arith, steps-answers evs (queue_rq true rq s).1, queue_rq-answers true rq s)
  steps-answers (arrives false rq ∷ evs) s =
      omega (arith, steps-answers evs (queue_rq false rq s).1, queue_rq-answers false rq s)
  steps-answers (runs ∷ evs) s =
      omega (arith, steps-answers evs (run_one k p s.work s), run_one-answers s.work s refl)

module _ {World Page : Type 0} (k : Kernel World Page) (d : Documented k) (p : Params) where
  -- The driver is in order, and `extend_work` waits exactly while its flag is set.
  pub record InOrder (es : List Entry) (s : Device World Page) : Type 0 where
    pub valid : IsValid k.hash es s.driver.slots
    pub queued : IsQueued k p s

  refused-IsValid :
      (op : ReqOp) (bs : List (BioVec Page)) (v : Driver World)
      → ((b : BioVec Page) → (perform_bvec k p op b v).2 ≡ v)
      → (perform_bvecs k p op bs v).2 ≡ v
  unfolding perform_bvecs
  refused-IsValid op [] v h = refl
  refused-IsValid op (b ∷ bs) v h = ground (arith, h b, refused-IsValid op bs v h)

  -- Any request leaves the driver in order.
  perform_rq-IsValid :
      (rq : Request Page) (es : List Entry) (v : Driver World)
      → p.chunk_size_mb < 2 ^ 16
      → IsValid k.hash es v.slots
      → (es' : List Entry) × IsValid k.hash es' (perform_rq k p rq v).2.slots
  unfolding perform_rq perform_bvec dynaswap_discard clear_slot_sector_range
  perform_rq-IsValid rq es v small h = by_op rq.op refl
    where
      by_op :
          (op : ReqOp)
          → rq.op ≡ op
          → (es' : List Entry) × IsValid k.hash es' (perform_rq k p rq v).2.slots
      by_op req_op_write e =
          let (es', st) = perform_rq-Stored k d p rq es v (inl e) small h in (es', st.valid)
      by_op req_op_flush e =
          let (es', st) = perform_rq-Stored k d p rq es v (inr e) small h in (es', st.valid)
      by_op req_op_read e = (es, rw (perform_rq-read k d p rq es v e h).0 h)
      by_op req_op_discard e = (es, rw e h)
      by_op (req_op_other n) e =
          (es, rw (e, refused-IsValid (req_op_other n) rq.bvecs v (λ b. refl)) h)

  pub run_work-InOrder :
      (item : Work Page) (ws : List (Work Page)) (es : List Entry) (s : Device World Page)
      → p.chunk_size_mb < 2 ^ 16
      → IsValid k.hash es s.driver.slots
      → extensions (item ∷ ws) ≡ flag s.driver.extend_queued
      → (es' : List Entry) × InOrder es' (run_work k p item ws s)
  unfolding run_work
  run_work-InOrder (handle_rq rq) ws es s small h q =
      let (es', v) = perform_rq-IsValid rq es s.driver small h in
      (es', record { valid = v; queued = run_work-IsQueued k p (handle_rq rq) ws s q })
  run_work-InOrder extend_work ws es s small h q = (
    es,
    record {
      valid = (dynaswap_extend-view k d p es _ small h).0;
      queued = run_work-IsQueued k p extend_work ws s q;
    },
  )

  run_one-InOrder :
      (ws : List (Work Page)) (es : List Entry) (s : Device World Page)
      → p.chunk_size_mb < 2 ^ 16
      → s.work ≡ ws
      → InOrder es s
      → (es' : List Entry) × InOrder es' (run_one k p ws s)
  unfolding run_one
  run_one-InOrder [] es s small e h = (es, h)
  run_one-InOrder (item ∷ ws) es s small e h =
      run_work-InOrder item ws es s small h.valid (ap extensions (sym e) ∙ h.queued)

  pub queue_rq-InOrder :
      (kmalloc : Bool) (rq : Request Page) (es : List Entry) (s : Device World Page)
      → InOrder es s
      → InOrder es (queue_rq kmalloc rq s).1
  unfolding queue_rq
  queue_rq-InOrder true rq es s h = record {
    valid = h.valid;
    queued = omega (arith, extensions-append s.work (handle_rq rq ∷ []), h.queued);
  }
  queue_rq-InOrder false rq es s h = h

  -- The invariant holds after any sequence of arrivals and runs.
  pub steps-InOrder :
      (evs : List (Event Page)) (es : List Entry) (s : Device World Page)
      → p.chunk_size_mb < 2 ^ 16
      → InOrder es s
      → (es' : List Entry) × InOrder es' (steps k p evs s)
  unfolding steps
  steps-InOrder [] es s small h = (es, h)
  steps-InOrder (arrives kmalloc rq ∷ evs) es s small h =
      steps-InOrder evs es _ small (queue_rq-InOrder kmalloc rq es s h)
  steps-InOrder (runs ∷ evs) es s small h =
      let (es₁, one) = run_one-InOrder s.work es s small refl h in steps-InOrder evs es₁ _ small one
