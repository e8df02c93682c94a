-- ===== src/V2/Device/Perfect.antt =====
-- The device of src/driver/v2/device.c as the disk that never fails, over any sequence of events.
use dynaswap.Base.{
  ℕ, zero, suc, ◌<◌, ◌^◌, ◌≡◌, refl, sym, ◌∙◌, ap, subst, Bool, true, false, List, [], ◌∷◌, All,
  All-append, if◌then◌else◌,
}
use dynaswap.V2.Kernel.{Kernel, Documented}
use dynaswap.V2.Bimap.{Entry}
use dynaswap.V2.Context.{Params, Driver}
use dynaswap.V2.Context.Room.{HasRoom, dynaswap_extend-HasRoom}
use dynaswap.V2.Device.{
  Request, perform_rq, Work, handle_rq, extend_work, Device, Answer, queue_rq, run_work, run_one,
}
use dynaswap.V2.Device.Queue.{extensions}
use dynaswap.V2.Device.Events.{
  Event, arrives, runs, steps, InOrder, queue_rq-InOrder, run_work-InOrder,
}
use dynaswap.V2.Device.Drain.{drain}
use dynaswap.V2.Device.Traced.{waiting, taken, waiting-append, waiting-queue_extend}
use dynaswap.V2.Device.Granted.{GrantsAll, IsWithin, perform_rq-Granted}

abbrev pub IsFine : {Page : Type 0} → Answer Page → Type 0
IsFine a = a.status ≡ 0

abbrev pub AllWithin : {Page : Type 0} → ℕ → List (Request Page) → Type 0
AllWithin n rqs = All (λ rq. IsWithin n rq.op rq.bvecs) rqs

module _ {World Page : Type 0} (k : Kernel World Page) (d : Documented k) (p : Params) where
  -- Each request that waits and each of `rqs` keeps within a device of `n` pages, there is room for
  -- all of these, and no answer is an error.
  pub record Fits (n : ℕ) (rqs : List (Request Page)) (es : List Entry) (s : Device World Page)
      : Type 0 where
    pub order : InOrder k d p es s
    pub room : HasRoom k n s.driver.slots
    pub within : AllWithin n (waiting s.work)
    pub within_later : AllWithin n rqs
    pub fine : All IsFine s.answers

  arrival-Fits :
      (n : ℕ) (kmalloc : Bool) (rq : Request Page) (rqs : List (Request Page)) (es : List Entry)
      (s : Device World Page)
      → Fits n (if kmalloc then rq ∷ rqs else rqs) es s
      → Fits n rqs es (queue_rq kmalloc rq s).1
  unfolding queue_rq
  arrival-Fits n true rq rqs es s t = record {
    order = queue_rq-InOrder k d p true rq es s t.order;
    room = t.room;
    within = rw (waiting-append s.work (handle_rq rq ∷ [])) (
        All-append (λ r. IsWithin n r.op r.bvecs) (waiting s.work) (rq ∷ []) t.within
          (t.within_later.0, tt));
    within_later = t.within_later.1;
    fine = t.fine;
  }
  arrival-Fits n false rq rqs es s t = t

  module _ (gr : GrantsAll k) (some_mb : 0 < p.chunk_size_mb) (small : p.chunk_size_mb < 2 ^ 16)
      (n : ℕ) where
    run_work-Fits :
        (item : Work Page) (ws : List (Work Page)) (rqs : List (Request Page)) (es : List Entry)
        (s : Device World Page)
        → s.work ≡ item ∷ ws
        → Fits n rqs es s
        → (es' : List Entry) × Fits n rqs es' (run_work k p item ws s)
    unfolding run_work
    run_work-Fits (handle_rq rq) ws rqs es s e t =
        let (es', after) =
          run_work-InOrder k d p (handle_rq rq) ws es s small t.order.valid
            (ap extensions (sym e) ∙ t.order.queued) in
        let within : IsWithin n rq.op rq.bvecs × AllWithin n (waiting ws) =
          subst (λ us. AllWithin n (waiting us)) e t.within in
        let (ok, room) =
          perform_rq-Granted k d p gr some_mb small n rq es s.driver within.0 t.order.valid
            t.room in
        let new = (perform_rq k p rq s.driver).2.extend_queued in
        (
          es',
          record {
            order = after;
            room = room;
            within = rw (waiting-queue_extend s.driver.extend_queued new ws) within.1;
            within_later = t.within_later;
            fine = (ok, t.fine);
          },
        )
    run_work-Fits extend_work ws rqs es s e t =
        let (es', after) =
          run_work-InOrder k d p extend_work ws es s small t.order.valid
            (ap extensions (sym e) ∙ t.order.queued) in
        let v : Driver World = record s.driver { extend_queued = false } in
        (
          es',
          record {
            order = after;
            room = dynaswap_extend-HasRoom k d p n v t.room;
            within = subst (λ us. AllWithin n (waiting us)) e t.within;
            within_later = t.within_later;
            fine = t.fine;
          },
        )

    pub run_one-Fits :
        (ws : List (Work Page)) (rqs : List (Request Page)) (es : List Entry)
        (s : Device World Page)
        → s.work ≡ ws
        → Fits n rqs es s
        → (es' : List Entry) × Fits n rqs es' (run_one k p ws s)
    unfolding run_one
    run_one-Fits [] rqs es s e t = (es, t)
    run_one-Fits (item ∷ ws) rqs es s e t = run_work-Fits item ws rqs es s e t

    pub drain-Fits :
        (runs_left : ℕ) (es : List Entry) (s : Device World Page)
        → Fits n [] es s
        → (es' : List Entry) × Fits n [] es' (drain k p runs_left s)
    unfolding drain
    drain-Fits zero es s t = (es, t)
    drain-Fits (suc m) es s t =
        let (es₁, one) = run_one-Fits s.work [] es s refl t in drain-Fits m es₁ _ one

    pub steps-Fits :
        (evs : List (Event Page)) (es : List Entry) (s : Device World Page)
        → Fits n (taken evs) es s
        → (es' : List Entry) × Fits n [] es' (steps k p evs s)
    unfolding steps
    steps-Fits [] es s t = (es, t)
    steps-Fits (arrives true rq ∷ evs) es s t =
        steps-Fits evs es _ (arrival-Fits n true rq (taken evs) es s t)
    steps-Fits (arrives false rq ∷ evs) es s t =
        steps-Fits evs es _ (arrival-Fits n false rq (taken evs) es s t)
    steps-Fits (runs ∷ evs) es s t =
        let (es₁, one) = run_one-Fits s.work (taken evs) es s refl t in steps-Fits evs es₁ _ one
