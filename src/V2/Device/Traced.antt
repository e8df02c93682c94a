-- ===== src/V2/Device/Traced.antt =====
-- The device of src/driver/v2/device.c over any sequence of events, against the disk of History.antt.
use dynaswap.Base.{
  ℕ, zero, suc, ◌<◌, ◌^◌, ◌≡◌, refl, sym, ◌∙◌, ap, Bool, true, false, List, [], ◌∷◌, ◌++◌, arith,
}
use mathlib.Core.List.{append-nil, append_assoc}
use dynaswap.V2.Kernel.{Kernel, Documented}
use dynaswap.V2.Bimap.{Entry}
use dynaswap.V2.Context.{Params}
use dynaswap.V2.Context.View.{view}
use dynaswap.V2.Context.Same.{dynaswap_extend-view}
use dynaswap.V2.Device.{
  Request, perform_rq, Work, handle_rq, extend_work, Device, Answer, queue_rq, queue_extend,
  run_work, run_one,
}
use dynaswap.V2.Device.Queue.{requests, extensions, run_work-IsQueued}
use dynaswap.V2.Device.Events.{Event, arrives, runs, steps, InOrder, queue_rq-InOrder}
use dynaswap.V2.Device.Drain.{drain}
use dynaswap.V2.Device.History.{
  Handled, History, History-ext, past, given, perform_rq-Performed, answer_of,
}

-- The requests that wait, the first one first, and those that `queue_rq` takes.
abbrev pub waiting : {Page : Type 0} → List (Work Page) → List (Request Page)
waiting [] = []
waiting (handle_rq rq ∷ ws) = rq ∷ waiting ws
waiting (extend_work ∷ ws) = waiting ws

abbrev pub taken : {Page : Type 0} → List (Event Page) → List (Request Page)
taken [] = []
taken (arrives true rq ∷ evs) = rq ∷ taken evs
taken (arrives false rq ∷ evs) = taken evs
taken (runs ∷ evs) = taken evs

module _ {Page : Type 0} where
  pub waiting-append : (ws us : List (Work Page)) → waiting (ws ++ us) ≡ waiting ws ++ waiting us
  waiting-append [] us = refl
  waiting-append (handle_rq rq ∷ ws) us = ap (λ l. rq ∷ l) (waiting-append ws us)
  waiting-append (extend_work ∷ ws) us = waiting-append ws us

  pub waiting-queue_extend :
      (old new : Bool) (ws : List (Work Page)) → waiting (queue_extend old new ws) ≡ waiting ws
  waiting-queue_extend true new ws = refl
  waiting-queue_extend false true ws =
      waiting-append ws (extend_work ∷ []) ∙ append-nil (waiting ws)
  waiting-queue_extend false false ws = refl

  pub waiting-requests : (ws : List (Work Page)) → requests ws ≡ 0 → waiting ws ≡ []
  waiting-requests [] e = refl
  waiting-requests (handle_rq rq ∷ ws) e = absurd (omega arith)
  waiting-requests (extend_work ∷ ws) e = waiting-requests ws e

module _ {World Page : Type 0} (k : Kernel World Page) (d : Documented k) (p : Params) where
  -- The device has served `served` since its disk held `f` and `old` were the answers, of the
  -- requests `asked`, in their order; the others wait.
  pub record Traced (f : ℕ → Page) (old : List (Answer Page)) (asked : List (Request Page))
      (served : List (Handled Page)) (es : List Entry) (s : Device World Page) : Type 0 where
    pub order : InOrder k d p es s
    pub answered : s.answers ≡ given served ++ old
    pub in_turn : past served ++ waiting s.work ≡ asked
    pub history : History f served (view k d es s.driver.world)

  module _ (f : ℕ → Page) (old : List (Answer Page)) where
    -- The list of the requests, written in another way.
    relisted :
        {asked asked' : List (Request Page)} {served : List (Handled Page)} {es : List Entry}
        {s : Device World Page}
        → asked ≡ asked'
        → Traced f old asked served es s
        → Traced f old asked' served es s
    relisted e t = record {
      order = t.order;
      answered = t.answered;
      in_turn = t.in_turn ∙ e;
      history = t.history;
    }

    arrival-Traced :
        (kmalloc : Bool) (rq : Request Page) (asked : List (Request Page))
        (served : List (Handled Page)) (es : List Entry) (s : Device World Page)
        → Traced f old asked served es s
        → Traced f old
            (asked ++ taken (arrives kmalloc rq ∷ []))
            served
            es
            (queue_rq kmalloc rq s).1
    unfolding queue_rq
    arrival-Traced true rq asked served es s t = record {
      order = queue_rq-InOrder k d p true rq es s t.order;
      answered = t.answered;
      in_turn =
          ap (λ l. past served ++ l) (waiting-append s.work (handle_rq rq ∷ []))
          ∙ sym (append_assoc (past served) (waiting s.work) (rq ∷ []))
          ∙ ap (λ l. l ++ rq ∷ []) t.in_turn;
      history = t.history;
    }
    arrival-Traced false rq asked served es s t = relisted (sym (append-nil asked)) t

    run_work-Traced :
        (item : Work Page) (ws : List (Work Page)) (asked : List (Request Page))
        (served : List (Handled Page)) (es : List Entry) (s : Device World Page)
        → p.chunk_size_mb < 2 ^ 16
        → s.work ≡ item ∷ ws
        → Traced f old asked served es s
        → (es' : List Entry) × (served' : List (Handled Page)) × Traced f old asked served' es'
            (run_work k p item ws s)
    unfolding run_work
    run_work-Traced (handle_rq rq) ws asked served es s small e t =
        let (es', done) = perform_rq-Performed k d p rq es s.driver small t.order.valid in
        let one : Handled Page = record { request = rq; answer = answer_of k d p rq s.driver } in
        (
          es',
          one ∷ served,
          record {
            order = record {
              valid = done.valid;
              queued =
                  run_work-IsQueued k p (handle_rq rq) ws s
                    (ap extensions (sym e) ∙ t.order.queued);
            };
            answered = ap (λ l. one.answer ∷ l) t.answered;
            in_turn =
                ap (λ l. (past served ++ rq ∷ []) ++ l)
                  (waiting-queue_extend s.driver.extend_queued
                    (perform_rq k p rq s.driver).2.extend_queued ws)
                ∙ append_assoc (past served) (rq ∷ []) (waiting ws)
                ∙ ap (λ us. past served ++ waiting us) (sym e)
                ∙ t.in_turn;
            history = (view k d es s.driver.world, t.history, done.serves);
          },
        )
    run_work-Traced extend_work ws asked served es s small e t =
        let (valid, same) =
          dynaswap_extend-view k d p es (record s.driver { extend_queued = false }) small
            t.order.valid in
        (
          es,
          served,
          record {
            order = record {
              valid = valid;
              queued =
                  run_work-IsQueued k p extend_work ws s (ap extensions (sym e) ∙ t.order.queued);
            };
            answered = t.answered;
            in_turn = ap (λ us. past served ++ waiting us) (sym e) ∙ t.in_turn;
            history = History-ext f _ _ served same t.history;
          },
        )

    run_one-Traced :
        (ws : List (Work Page)) (asked : List (Request Page)) (served : List (Handled Page))
        (es : List Entry) (s : Device World Page)
        → p.chunk_size_mb < 2 ^ 16
        → s.work ≡ ws
        → Traced f old asked served es s
        → (es' : List Entry) × (served' : List (Handled Page)) × Traced f old asked served' es'
            (run_one k p ws s)
    unfolding run_one
    run_one-Traced [] asked served es s small e t = (es, served, t)
    run_one-Traced (item ∷ ws) asked served es s small e t =
        run_work-Traced item ws asked served es s small e t

    pub drain-Traced :
        (n : ℕ) (asked : List (Request Page)) (served : List (Handled Page)) (es : List Entry)
        (s : Device World Page)
        → p.chunk_size_mb < 2 ^ 16
        → Traced f old asked served es s
        → (es' : List Entry) × (served' : List (Handled Page)) × Traced f old asked served' es'
            (drain k p n s)
    unfolding drain
    drain-Traced zero asked served es s small t = (es, served, t)
    drain-Traced (suc n) asked served es s small t =
        let (es₁, served₁, one) = run_one-Traced s.work asked served es s small refl t in
        drain-Traced n asked served₁ es₁ _ small one

    pub steps_from-Traced :
        (evs : List (Event Page)) (asked : List (Request Page)) (served : List (Handled Page))
        (es : List Entry) (s : Device World Page)
        → p.chunk_size_mb < 2 ^ 16
        → Traced f old asked served es s
        → (es' : List Entry) × (served' : List (Handled Page)) × Traced f old
            (asked ++ taken evs)
            served'
            es'
            (steps k p evs s)
    unfolding steps
    steps_from-Traced [] asked served es s small t =
        (es, served, relisted (sym (append-nil asked)) t)
    steps_from-Traced (arrives true rq ∷ evs) asked served es s small t =
        let (es', served', u) =
          steps_from-Traced evs (asked ++ rq ∷ []) served es (queue_rq true rq s).1 small
            (arrival-Traced true rq asked served es s t) in
        (es', served', relisted (append_assoc asked (rq ∷ []) (taken evs)) u)
    steps_from-Traced (arrives false rq ∷ evs) asked served es s small t =
        let (es', served', u) =
          steps_from-Traced evs (asked ++ []) served es (queue_rq false rq s).1 small
            (arrival-Traced false rq asked served es s t) in
        (es', served', relisted (append_assoc asked [] (taken evs)) u)
    steps_from-Traced (runs ∷ evs) asked served es s small t =
        let (es₁, served₁, one) = run_one-Traced s.work asked served es s small refl t in
        steps_from-Traced evs asked served₁ es₁ _ small one

  -- Whatever requests arrive and whenever the queue runs, from a device that is in order: what it
  -- has answered since is a history of the disk, from what the device held to what it holds now,
  -- with exactly these answers; the requests are answered in the order in which they were taken,
  -- those that waited at first before the others, and the rest of them waits.
  pub steps-Traced :
      (evs : List (Event Page)) (es : List Entry) (s : Device World Page)
      → p.chunk_size_mb < 2 ^ 16
      → InOrder k d p es s
      → (es' : List Entry) × (served : List (Handled Page)) × Traced
          (view k d es s.driver.world)
          s.answers
          (waiting s.work ++ taken evs)
          served
          es'
          (steps k p evs s)
  steps-Traced evs es s small h =
      steps_from-Traced (view k d es s.driver.world) s.answers evs (waiting s.work) [] es s small
        (record { order = h; answered = refl; in_turn = refl; history = λ j. refl })
