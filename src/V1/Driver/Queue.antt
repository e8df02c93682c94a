-- ===== src/V1/Driver/Queue.antt =====
-- How src/driver/src/dynaswap_drv.c takes requests, and in which orders the work of the driver can
-- run: the system's work queue starts waiting items in any order, and the driver's own queue runs
-- `extend_work`. Each item runs alone here; V1/Threads has the writes that overlap.
use dynaswap.Base.{ℕ, suc, ℤ, Bool, true, false, List, [], ◌∷◌, ◌++◌, ◌≡◌, if◌then◌else◌}
use dynaswap.V2.Kernel.{Kernel}
use dynaswap.V1.Dynamap.{Dynamap, dynaswap_extend}
use dynaswap.V1.Driver.{Segment, DriverRequest, dynaswap_process_work}

-- How a request was ended: its segments, of which a read has filled the pages, and its status.
pub record Ended (Page : Type 0) : Type 0 where
  pub segments : List (Segment Page)
  pub status : ℕ

-- The map, the requests whose `dynaswap_work` waits, the requests that were ended, the last one
-- first, and how many requests `blk_mq_start_request` was called for.
pub record Served (World Page : Type 0) : Type 0 where
  pub map : Dynamap World
  pub waiting : List (DriverRequest Page)
  pub answers : List (Ended Page)
  pub started : ℕ

abbrev pub blk_sts_resource : ℕ
blk_sts_resource = 9

-- `kmalloc` tells whether there is memory for the item. The request is started either way.
unfoldable pub dynaswap_handle_rq :
    {World Page : Type 0} → Bool → DriverRequest Page → Served World Page → ℕ × Served World Page
dynaswap_handle_rq kmalloc rq s =
    let started = suc s.started in
    if kmalloc
    then (0, record s { started = started; waiting = s.waiting ++ rq ∷ [] })
    else (blk_sts_resource, record s { started = started })

module _ {World Page : Type 0} (k : Kernel World Page) (punch_hole : ℕ → World → ℤ × World)
    (trigger : ℕ) where
  -- A waiting item runs, between those before it and those after it.
  unfoldable pub run_waiting :
      List (DriverRequest Page)
      → DriverRequest Page
      → List (DriverRequest Page)
      → Served World Page
      → Served World Page
  run_waiting before rq after s =
      let (status, segments, t) = dynaswap_process_work k punch_hole trigger rq s.map in
      record s {
        map = t;
        waiting = before ++ after;
        answers = record { segments = segments; status = status } ∷ s.answers;
      }

  -- What can happen from `s` on, with the requests that were taken meanwhile and those that were
  -- refused; `chunk` is the module argument chunk_size. The block layer sends only requests of which `OnDevice` holds.
  pub data Run (chunk : ℕ) (OnDevice : DriverRequest Page → Type 0) (s : Served World Page)
      : ℕ → ℕ → Served World Page → Type 0 where
    start : Run chunk OnDevice s 0 0 s
    taken :
        {n m : ℕ} {t : Served World Page} (rq : DriverRequest Page)
        → Run chunk OnDevice s n m t
        → OnDevice rq
        → Run chunk OnDevice s (suc n) m (dynaswap_handle_rq true rq t).1
    refused :
        {n m : ℕ} {t : Served World Page} (rq : DriverRequest Page)
        → Run chunk OnDevice s n m t
        → OnDevice rq
        → Run chunk OnDevice s n (suc m) (dynaswap_handle_rq false rq t).1
    ran :
        {n m : ℕ} {t : Served World Page} (before after : List (DriverRequest Page))
        (rq : DriverRequest Page)
        → Run chunk OnDevice s n m t
        → t.waiting ≡ before ++ rq ∷ after
        → Run chunk OnDevice s n m (run_waiting before rq after t)
    extended :
        {n m : ℕ} {t : Served World Page}
        → Run chunk OnDevice s n m t
        → t.map.extend_queued ≡ true
        → Run chunk OnDevice s n m (record t { map = dynaswap_extend k chunk t.map })

  -- The requests that were taken for work, the last one first; those refused are not among them.
  abbrev pub asked :
      {chunk : ℕ} {P : DriverRequest Page → Type 0} {s t : Served World Page} {a b : ℕ}
      → Run chunk P s a b t
      → List (DriverRequest Page)
  asked start = []
  asked (taken rq r on) = rq ∷ asked r
  asked (refused rq r on) = asked r
  asked (ran before after rq r e) = asked r
  asked (extended r q) = asked r
