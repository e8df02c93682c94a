-- ===== src/V1/Driver/Served.antt =====
-- What holds whatever the order in which the work of src/driver/src/dynaswap_drv.c runs.
use dynaswap.Base.{
  ℕ, ◌+◌, ◌^◌, ◌<◌, ℤ, false, [], ◌∷◌, ◌≡◌, subst, ap, ◌∙◌, arith, All, All-append, All-split,
  length, length-append,
}
use dynaswap.V2.Kernel.{Kernel, Documented}
use dynaswap.V1.Dynamap.{Dynamap, dynaswap_extend}
use dynaswap.V1.Dynamap.Grow.{dynaswap_expand_file_lem, dynaswap_expand_file-table}
use dynaswap.V1.Dynamap.Discard.{PunchesPage}
use dynaswap.V1.Driver.{DriverRequest}
use dynaswap.V1.Driver.Kept.{IsReady, InRange, dynaswap_process_work-IsReady}
use dynaswap.V1.Driver.Queue.{
  Served, dynaswap_handle_rq, run_waiting, Run, start, taken, refused, ran, extended,
}

module _ {World Page : Type 0} (k : Kernel World Page) (d : Documented k)
    (punch_hole : ℕ → World → ℤ × World) (trigger chunk n : ℕ) where
  -- A request within the device of `n` directories.
  pub record OnDevice (rq : DriverRequest Page) : Type 0 where
    pub segments : All (InRange k d punch_hole trigger n) rq.segments
    pub sectors : rq.start + rq.nr_sectors < 2 ^ 64

  -- The table is in order with its directories, the waiting requests lie on the device, and of the
  -- requests started each one waits, was answered once, or was refused.
  pub record IsServed (s : Served World Page) (accepted rejected : ℕ) (t : Served World Page)
      : Type 0 where
    pub ready : IsReady n t.map
    pub waiting : All OnDevice t.waiting
    pub answered :
        length t.answers + length t.waiting ≡ length s.answers + length s.waiting + accepted
    pub started : t.started ≡ s.started + accepted + rejected

  extend-IsReady : (s : Dynamap World) → IsReady n s → IsReady n (dynaswap_extend k chunk s)
  unfolding dynaswap_extend
  extend-IsReady s h = record {
    valid = (dynaswap_expand_file_lem k d chunk (record s { extend_queued = false }) h.valid).valid;
    dirs = λ dir lt.
        (dynaswap_expand_file-table k d chunk (record s { extend_queued = false })).1 dir
        ∙ h.dirs dir lt;
  }

  pub Run-IsServed :
      (s : Served World Page) {accepted rejected : ℕ} (t : Served World Page)
      → PunchesPage k d punch_hole
      → IsReady n s.map
      → All OnDevice s.waiting
      → Run k punch_hole trigger chunk OnDevice s accepted rejected t
      → IsServed s accepted rejected t
  unfolding dynaswap_handle_rq run_waiting
  Run-IsServed s t pd h w start = record {
    ready = h;
    waiting = w;
    answered = omega arith;
    started = omega arith;
  }
  Run-IsServed s t pd h w (taken {t = u} rq r on) =
      let i = Run-IsServed s u pd h w r in
      record {
        ready = i.ready;
        waiting = All-append OnDevice u.waiting (rq ∷ []) i.waiting (on, tt);
        answered = omega (arith, i.answered, length-append u.waiting (rq ∷ []));
        started = omega (arith, i.started);
      }
  Run-IsServed s t pd h w (refused {t = u} rq r on) =
      let i = Run-IsServed s u pd h w r in
      record {
        ready = i.ready;
        waiting = i.waiting;
        answered = i.answered;
        started = omega (arith, i.started);
      }
  Run-IsServed s t pd h w (ran {t = u} before after rq r e) =
      let i = Run-IsServed s u pd h w r in
      let (front, on, back) =
        All-split OnDevice before rq after (subst (All OnDevice) e i.waiting) in
      record {
        ready =
            dynaswap_process_work-IsReady k d punch_hole trigger n rq u.map pd on.segments
              on.sectors i.ready;
        waiting = All-append OnDevice before after front back;
        answered = omega (
          arith,
          i.answered,
          ap length e,
          length-append before (rq ∷ after),
          length-append before after,
        );
        started = i.started;
      }
  Run-IsServed s t pd h w (extended {t = u} r q) =
      let i = Run-IsServed s u pd h w r in
      record {
        ready = extend-IsReady u.map i.ready;
        waiting = i.waiting;
        answered = i.answered;
        started = i.started;
      }
