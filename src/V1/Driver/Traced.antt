-- ===== src/V1/Driver/Traced.antt =====
-- What src/driver/src/dynaswap_drv.c has done with the requests it took, in whichever order their
-- work ran.
use dynaswap.Base.{
  ℕ, ◌≡◌, refl, subst, sym, ap, ◌∙◌, false, List, [], ◌∷◌, ◌++◌, ℤ, All, All-split, map,
}
use mathlib.Core.List.{Perm, perm_middle, perm_append_singleton, append_assoc}
use mathlib.Core.List.Perm
use dynaswap.V2.Kernel.{Kernel, Documented}
use dynaswap.V2.Device.{
  ReqOp, req_op_read, req_op_write, req_op_flush, req_op_discard, req_op_other,
}
use dynaswap.V1.Dynamap.{dynaswap_extend}
use dynaswap.V1.Dynamap.Grow.{dynaswap_expand_file_lem}
use dynaswap.V1.Dynamap.Discard.{PunchesPage}
use dynaswap.V1.Dynamap.View.{view}
use dynaswap.V1.Driver.{Segment, DriverRequest, dynaswap_process_work}
use dynaswap.V1.Driver.Kept.{IsReady}
use dynaswap.V1.Driver.History.{SamePages, TakesAll, Ends, dynaswap_process_work-Ends}
use dynaswap.V1.Driver.Queue.{
  Served, Ended, dynaswap_handle_rq, run_waiting, Run, start, taken, refused, ran, extended, asked,
}
use dynaswap.V1.Driver.Served.{OnDevice, Run-IsServed}
use dynaswap.V1.Threads.Steps.{WritesWhole}

-- A request with what it was ended with.
pub record Completed (Page : Type 0) : Type 0 where
  pub request : DriverRequest Page
  pub answer : Ended Page

abbrev pub requests : {Page : Type 0} → List (Completed Page) → List (DriverRequest Page)
requests l = map (λ c. c.request) l

abbrev pub given : {Page : Type 0} → List (Completed Page) → List (Ended Page)
given l = map (λ c. c.answer) l

module _ {Page : Type 0} (zero_page : Page) where
  -- The requests that were ended while the device went from `f` to `g`, the last one first.
  abbrev pub History : (ℕ → Page) → List (Completed Page) → (ℕ → Page) → Type 0
  History f [] g = SamePages f g
  History f (c ∷ l) g =
      (h : ℕ → Page) × History f l h
      × Ends zero_page c.request.operation c.request c.answer.segments c.answer.status h g

  TakesAll-ext :
      (bs : List (Segment Page)) (before status : ℕ) (f g g' : ℕ → Page)
      → SamePages g g'
      → TakesAll bs before status f g
      → TakesAll bs before status f g'
  TakesAll-ext [] before status f g g' e (z, same) = (z, λ j. e j ∙ same j)
  TakesAll-ext (b ∷ bs) before status f g g' e (r, h, one, rest) =
      (r, h, one, TakesAll-ext bs r status h g g' e rest)

  Ends-ext :
      (op : ReqOp) (rq : DriverRequest Page) (bs : List (Segment Page)) (status : ℕ)
      (f g g' : ℕ → Page)
      → SamePages g g'
      → Ends zero_page op rq bs status f g
      → Ends zero_page op rq bs status f g'
  Ends-ext req_op_write rq bs status f g g' e h = TakesAll-ext rq.segments 0 status f g g' e h
  Ends-ext req_op_read rq bs status f g g' e (h, same) = (h, λ j. e j ∙ same j)
  Ends-ext req_op_discard rq bs status f g g' e (z, zeroed) =
      (z, (λ j l u. e j ∙ zeroed.0 j l u, λ j o. e j ∙ zeroed.1 j o))
  Ends-ext req_op_flush rq bs status f g g' e (z, same) = (z, λ j. e j ∙ same j)
  Ends-ext (req_op_other m) rq bs status f g g' e (z, same) = (z, λ j. e j ∙ same j)

  History-ext :
      (f g g' : ℕ → Page) (l : List (Completed Page))
      → SamePages g g'
      → History f l g
      → History f l g'
  History-ext f g g' [] e h = λ j. e j ∙ h j
  History-ext f g g' (c ∷ l) e (h, before, ends) = (
    h,
    before,
    Ends-ext c.request.operation c.request c.answer.segments c.answer.status h g g' e ends,
  )

  -- The same from a device that held the same at first.
  pub History-from :
      {f f' : ℕ → Page}
      → SamePages f' f
      → (l : List (Completed Page)) (g : ℕ → Page) → History f l g
      → History f' l g
  History-from e [] g h = λ j. h j ∙ e j
  History-from e (c ∷ l) g (h, before, ends) = (h, History-from e l h before, ends)

module _ {World Page : Type 0} (k : Kernel World Page) (d : Documented k)
    (punch_hole : ℕ → World → ℤ × World) (trigger chunk n : ℕ) where
  -- `done` was ended while the device went from `f` to what it holds now, `old` are the answers
  -- before, and each request of `pool` was ended once or waits.
  pub record Traced (f : ℕ → Page) (old : List (Ended Page)) (pool : List (DriverRequest Page))
      (done : List (Completed Page)) (t : Served World Page) : Type 0 where
    pub answered : t.answers ≡ given done ++ old
    pub each_once : Perm (requests done ++ t.waiting) pool
    pub history : History k.zero_page f done (view k d t.map)

  ran-Traced :
      (f : ℕ → Page) (old : List (Ended Page)) (pool : List (DriverRequest Page))
      (done : List (Completed Page)) (t : Served World Page)
      (before after : List (DriverRequest Page)) (rq : DriverRequest Page)
      → WritesWhole k d
      → PunchesPage k d punch_hole
      → IsReady n t.map
      → OnDevice k d punch_hole trigger chunk n rq
      → t.waiting ≡ before ++ rq ∷ after
      → Traced f old pool done t
      → (c : Completed Page) × Traced f old pool
          (c ∷ done)
          (run_waiting k punch_hole trigger before rq after t)
  unfolding run_waiting
  ran-Traced f old pool done t before after rq ww pd h on e i =
      let (status, bs', u) = dynaswap_process_work k punch_hole trigger rq t.map in
      let end : Ended Page = record { segments = bs'; status = status } in
      let c : Completed Page = record { request = rq; answer = end } in
      let moved : Perm (rq ∷ (requests done ++ (before ++ after))) (requests done ++ t.waiting) =
        subst (λ l. Perm (rq ∷ (requests done ++ (before ++ after))) (requests done ++ l)) (sym e)
          (subst (λ l. Perm (rq ∷ (requests done ++ (before ++ after))) l)
            (append_assoc (requests done) before (rq ∷ after))
            (subst (λ l. Perm (rq ∷ l) ((requests done ++ before) ++ (rq ∷ after)))
              (append_assoc (requests done) before after)
              (Perm.symm (perm_middle (requests done ++ before) after)))) in
      (
        c,
        record {
          answered = ap (λ l. end ∷ l) i.answered;
          each_once = Perm.trans moved i.each_once;
          history = (
            view k d t.map,
            i.history,
            dynaswap_process_work-Ends k d punch_hole trigger n rq t.map ww pd h on.segments
                on.sectors,
          );
        },
      )

  extend_view :
      (t : Served World Page)
      → IsReady n t.map
      → SamePages (view k d t.map) (view k d (dynaswap_extend k chunk t.map))
  unfolding dynaswap_extend view
  extend_view t h =
      (dynaswap_expand_file_lem k d chunk (record t.map { extend_queued = false }) h.valid).same

  -- Whatever is taken and in whatever order the work runs: the answers, with the segments that a read has filled, are those of requests that
  -- were ended one after the other, each on what the one before left of the device, and the requests
  -- that were taken or had waited are these and those that wait, each once.
  pub Run-Traced :
      (s t : Served World Page) {accepted rejected : ℕ}
      → WritesWhole k d
      → PunchesPage k d punch_hole
      → IsReady n s.map
      → All (OnDevice k d punch_hole trigger chunk n) s.waiting
      → (r : Run k punch_hole trigger chunk
          (OnDevice k d punch_hole trigger chunk n)
          s
          accepted
          rejected
          t)
      → (done : List (Completed Page)) × Traced
          (view k d s.map)
          s.answers
          (asked k punch_hole trigger r ++ s.waiting)
          done
          t
  unfolding dynaswap_handle_rq
  Run-Traced s t ww pd h w start =
      ([], record { answered = refl; each_once = Perm.refl s.waiting; history = λ j. refl })
  Run-Traced s t ww pd h w (taken {t = u} rq r on) =
      let (done, i) = Run-Traced s u ww pd h w r in
      (
        done,
        record {
          answered = i.answered;
          each_once =
              subst (λ l. Perm l (rq ∷ (asked k punch_hole trigger r ++ s.waiting)))
                (append_assoc (requests done) u.waiting (rq ∷ []))
                (Perm.trans (perm_append_singleton rq (requests done ++ u.waiting))
                  (Perm.cons rq i.each_once));
          history = i.history;
        },
      )
  Run-Traced s t ww pd h w (refused {t = u} rq r on) =
      let (done, i) = Run-Traced s u ww pd h w r in
      (done, record { answered = i.answered; each_once = i.each_once; history = i.history })
  Run-Traced s t ww pd h w (ran {t = u} before after rq r e) =
      let (done, i) = Run-Traced s u ww pd h w r in
      let kept = Run-IsServed k d punch_hole trigger chunk n s u pd h w r in
      let (_, on, _) =
        All-split (OnDevice k d punch_hole trigger chunk n) before rq after
          (subst (All (OnDevice k d punch_hole trigger chunk n)) e kept.waiting) in
      let (c, j) = ran-Traced _ _ _ done u before after rq ww pd kept.ready on e i in (c ∷ done, j)
  Run-Traced s t ww pd h w (extended {t = u} r q) =
      let (done, i) = Run-Traced s u ww pd h w r in
      let kept = Run-IsServed k d punch_hole trigger chunk n s u pd h w r in
      (
        done,
        record {
          answered = i.answered;
          each_once = i.each_once;
          history = History-ext k.zero_page _ _ _ done (extend_view u kept.ready) i.history;
        },
      )
