-- ===== src/V2/Device/Drain.antt =====
-- The work queue of src/driver/v2/device.c left to itself: it runs dry.
use dynaswap.Base.{
  ℕ, zero, suc, ◌+◌, ◌*◌, ◌≤◌, ◌<◌, ◌≡◌, refl, sym, ◌∙◌, ap, subst, Bool, true, false, List, [],
  ◌∷◌, arith, length,
}
use dynaswap.V2.Kernel.{Kernel}
use dynaswap.V2.Context.{Params}
use dynaswap.V2.Device.{
  perform_rq, Work, handle_rq, extend_work, Device, run_work, run_one, queue_extend,
}
use dynaswap.V2.Device.Queue.{requests, extensions, requests-append, extensions-append}
use dynaswap.V2.Device.Events.{run_one-answers}

module _ {World Page : Type 0} (k : Kernel World Page) (p : Params) where
  -- The queue left alone, for `n` runs.
  unfoldable pub drain : ℕ → Device World Page → Device World Page
  drain zero s = s
  drain (suc n) s = drain n (run_one k p s.work s)

  -- A request may bring one extension with it.
  abbrev pub weight : List (Work Page) → ℕ
  weight ws = requests ws * 2 + extensions ws

  queue_extend-weight :
      (old new : Bool) (ws : List (Work Page)) → weight (queue_extend old new ws) ≤ suc (weight ws)
  queue_extend-weight true new ws = omega arith
  queue_extend-weight false true ws =
      omega (arith, requests-append ws (extend_work ∷ []), extensions-append ws (extend_work ∷ []))
  queue_extend-weight false false ws = omega arith

  run_one-weight :
      (item : Work Page) (ws : List (Work Page)) (s : Device World Page)
      → weight (run_one k p (item ∷ ws) s).work < weight (item ∷ ws)
  unfolding run_one run_work
  run_one-weight (handle_rq rq) ws s = omega (
    arith,
    queue_extend-weight s.driver.extend_queued (perform_rq k p rq s.driver).2.extend_queued ws,
  )
  run_one-weight extend_work ws s = omega arith

  run_one_nil : (s : Device World Page) → run_one k p [] s ≡ s
  unfolding run_one
  run_one_nil s = refl

  drain-empty :
      (n : ℕ) (ws : List (Work Page)) (s : Device World Page)
      → s.work ≡ ws
      → weight ws ≤ n
      → (drain n s).work ≡ []
  unfolding drain
  drain-empty zero [] s e h = e
  drain-empty zero (handle_rq rq ∷ ws) s e h = absurd (omega arith)
  drain-empty zero (extend_work ∷ ws) s e h = absurd (omega arith)
  drain-empty (suc n) [] s e h =
      let same : run_one k p s.work s ≡ s =
        subst (λ us. run_one k p us s ≡ s) (sym e) (run_one_nil s) in
      subst (λ (t : Device World Page). (drain n t).work ≡ []) (sym same)
        (drain-empty n [] s e (omega arith))
  drain-empty (suc n) (item ∷ ws) s e h =
      let less =
        subst (λ us. weight (run_one k p us s).work < weight us) (sym e)
          (run_one-weight item ws s) in
      drain-empty n _ (run_one k p s.work s) refl (omega (arith, less, ap weight e))

  drain-answers :
      (n : ℕ) (s : Device World Page)
      → let t = drain n s in length t.answers + requests t.work ≡ length s.answers + requests s.work
  unfolding drain
  drain-answers zero s = refl
  drain-answers (suc n) s = drain-answers n _ ∙ run_one-answers k p s.work s refl

  -- Without new arrivals the queue runs dry, after at most two runs for a request and one for an
  -- extension, and every request that waited has its answer then.
  pub drain_lem :
      (n : ℕ) (s : Device World Page)
      → 2 * requests s.work + extensions s.work ≤ n
      → ((drain n s).work ≡ []) × (length (drain n s).answers ≡ length s.answers + requests s.work)
  drain_lem n s h =
      let empty = drain-empty n s.work s refl (omega arith) in
      (empty, omega (arith, drain-answers n s, ap requests empty))
