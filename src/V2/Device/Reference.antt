-- ===== src/V2/Device/Reference.antt =====
-- A disk that never fails, for the requests of src/driver/v2/device.c: what a history without errors
-- is measured by.
use dynaswap.Base.{ℕ, ◌≡◌, refl, sym, ◌∙◌, ap, ap₂, List, [], ◌∷◌, ◌++◌, All}
use mathlib.Core.Path.{fun_ext}
use dynaswap.V2.Device.{
  ReqOp, req_op_read, req_op_write, req_op_flush, req_op_discard, req_op_other, BioVec, Request,
}
use dynaswap.V2.Device.Requests.{store, filled_from}
use dynaswap.V2.Device.History.{Handled, Serves, History, past}

-- The segments and the disk after a request: a read fills its segments with what the sectors hold,
-- a write stores its segments in their order, and nothing else does anything.
unfoldable pub disk_serve :
    {Page : Type 0} → ReqOp → List (BioVec Page) → (ℕ → Page) → List (BioVec Page) × (ℕ → Page)
disk_serve req_op_read bs f = (filled_from f bs, f)
disk_serve req_op_write bs f = (bs, store bs f)
disk_serve req_op_flush bs f = (bs, store bs f)
disk_serve req_op_discard bs f = (bs, f)
disk_serve (req_op_other n) bs f = (bs, f)

-- One request after the other: the segments of each, and the disk at the end.
unfoldable pub disk_run :
    {Page : Type 0} → List (Request Page) → (ℕ → Page) → List (List (BioVec Page)) × (ℕ → Page)
disk_run [] f = ([], f)
disk_run (rq ∷ rqs) f =
    let (segments, g) = disk_serve rq.op rq.bvecs f in
    let rest = disk_run rqs g in (segments ∷ rest.0, rest.1)

-- The segments of the answers, in the order in which they were given.
abbrev pub results : {Page : Type 0} → List (Handled Page) → List (List (BioVec Page))
results [] = []
results (s ∷ l) = results l ++ s.answer.segments ∷ []

module _ {Page : Type 0} where
  disk_run-snoc :
      (rqs : List (Request Page)) (rq : Request Page) (f : ℕ → Page)
      → let (segments, g) = disk_run rqs f in
        let last = disk_serve rq.op rq.bvecs g in
        disk_run (rqs ++ rq ∷ []) f ≡ (segments ++ last.0 ∷ [], last.1)
  unfolding disk_run
  disk_run-snoc [] rq f = refl
  disk_run-snoc (r ∷ rqs) rq f =
      let (segments, g) = disk_serve r.op r.bvecs f in
      ap (λ (t : List (List (BioVec Page)) × (ℕ → Page)). (segments ∷ t.0, t.1))
        (disk_run-snoc rqs rq g)

  -- A request that succeeds does what the disk does.
  Serves-disk_serve :
      (op : ReqOp) (s : Handled Page) (bs : List (BioVec Page)) (f g : ℕ → Page)
      → s.answer.status ≡ 0
      → Serves op bs s.answer f g
      → disk_serve op bs f ≡ (s.answer.segments, g)
  unfolding disk_serve
  Serves-disk_serve req_op_read s bs f g ok (o, r) =
      ap₂ (λ a b. (a, b)) (sym (r ok)) (sym (fun_ext o))
  Serves-disk_serve req_op_write s bs f g ok (o, w, same) =
      ap₂ (λ a b. (a, b)) (sym same) (sym (fun_ext (w ok)))
  Serves-disk_serve req_op_flush s bs f g ok (o, w, same) =
      ap₂ (λ a b. (a, b)) (sym same) (sym (fun_ext (w ok)))
  Serves-disk_serve req_op_discard s bs f g ok (o, r, same) =
      ap₂ (λ a b. (a, b)) (sym same) (sym (fun_ext o))
  Serves-disk_serve (req_op_other n) s bs f g ok (o, r, same) =
      ap₂ (λ a b. (a, b)) (sym same) (sym (fun_ext o))

  -- In a history without errors the answers are those of the disk that never fails.
  pub History-disk_run :
      (l : List (Handled Page)) (f g : ℕ → Page)
      → All (λ s. s.answer.status ≡ 0) l
      → History f l g
      → disk_run (past l) f ≡ (results l, g)
  unfolding disk_run
  History-disk_run [] f g ok h = ap (λ u. ([], u)) (sym (fun_ext h))
  History-disk_run (s ∷ l) f g ok (m, before, last) =
      let rest = History-disk_run l f m ok.1 before in
      disk_run-snoc (past l) s.request f
      ∙ ap
          (λ (t : List (List (BioVec Page)) × (ℕ → Page)).
            let last' = disk_serve s.request.op s.request.bvecs t.1 in
            (t.0 ++ last'.0 ∷ [], last'.1))
          rest
      ∙ ap (λ (t : List (BioVec Page) × (ℕ → Page)). (results l ++ t.0 ∷ [], t.1))
          (Serves-disk_serve s.request.op s s.request.bvecs m g ok.0 last)
