-- ===== src/V2/Device/History.antt =====
-- The disk that src/driver/v2/device.c promises, as a relation: what the answer to a request may be
-- on a disk that holds a page for each sector, and what the disk holds afterwards.
use dynaswap.Base.{
  ℕ, ◌<◌, ◌^◌, ◌≡◌, refl, sym, subst, ◌∙◌, ◌≢◌, ◌⊎◌, inl, inr, arith, List, [], ◌∷◌, ◌++◌, All, map,
}
use dynaswap.V2.Kernel.{Kernel, Documented}
use dynaswap.V2.Bimap.{Entry}
use dynaswap.V2.Slot.{clear_slot_sector_range}
use dynaswap.V2.Slot.Valid.{IsValid}
use dynaswap.V2.Context.{Params, Driver, dynaswap_discard}
use dynaswap.V2.Context.View.{view}
use dynaswap.V2.Device.{
  ReqOp, req_op_read, req_op_write, req_op_flush, req_op_discard, req_op_other, BioVec, Request,
  perform_bvec, perform_bvecs, perform_rq, Answer,
}
use dynaswap.V2.Device.Requests.{store, filled_from, perform_rq-Stored, perform_rq-read}

-- A request with the answer that was given to it.
pub record Handled (Page : Type 0) : Type 0 where
  pub request : Request Page
  pub answer : Answer Page

-- The disk holds the same.
abbrev pub Same : {Page : Type 0} → (ℕ → Page) → (ℕ → Page) → Type 0
Same f g = (j : ℕ) → g j ≡ f j

-- A write: no sector outside of the request changes, with BLK_STS_OK its pages are stored, and the
-- segments stay as they are.
abbrev pub Writes :
    {Page : Type 0} → List (BioVec Page) → Answer Page → (ℕ → Page) → (ℕ → Page) → Type 0
Writes bs a f g =
    ((j : ℕ) → All (λ b. j ≢ b.bi_sector) bs → g j ≡ f j)
    × (a.status ≡ 0 → (j : ℕ) → g j ≡ store bs f j)
    × (a.segments ≡ bs)

-- From a disk that holds `f` to one that holds `g`, with the answer `a`.
abbrev pub Serves :
    {Page : Type 0} → ReqOp → List (BioVec Page) → Answer Page → (ℕ → Page) → (ℕ → Page) → Type 0
Serves req_op_write bs a f g = Writes bs a f g
Serves req_op_flush bs a f g = Writes bs a f g
Serves req_op_read bs a f g = Same f g × (a.status ≡ 0 → a.segments ≡ filled_from f bs)
Serves req_op_discard bs a f g = Same f g × (a.status ≡ 0) × (a.segments ≡ bs)
Serves (req_op_other n) bs a f g = Same f g × (bs ≢ [] → a.status ≢ 0) × (a.segments ≡ bs)

-- The answers of a disk that held `f` at first and holds `g` now, the last one first.
abbrev pub History : {Page : Type 0} → (ℕ → Page) → List (Handled Page) → (ℕ → Page) → Type 0
History f [] g = Same f g
History {Page} f (s ∷ l) g =
    (h : ℕ → Page) × History f l h × Serves s.request.op s.request.bvecs s.answer h g

-- The requests in the order in which they were answered.
abbrev pub past : {Page : Type 0} → List (Handled Page) → List (Request Page)
past [] = []
past (s ∷ l) = past l ++ s.request ∷ []

abbrev pub given : {Page : Type 0} → List (Handled Page) → List (Answer Page)
given l = map (λ s. s.answer) l

module _ {Page : Type 0} where
  Serves-ext :
      (op : ReqOp) (bs : List (BioVec Page)) (a : Answer Page) (f g g' : ℕ → Page)
      → Same g g'
      → Serves op bs a f g
      → Serves op bs a f g'
  Serves-ext req_op_write bs a f g g' e (o, w, same) =
      (λ j n. e j ∙ o j n, λ z j. e j ∙ w z j, same)
  Serves-ext req_op_flush bs a f g g' e (o, w, same) =
      (λ j n. e j ∙ o j n, λ z j. e j ∙ w z j, same)
  Serves-ext req_op_read bs a f g g' e (o, r) = (λ j. e j ∙ o j, r)
  Serves-ext req_op_discard bs a f g g' e (o, r, same) = (λ j. e j ∙ o j, r, same)
  Serves-ext (req_op_other n) bs a f g g' e (o, r, same) = (λ j. e j ∙ o j, r, same)

  -- An operation is served under each of its names.
  by_name :
      (op op' : ReqOp) (bs : List (BioVec Page)) (a : Answer Page) (f g : ℕ → Page)
      → op ≡ op'
      → Serves op' bs a f g
      → Serves op bs a f g
  by_name op op' bs a f g e s = subst (λ o. Serves o bs a f g) (sym e) s

  pub History-ext :
      (f g g' : ℕ → Page) (l : List (Handled Page)) → Same g g' → History f l g → History f l g'
  History-ext f g g' [] e h = λ j. e j ∙ h j
  History-ext f g g' (s ∷ l) e (m, before, last) =
      (m, before, Serves-ext s.request.op s.request.bvecs s.answer m g g' e last)

module _ {World Page : Type 0} (k : Kernel World Page) (d : Documented k) (p : Params) where
  -- An operation that is not known leaves the driver as it is and fails, if there are segments.
  refused :
      (n : ℕ) (bs : List (BioVec Page)) (v : Driver World)
      → let (status, segments, v') = perform_bvecs k p (req_op_other n) bs v in
        (v' ≡ v) × (bs ≢ [] → status ≢ 0) × (segments ≡ bs)
  unfolding perform_bvecs perform_bvec
  refused n [] v = (refl, λ ne. absurd (ne refl), refl)
  refused n (b ∷ bs) v = (refl, λ ne. d.status_of_error 4, refl)

  -- A loop whose steps leave the segment leaves all of them.
  perform_bvecs-segments :
      (op : ReqOp) (bs : List (BioVec Page)) (v : Driver World)
      → ((b : BioVec Page) (u : Driver World) → (perform_bvec k p op b u).1 ≡ b)
      → (perform_bvecs k p op bs v).1 ≡ bs
  unfolding perform_bvecs
  perform_bvecs-segments op [] v h = refl
  perform_bvecs-segments op (b ∷ bs) v h =
      ground (arith, h b v, perform_bvecs-segments op bs (perform_bvec k p op b v).2 h)

  written-segments :
      (rq : Request Page) (v : Driver World)
      → (rq.op ≡ req_op_write) ⊎ (rq.op ≡ req_op_flush)
      → (perform_rq k p rq v).1 ≡ rq.bvecs
  unfolding perform_rq perform_bvec
  written-segments rq v (inl e) =
      rw e (perform_bvecs-segments req_op_write rq.bvecs v (λ b u. refl))
  written-segments rq v (inr e) =
      rw e (perform_bvecs-segments req_op_flush rq.bvecs v (λ b u. refl))

  -- What the driver holds after a request, and its answer.
  abbrev pub answer_of : Request Page → Driver World → Answer Page
  answer_of rq v = record { status = (perform_rq k p rq v).0; segments = (perform_rq k p rq v).1 }

  pub record Performed (es : List Entry) (v : Driver World) (rq : Request Page) (es' : List Entry)
      : Type 0 where
    pub valid : IsValid k.hash es' (perform_rq k p rq v).2.slots
    pub serves :
        Serves rq.op rq.bvecs
          (answer_of rq v)
          (view k d es v.world)
          (view k d es' (perform_rq k p rq v).2.world)

  perform-discard :
      (rq : Request Page) (v : Driver World)
      → rq.op ≡ req_op_discard
      → ((perform_rq k p rq v).2 ≡ v)
        × ((perform_rq k p rq v).0 ≡ 0)
        × ((perform_rq k p rq v).1 ≡ rq.bvecs)
  unfolding perform_rq dynaswap_discard clear_slot_sector_range
  perform-discard rq v e = rw e (refl, d.status_of_zero, refl)

  perform-other :
      (n : ℕ) (rq : Request Page) (v : Driver World)
      → rq.op ≡ req_op_other n
      → ((perform_rq k p rq v).2 ≡ v)
        × (rq.bvecs ≢ [] → (perform_rq k p rq v).0 ≢ 0)
        × ((perform_rq k p rq v).1 ≡ rq.bvecs)
  unfolding perform_rq
  perform-other n rq v e = rw e (refused n rq.bvecs v)

  -- A request that leaves the driver as it is.
  kept :
      (rq : Request Page) (es : List Entry) (v : Driver World)
      → (perform_rq k p rq v).2 ≡ v
      → IsValid k.hash es v.slots
      → IsValid k.hash es (perform_rq k p rq v).2.slots
        × Same (view k d es v.world) (view k d es (perform_rq k p rq v).2.world)
  kept rq es v e h = rw e (h, λ j. refl)

  -- Each request is carried out as the disk promises.
  pub perform_rq-Performed :
      (rq : Request Page) (es : List Entry) (v : Driver World)
      → p.chunk_size_mb < 2 ^ 16
      → IsValid k.hash es v.slots
      → (es' : List Entry) × Performed es v rq es'
  perform_rq-Performed rq es v small h = by_op rq.op refl
    where
      by_op : (op : ReqOp) → rq.op ≡ op → (es' : List Entry) × Performed es v rq es'
      by_op req_op_write e =
          let (es', st) = perform_rq-Stored k d p rq es v (inl e) small h in
          let kept = written-segments rq v (inl e) in
          (
            es',
            record {
              valid = st.valid;
              serves = by_name rq.op _ rq.bvecs _ _ _ e (st.others, st.stored, kept);
            },
          )
      by_op req_op_flush e =
          let (es', st) = perform_rq-Stored k d p rq es v (inr e) small h in
          let kept = written-segments rq v (inr e) in
          (
            es',
            record {
              valid = st.valid;
              serves = by_name rq.op _ rq.bvecs _ _ _ e (st.others, st.stored, kept);
            },
          )
      by_op req_op_read e =
          let (same, pages) = perform_rq-read k d p rq es v e h in
          let (valid, views) = kept rq es v same h in
          (es, record { valid = valid; serves = by_name rq.op _ rq.bvecs _ _ _ e (views, pages) })
      by_op req_op_discard e =
          let (same, ok, segments) = perform-discard rq v e in
          let (valid, views) = kept rq es v same h in
          (
            es,
            record {
              valid = valid;
              serves = by_name rq.op _ rq.bvecs _ _ _ e (views, ok, segments);
            },
          )
      by_op (req_op_other n) e =
          let (same, bad, segments) = perform-other n rq v e in
          let (valid, views) = kept rq es v same h in
          (
            es,
            record {
              valid = valid;
              serves = by_name rq.op _ rq.bvecs _ _ _ e (views, bad, segments);
            },
          )
