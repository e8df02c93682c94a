-- ===== src/V2/Device/Requests.antt =====
-- What `perform_rq` of src/driver/v2/device.c does for a whole request.
use dynaswap.Base.{
  ℕ, ◌<◌, ◌^◌, ◌≡◌, refl, sym, ◌∙◌, ap, ap₂, ◌≢◌, ◌⊎◌, inl, inr, true, false, List, [], ◌∷◌, arith,
  ℤ, pos, negsuc, is_neg, All, Bool-cases, ◌==◌, if◌then◌else◌, eq→==, ne→==,
}
use native.Mathlib.Decide.{ℕ_discrete}
use dynaswap.V2.Kernel.{Kernel, Documented}
use dynaswap.V2.Bimap.{Entry}
use dynaswap.V2.Slot.Valid.{IsValid}
use dynaswap.V2.Storage.Pages.{NotPos}
use dynaswap.V2.Context.{Params, Driver, dynaswap_write, dynaswap_read}
use dynaswap.V2.Context.View.{view, dynaswap_read_page, dynaswap_read-NotPos}
use dynaswap.V2.Context.Write.{Wrote, dynaswap_write-Wrote}
use dynaswap.V2.Device.{
  ReqOp, req_op_read, req_op_write, req_op_flush, BioVec, Request, perform_bvec, perform_bvecs,
  perform_rq,
}

-- A device is a page for each sector. A segment that is written replaces the page of its sector.
unfoldable pub store : {Page : Type 0} → List (BioVec Page) → (ℕ → Page) → ℕ → Page
store [] f j = f j
store (b ∷ bs) f j = store bs (λ i. if b.bi_sector == i then b.bv_page else f i) j

store-ext :
    {Page : Type 0} (bs : List (BioVec Page)) (f g : ℕ → Page) (j : ℕ)
    → ((i : ℕ) → f i ≡ g i)
    → store bs f j ≡ store bs g j
unfolding store
store-ext [] f g j h = h j
store-ext (b ∷ bs) f g j h = store-ext bs _ _ j λ i. ground (arith, h i)

-- A segment filled with a page.
abbrev pub filled : {Page : Type 0} → BioVec Page → Page → BioVec Page
filled b page = record b { bv_page = page }

-- The segments of a read that succeeds.
abbrev pub filled_from : {Page : Type 0} → (ℕ → Page) → List (BioVec Page) → List (BioVec Page)
filled_from f [] = []
filled_from f (b ∷ bs) = filled b (f b.bi_sector) ∷ filled_from f bs

module _ {World Page : Type 0} (k : Kernel World Page) (d : Documented k) (p : Params) where
  -- `blk_status_t` of a result that is not positive is 0 only for 0.
  status_zero : (x : ℤ) → NotPos x → is_neg x ≡ false → x ≡ pos 0
  status_zero (pos n) h e = ap pos (h n refl)
  status_zero (negsuc n) h e = ground arith

  status_of_neg : (x : ℤ) → is_neg x ≡ true → k.errno_to_blk_status x ≢ 0
  status_of_neg (pos n) e = ground arith
  status_of_neg (negsuc n) e = d.status_of_error n

  -- What a run over some segments of a write leaves.
  pub record Stored (es : List Entry) (v : Driver World) (bs : List (BioVec Page))
      (es' : List Entry) (r : ℕ × List (BioVec Page) × Driver World) : Type 0 where
    pub valid : IsValid k.hash es' r.2.slots
    pub others :
        (j : ℕ) → All (λ b. j ≢ b.bi_sector) bs → view k d es' r.2.world j ≡ view k d es v.world j
    pub stored : r.0 ≡ 0 → (j : ℕ) → view k d es' r.2.world j ≡ store bs (view k d es v.world) j

  -- The step of a segment that is written.
  pub write_bvec :
      (op : ReqOp) (b : BioVec Page) (v : Driver World)
      → (op ≡ req_op_write) ⊎ (op ≡ req_op_flush)
      → perform_bvec k p op b v ≡ (
        (dynaswap_write k p b.bi_sector b.bv_page v).0,
        b,
        (dynaswap_write k p b.bi_sector b.bv_page v).1,
      )
  unfolding perform_bvec
  write_bvec op b v (inl e) = rw e
  write_bvec op b v (inr e) = rw e

  -- The view after one segment that was written with success.
  after_one :
      (es es₁ : List Entry) (v : Driver World) (b : BioVec Page) (r : ℤ × Driver World) (i : ℕ)
      → Wrote k d es v b.bi_sector b.bv_page es₁ r
      → is_neg r.0 ≡ false
      → view k d es₁ r.1.world i ≡ (if b.bi_sector == i then b.bv_page else view k d es v.world i)
  after_one es es₁ v b r i one good = elim (ℕ_discrete b.bi_sector i) [
    | yes e ↦ rw (eq→== b.bi_sector i e, ← e) (one.written (status_zero r.0 one.sign good))
    | no ne ↦ rw (ne→== b.bi_sector i ne) (one.others i (λ q. ne (sym q)))
  ]

  perform_bvecs-Stored :
      (op : ReqOp) (bs : List (BioVec Page)) (es : List Entry) (v : Driver World)
      → (op ≡ req_op_write) ⊎ (op ≡ req_op_flush)
      → p.chunk_size_mb < 2 ^ 16
      → IsValid k.hash es v.slots
      → (es' : List Entry) × Stored es v bs es' (perform_bvecs k p op bs v)
  unfolding perform_bvecs store
  perform_bvecs-Stored op [] es v wr small h =
      (es, record { valid = h; others = λ j _. refl; stored = λ _ j. refl })
  perform_bvecs-Stored op (b ∷ bs) es v wr small h =
      let r = dynaswap_write k p b.bi_sector b.bv_page v in
      let (es₁, one) = dynaswap_write-Wrote k d p es v b.bi_sector b.bv_page small h in
      let (es₂, rest) = perform_bvecs-Stored op bs es₁ r.1 wr small one.valid in
      rw (write_bvec op b v wr) (elim (Bool-cases (is_neg r.0)) [
        | inl bad ↦ rw bad (
          es₁,
          record {
            valid = one.valid;
            others = λ j ne. one.others j ne.0;
            stored = λ ok. absurd (status_of_neg r.0 bad ok);
          },
        )
        | inr good ↦ rw good (
          es₂,
          record {
            valid = rest.valid;
            others = λ j ne. rest.others j ne.1 ∙ one.others j ne.0;
            stored = λ ok j.
                rest.stored ok j ∙ store-ext bs _ _ j (λ i. after_one es es₁ v b r i one good);
          },
        )
      ])

  -- A write or a flush, with a chunk size that fits its type. Whatever the status is, the driver
  -- stays in order and the sectors that the request does not name read as before. If the status is
  -- BLK_STS_OK, the device reads afterwards as if the first page of each segment had been stored
  -- in the segment's sector, in the order of the segments.
  pub perform_rq-Stored :
      (rq : Request Page) (es : List Entry) (v : Driver World)
      → (rq.op ≡ req_op_write) ⊎ (rq.op ≡ req_op_flush)
      → p.chunk_size_mb < 2 ^ 16
      → IsValid k.hash es v.slots
      → (es' : List Entry) × Stored es v rq.bvecs es' (perform_rq k p rq v)
  unfolding perform_rq
  perform_rq-Stored rq es v (inl e) small h =
      rw e (perform_bvecs-Stored req_op_write rq.bvecs es v (inl refl) small h)
  perform_rq-Stored rq es v (inr e) small h =
      rw e (perform_bvecs-Stored req_op_flush rq.bvecs es v (inr refl) small h)

  perform_bvecs-read :
      (bs : List (BioVec Page)) (es : List Entry) (v : Driver World)
      → IsValid k.hash es v.slots
      → let (status, segments, v') = perform_bvecs k p req_op_read bs v in
        (v' ≡ v) × (status ≡ 0 → segments ≡ filled_from (view k d es v.world) bs)
  unfolding perform_bvecs perform_bvec
  perform_bvecs-read [] es v h = (refl, λ ok. refl)
  perform_bvecs-read (b ∷ bs) es v h =
      let r = dynaswap_read k p b.bi_sector v in
      let (same, pages) = perform_bvecs-read bs es v h in
      elim (Bool-cases (is_neg r.0)) [
        | inl bad ↦ rw bad (refl, λ ok. absurd (status_of_neg r.0 bad ok))
        | inr good ↦
            let zero = status_zero r.0 (dynaswap_read-NotPos k d p v b.bi_sector) good in
            rw good (
              same,
              λ ok.
                  ap₂ ◌∷◌ (ap (filled b) (dynaswap_read_page k d p es v b.bi_sector h zero))
                    (pages ok),
            )
      ]

  -- A read changes nothing. If its status is BLK_STS_OK, each segment's page is what the device
  -- holds in the segment's sector.
  pub perform_rq-read :
      (rq : Request Page) (es : List Entry) (v : Driver World)
      → rq.op ≡ req_op_read
      → IsValid k.hash es v.slots
      → let (status, segments, v') = perform_rq k p rq v in
        (v' ≡ v) × (status ≡ 0 → segments ≡ filled_from (view k d es v.world) rq.bvecs)
  unfolding perform_rq
  perform_rq-read rq es v e h = rw e (perform_bvecs-read rq.bvecs es v h)
