-- ===== src/V2/Device/Granted.antt =====
-- What a request of src/driver/v2/device.c gets as long as the kernel grants what it is asked for.
use dynaswap.Base.{
  ℕ, ◌*◌, ◌<◌, ◌^◌, ◌≡◌, refl, ◌≢◌, ◌⊎◌, inl, inr, List, [], ◌∷◌, none, arith, pos, All,
}
use dynaswap.V2.Kernel.{Kernel, Documented}
use dynaswap.V2.Bimap.{Entry}
use dynaswap.V2.Slot.{find_slot_sector, clear_slot_sector_range}
use dynaswap.V2.Slot.Valid.{IsValid}
use dynaswap.V2.Storage.{read_storage, offset_of}
use dynaswap.V2.Context.{
  Params, Driver, slot_value, dynaswap_write, dynaswap_read, dynaswap_discard,
}
use dynaswap.V2.Context.Write.{dynaswap_write-Wrote}
use dynaswap.V2.Context.Room.{HasRoom, dynaswap_write-HasRoom}
use dynaswap.V2.Device.Requests.{write_bvec}
use dynaswap.V2.Device.{
  ReqOp, req_op_read, req_op_write, req_op_flush, req_op_discard, req_op_other, BioVec, Request,
  perform_bvec, perform_bvecs, perform_rq,
}

module _ {World Page : Type 0} (k : Kernel World Page) where
  -- Memory is found, and whole pages are read, written and synced.
  pub record GrantsAll : Type 0 where
    pub memory : (u : World) → (k.kmem_cache_alloc u).0 ≢ none
    pub reads : (o : ℕ) (u : World) → (k.kernel_read o u).0 ≡ pos 4096
    pub writes : (page : Page) (o : ℕ) (u : World) → (k.kernel_write page o u).0 ≡ pos 4096
    pub syncs : (f l : ℕ) (u : World) → (k.vfs_fsync_range f l u).0 ≡ pos 0

-- A segment that is one page of a device of `n` pages: it starts at a page and has no further page.
abbrev pub IsPage : {Page : Type 0} → ℕ → BioVec Page → Type 0
IsPage n b = ((i : ℕ) × (i < n) × (b.bi_sector ≡ 8 * i)) × (b.bv_rest ≡ [])

-- The code knows the operation, and each segment is a page of the device.
abbrev pub IsWithin : {Page : Type 0} → ℕ → ReqOp → List (BioVec Page) → Type 0
IsWithin n req_op_write bs = All (IsPage n) bs
IsWithin n req_op_flush bs = All (IsPage n) bs
IsWithin n req_op_read bs = All (IsPage n) bs
IsWithin n req_op_discard bs = Unit
IsWithin n (req_op_other o) bs = ⊥

module _ {World Page : Type 0} (k : Kernel World Page) (p : Params) where
  read_zero : (sector : ℕ) (v : Driver World) → GrantsAll k → (dynaswap_read k p sector v).0 ≡ pos 0
  unfolding dynaswap_read read_storage
  read_zero sector v gr =
      let slot = slot_value (find_slot_sector k sector v.slots).1 in
      ground (arith, gr.reads (offset_of slot) v.world)

  read_bvecs :
      (bs : List (BioVec Page)) (v : Driver World)
      → GrantsAll k
      → let (status, segments, v') = perform_bvecs k p req_op_read bs v in (status ≡ 0) × (v' ≡ v)
  unfolding perform_bvecs perform_bvec
  read_bvecs [] v gr = (refl, refl)
  read_bvecs (b ∷ bs) v gr = rw (read_zero b.bi_sector v gr) (read_bvecs bs v gr)

module _ {World Page : Type 0} (k : Kernel World Page) (d : Documented k) (p : Params)
    (gr : GrantsAll k) (some_mb : 0 < p.chunk_size_mb) (small : p.chunk_size_mb < 2 ^ 16) where
  write_granted :
      (n : ℕ) (es : List Entry) (v : Driver World) (b : BioVec Page)
      → IsPage n b
      → IsValid k.hash es v.slots
      → HasRoom k n v.slots
      → let (status, v') = dynaswap_write k p b.bi_sector b.bv_page v in
        (status ≡ pos 0) × HasRoom k n v'.slots
  write_granted n es v b ((i, lt, e), single) h r = rw e (
      dynaswap_write-HasRoom k d p n i es v b.bv_page some_mb small h r lt gr.memory
        (λ u o. gr.writes b.bv_page o u) (λ u f l. gr.syncs f l u))

  bvecs-Granted :
      (n : ℕ) (op : ReqOp) (bs : List (BioVec Page)) (es : List Entry) (v : Driver World)
      → (op ≡ req_op_write) ⊎ (op ≡ req_op_flush)
      → All (IsPage n) bs
      → IsValid k.hash es v.slots
      → HasRoom k n v.slots
      → let (status, segments, v') = perform_bvecs k p op bs v in
        (status ≡ 0) × HasRoom k n v'.slots
  unfolding perform_bvecs
  bvecs-Granted n op [] es v wr pages h r = (refl, r)
  bvecs-Granted n op (b ∷ bs) es v wr (page, pages) h r =
      let (ok, r₁) = write_granted n es v b page h r in
      let (es₁, one) = dynaswap_write-Wrote k d p es v b.bi_sector b.bv_page small h in
      rw (write_bvec k d p op b v wr, ok) (bvecs-Granted n op bs es₁ _ wr pages one.valid r₁)

  -- A request that the code knows succeeds, if what it stores are pages of the device, and keeps
  -- room for all pages of the device.
  pub perform_rq-Granted :
      (n : ℕ) (rq : Request Page) (es : List Entry) (v : Driver World)
      → IsWithin n rq.op rq.bvecs
      → IsValid k.hash es v.slots
      → HasRoom k n v.slots
      → let (status, segments, v') = perform_rq k p rq v in (status ≡ 0) × HasRoom k n v'.slots
  unfolding perform_rq dynaswap_discard clear_slot_sector_range
  perform_rq-Granted n rq es v within h r = by_op rq.op refl within
    where
      by_op :
          (op : ReqOp)
          → rq.op ≡ op
          → IsWithin n op rq.bvecs
          → let (status, segments, v') = perform_rq k p rq v in (status ≡ 0) × HasRoom k n v'.slots
      by_op req_op_write e w = rw e (bvecs-Granted n req_op_write rq.bvecs es v (inl refl) w h r)
      by_op req_op_flush e w = rw e (bvecs-Granted n req_op_flush rq.bvecs es v (inr refl) w h r)
      by_op req_op_read e w = let (ok, same) = read_bvecs k p rq.bvecs v gr in rw e (ok, rw same r)
      by_op req_op_discard e w = rw e (d.status_of_zero, r)
      by_op (req_op_other o) e w = absurd w
