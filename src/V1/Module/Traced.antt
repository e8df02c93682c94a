-- ===== src/V1/Module/Traced.antt =====
-- The disk of src/driver/src/dynaswap_drv.c from loading on: what it answers, with the page table of
-- src/driver/src/dynamap.c behind it.
use dynaswap.Base.{ℕ, ◌^◌, ◌<◌, ◌≡◌, refl, subst, ◌∙◌, ℤ, pos, List, [], ◌++◌, arith}
use mathlib.Core.List.{Perm, append-nil}
use dynaswap.V2.Kernel.{Kernel, Documented}
use dynaswap.V1.Dynamap.Discard.{PunchesPage}
use dynaswap.V1.Dynamap.View.{view, view_unmapped}
use dynaswap.V1.Driver.{DriverRequest}
use dynaswap.V1.Driver.History.{SamePages}
use dynaswap.V1.Driver.Queue.{Served, Run, asked}
use dynaswap.V1.Driver.Served.{OnDevice}
use dynaswap.V1.Driver.Traced.{Completed, requests, Traced, History-from, Run-Traced}
use dynaswap.V1.Setup.{nr_dirs, fresh_ctx}
use dynaswap.V1.Setup.Fresh.{fresh, fresh-IsReady}
use dynaswap.V1.Module.{ModuleAnswers, ModuleState, total_capacity, dynaswap_module_init}
use dynaswap.V1.Module.Ends.{unloaded, GivesMajor, IsLoaded}
use dynaswap.V1.Module.Outcome.{dynaswap_module_init-outcome}
use dynaswap.V1.Module.Serving.{
  WithinCapacity, idle, is_loaded, within-OnDevice, Run-map, asked-map,
}
use dynaswap.V1.Threads.Steps.{WritesWhole}

module _ {World Page : Type 0} (k : Kernel World Page) (d : Documented k)
    (punch_hole : ℕ → World → ℤ × World) (trigger chunk : ℕ) where
  -- A map that was just made holds zeros.
  fresh-view :
      (s : ModuleState) (w : World) → SamePages (λ j. k.zero_page) (view k d (fresh s.dynamap w))
  unfolding fresh_ctx
  fresh-view s w j = view_unmapped k d (fresh s.dynamap w) j refl

  -- Once the module is loaded with status 0, for fewer than 2 ^ 32 gigabytes, with major numbers that
  -- are positive, holes of one page and writes of whole pages: whatever requests within the capacity
  -- arrive and in whatever order their work runs, each request that was taken was ended once or
  -- waits, and the answers, with the segments that reads
  -- have filled, are those of a disk of zeros that serves the ended requests one after
  -- the other. A read gives the page of that disk or BLK_STS_IOERR with zeros, a write stores its
  -- page or gives BLK_STS_NOSPC, the status being that of the last segment, a discard leaves
  -- zeros, and nothing else changes a page.
  pub module_init-Traced :
      (gb : ℕ) (a : ModuleAnswers) (w : World) {accepted rejected : ℕ} (t : Served World Page)
      → GivesMajor a
      → gb < 2 ^ 32
      → WritesWhole k d
      → PunchesPage k d punch_hole
      → (dynaswap_module_init gb a unloaded).0 ≡ pos 0
      → let s = (dynaswap_module_init gb a unloaded).1 in
        (r : Run k punch_hole trigger chunk
          (WithinCapacity s.capacity)
          (idle s w)
          accepted
          rejected
          t)
        → (done : List (Completed Page)) × Traced k d punch_hole trigger chunk
            (nr_dirs (total_capacity gb))
            (λ j. k.zero_page)
            []
            (asked k punch_hole trigger r)
            done
            t
  module_init-Traced gb a w t gm small ww pd e r =
      let s = (dynaswap_module_init gb a unloaded).1 in
      let n = nr_dirs (total_capacity gb) in
      let l : IsLoaded gb s = is_loaded gb a _ (dynaswap_module_init-outcome gb a gm) e in
      let on : (rq : DriverRequest Page)
          → WithinCapacity s.capacity rq
          → OnDevice k d punch_hole trigger chunk n rq =
        λ rq. within-OnDevice k d punch_hole trigger chunk gb s rq small l in
      let (done, i) =
        Run-Traced k d punch_hole trigger chunk n (idle s w) t ww pd
          (fresh-IsReady (total_capacity gb) _ s.dynamap w (omega arith) l.map) tt
          (Run-map k d punch_hole trigger chunk (WithinCapacity s.capacity)
            (OnDevice k d punch_hole trigger chunk n) (idle s w) t on r) in
      (
        done,
        record {
          answered = i.answered;
          each_once =
              subst (λ u. Perm (requests done ++ t.waiting) u)
                (append-nil (
                    asked k punch_hole trigger (
                      Run-map k d punch_hole trigger chunk (WithinCapacity s.capacity)
                        (OnDevice k d punch_hole trigger chunk n) (idle s w) t on r))
                  ∙ asked-map k d punch_hole trigger chunk _ _ (idle s w) t on r)
                i.each_once;
          history = History-from k.zero_page (fresh-view s w) done _ i.history;
        },
      )
