-- ===== src/V2/Main/Leaving.antt =====
-- The exit of src/driver/v2/main.c while work waits: `destroy_workqueue` comes last and runs what is
-- still in the queue.
use dynaswap.Base.{
  ℕ, ◌<◌, ◌^◌, ◌≡◌, refl, sym, subst, ap, if◌then◌else◌, Bool, true, false, List, [], ◌∷◌, ◌++◌,
  map, arith, pos,
}
use dynaswap.V2.Kernel.{Kernel, Documented}
use dynaswap.V2.Context.{Params}
use dynaswap.V2.Device.{Work, handle_rq, extend_work}
use dynaswap.V2.Device.Queue.{requests, extensions, flag}
use dynaswap.V2.Device.Events.{Event, InOrder, steps, steps-InOrder}
use dynaswap.V2.Main.{
  Answers, Module, Late, run_late, init_driver, remove, teardown_context, teardown_common,
  exit_driver,
}
use dynaswap.V2.Main.Init.{IsUnset, GivesErrors}
use dynaswap.V2.Main.Exit.{taken_calls, given_calls, init_driver-IsLoaded, torn_down}
use dynaswap.V2.Main.Loaded.{loaded, init_driver-driver, set_up-InOrder}

module _ {World Page : Type 0} (k : Kernel World Page) (p : Params) (gb : ℕ) (a : Answers) where
  no_work : (ws : List (Work Page)) → requests ws ≡ 0 → extensions ws ≡ 0 → ws ≡ []
  no_work [] none zero = refl
  no_work (handle_rq rq ∷ ws) none zero = absurd (omega (arith, none))
  no_work (extend_work ∷ ws) none zero = absurd (omega (arith, zero))

  one_extension :
      (ws : List (Work Page)) → requests ws ≡ 0 → extensions ws ≡ 1 → ws ≡ extend_work ∷ []
  one_extension [] none one = absurd (omega (arith, one))
  one_extension (handle_rq rq ∷ ws) none one = absurd (omega (arith, none))
  one_extension (extend_work ∷ ws) none one =
      ap (λ l. extend_work ∷ l) (no_work ws none (omega (arith, one)))

  -- The work that waits when no request does.
  idle_work :
      (queued : Bool) (ws : List (Work Page))
      → requests ws ≡ 0
      → extensions ws ≡ flag queued
      → ws ≡ (if queued then extend_work ∷ [] else [])
  idle_work true ws none e = one_extension ws none e
  idle_work false ws none e = no_work ws none e

  -- A driver that was initialised from nothing with status 0, with kernel errors that are negative
  -- and chunks that fit their type, is left after any requests and runs of its queue, when no request
  -- waits. If an extension is queued at that time, then it is all that is run late: by then the
  -- pointer to the backing file is cleared, and the calls made are those of the initialisation, the
  -- disk removed, the bitmap freed, write access given back, and the file closed and truncated. If
  -- none is queued, nothing is run late.
  pub exit_driver-late :
      (d : Documented k) (evs : List (Event Page)) (s : Module World)
      → IsUnset s
      → GivesErrors a
      → p.chunk_size_mb < 2 ^ 16
      → s.driver.extend_queued ≡ false
      → (init_driver k p gb a s).0 ≡ pos 0
      → let m = (init_driver k p gb a s).1 in
        let t = steps k p evs (loaded m.driver) in
        let late : Late Page = record {
          item = extend_work;
          backing_file = false;
          calls = taken_calls a ++ given_calls;
        } in
        requests t.work ≡ 0
        → (exit_driver k p gb a t.work (record m { driver = t.driver })).1
          ≡ (if t.driver.extend_queued then late ∷ [] else [])
  unfolding exit_driver teardown_common
  exit_driver-late d evs s u g small idle ok none =
      let m = (init_driver k p gb a s).1 in
      let t = steps k p evs (loaded m.driver) in
      let start =
        subst (λ v. InOrder k d p [] (loaded v)) (sym (init_driver-driver k p gb a s ok))
          (set_up-InOrder k p gb a d s small idle) in
      let (_, order) = steps-InOrder k d p evs [] (loaded m.driver) small start in
      let l = init_driver-IsLoaded k p gb a s u g ok in
      let (file, calls) = torn_down k p gb a (record m { driver = t.driver }) l.file l.calls in
      rw (idle_work t.driver.extend_queued t.work none order.queued) (
        by_flag t.driver.extend_queued
          (teardown_context k p gb a (remove k p gb a (record m { driver = t.driver }))) file calls)
    where
      by_flag :
          (b : Bool) (m : Module World)
          → m.storage.backing_file ≡ false
          → m.calls ≡ taken_calls a ++ given_calls
          → map (run_late {Page = Page} m) (if b then extend_work ∷ [] else []) ≡ (
              if b
              then record {
                item = extend_work;
                backing_file = false;
                calls = taken_calls a ++ given_calls;
              }
                ∷ []
              else [])
      by_flag true m file calls = rw (file, calls) refl
      by_flag false m file calls = refl
