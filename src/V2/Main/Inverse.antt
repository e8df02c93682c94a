-- ===== src/V2/Main/Inverse.antt =====
-- The two tables of src/driver/v2/utils/bimap.c in a driver at work.
use dynaswap.Base.{ℕ, ◌<◌, ◌^◌, ◌≡◌, ◌↔◌, sym, subst, false, List, [], some, pos}
use dynaswap.V2.Kernel.{Kernel, Documented}
use dynaswap.V2.Bimap.{find_by_sector, find_by_slot}
use dynaswap.V2.Bimap.Lookup.{find_by_sector_iff_slot}
use dynaswap.V2.Context.{Params}
use dynaswap.V2.Device.Events.{Event, InOrder, steps, steps-InOrder}
use dynaswap.V2.Main.{Answers, Module, init_driver}
use dynaswap.V2.Main.Loaded.{loaded, init_driver-driver, set_up-InOrder}

module _ {World Page : Type 0} (k : Kernel World Page) (p : Params) (gb : ℕ) (a : Answers) where
  -- In a driver that was initialised with status 0, with no extension queued and chunks that fit
  -- their type, after any requests and runs of its queue, failed ones included: looking a sector up
  -- gives a slot exactly if looking that slot up gives the sector.
  pub steps_inverse :
      (d : Documented k) (evs : List (Event Page)) (s : Module World) (sector slot : ℕ)
      → p.chunk_size_mb < 2 ^ 16
      → s.driver.extend_queued ≡ false
      → (init_driver k p gb a s).0 ≡ pos 0
      → let m =
          (steps k p evs (loaded (init_driver k p gb a s).1.driver)).driver.slots.slot_bimap in
        (find_by_sector k.hash sector m ≡ (pos 0, some slot))
        ↔ (find_by_slot k.hash slot m ≡ (pos 0, some sector))
  steps_inverse d evs s sector slot small idle ok =
      let v = (init_driver k p gb a s).1.driver in
      let start =
        subst (λ v. InOrder k d p [] (loaded v)) (sym (init_driver-driver k p gb a s ok))
          (set_up-InOrder k p gb a d s small idle) in
      let (es, order) = steps-InOrder k d p evs [] (loaded v) small start in
      find_by_sector_iff_slot k.hash es _ sector slot order.valid.holds order.valid.one_to_one
