-- ===== src/V1/Module/Serving.antt =====
-- The module of src/driver/src/dynaswap_drv.c from loading on: the disk it adds and the map behind
-- it fit together.
use dynaswap.Base.{
  ℕ, ◌+◌, ◌/◌, ◌^◌, ◌≤◌, ◌<◌, ◌≡◌, refl, sym, ap, ◌∷◌, ◌∙◌, ℤ, pos, [], arith, All, All-map,
  nonzero_iff,
}
use dynaswap.V2.Kernel.{Kernel, Documented}
use dynaswap.V1.Dynamap.Discard.{PunchesPage}
use dynaswap.V1.Driver.{Segment, DriverRequest}
use dynaswap.V1.Driver.Kept.{InRange}
use dynaswap.V1.Driver.Queue.{Served, Run, start, taken, refused, ran, extended, asked}
use dynaswap.V1.Driver.Served.{OnDevice, IsServed, Run-IsServed}
use dynaswap.V1.Setup.{nr_dirs}
use dynaswap.V1.Setup.Fresh.{fresh, fresh-IsReady, nr_dirs_covers}
use dynaswap.V1.Module.{
  ModuleAnswers, ModuleState, total_capacity, capacity_sectors, dynaswap_module_init,
}
use dynaswap.V1.Module.Ends.{
  unloaded, GivesMajor, ModuleOutcome, loaded, not_added, not_prepared, IsLoaded,
}
use dynaswap.V1.Module.Outcome.{dynaswap_module_init-outcome}

-- The block layer sends requests within the capacity that was set.
pub record WithinCapacity {Page : Type 0} (capacity : ℕ) (rq : DriverRequest Page) : Type 0 where
  pub segments : All (λ (b : Segment Page). b.segment_sector < capacity) rq.segments
  pub sectors : rq.start + rq.nr_sectors ≤ capacity

-- Nothing has arrived yet.
abbrev pub idle : {World Page : Type 0} → ModuleState → World → Served World Page
idle s w = record { map = fresh s.dynamap w; waiting = []; answers = []; started = 0 }

capacity_covered :
    (gb sector : ℕ)
    → gb < 2 ^ 32
    → sector < capacity_sectors gb
    → sector / 8 / 512 < nr_dirs (total_capacity gb)
capacity_covered gb sector small h = nr_dirs_covers (total_capacity gb) sector (omega arith)

pub is_loaded :
    (gb : ℕ) (a : ModuleAnswers) (r : ℤ × ModuleState)
    → ModuleOutcome gb a r
    → r.0 ≡ pos 0
    → IsLoaded gb r.1
is_loaded gb a r (loaded p z e l) h = l
is_loaded gb a r (not_added p z e u b) h = absurd ((nonzero_iff _).0 z (sym e ∙ h))
is_loaded gb a r (not_prepared p z u b) h = absurd ((nonzero_iff _).0 z h)

module _ {World Page : Type 0} (k : Kernel World Page) (d : Documented k)
    (punch_hole : ℕ → World → ℤ × World) (trigger chunk : ℕ) where
  pub Run-map :
      (P Q : DriverRequest Page → Type 0) (s : Served World Page) {n m : ℕ} (t : Served World Page)
      → ((rq : DriverRequest Page) → P rq → Q rq)
      → Run k punch_hole trigger chunk P s n m t
      → Run k punch_hole trigger chunk Q s n m t
  Run-map P Q s t f start = start
  Run-map P Q s t f (taken {t = u} rq r on) = taken rq (Run-map P Q s u f r) (f rq on)
  Run-map P Q s t f (refused {t = u} rq r on) = refused rq (Run-map P Q s u f r) (f rq on)
  Run-map P Q s t f (ran {t = u} before after rq r e) = ran before after rq (Run-map P Q s u f r) e
  Run-map P Q s t f (extended {t = u} r q) = extended (Run-map P Q s u f r) q

  pub asked-map :
      (P Q : DriverRequest Page → Type 0) (s : Served World Page) {n m : ℕ} (t : Served World Page)
      (f : (rq : DriverRequest Page) → P rq → Q rq) (r : Run k punch_hole trigger chunk P s n m t)
      → asked k punch_hole trigger (Run-map P Q s t f r) ≡ asked k punch_hole trigger r
  unfolding Run-map
  asked-map P Q s t f start = refl
  asked-map P Q s t f (taken {t = u} rq r on) = ap (λ l. rq ∷ l) (asked-map P Q s u f r)
  asked-map P Q s t f (refused {t = u} rq r on) = asked-map P Q s u f r
  asked-map P Q s t f (ran {t = u} before after rq r e) = asked-map P Q s u f r
  asked-map P Q s t f (extended {t = u} r q) = asked-map P Q s u f r

  -- A request within the capacity that was set lies on the device.
  pub within-OnDevice :
      (gb : ℕ) (s : ModuleState) (rq : DriverRequest Page)
      → gb < 2 ^ 32
      → IsLoaded gb s
      → WithinCapacity s.capacity rq
      → OnDevice k d punch_hole trigger chunk (nr_dirs (total_capacity gb)) rq
  within-OnDevice gb s rq small l h =
      let n = nr_dirs (total_capacity gb) in
      record {
        segments =
            All-map _ (InRange k d punch_hole trigger n) rq.segments
              (λ b lt. capacity_covered gb b.segment_sector small (omega (arith, lt, l.capacity)))
              h.segments;
        sectors = omega (arith, h.sectors, l.capacity);
      }

  -- Once the module is loaded with status 0, for fewer than 2 ^ 32 gigabytes, with major numbers that
  -- are positive and holes of one page: whatever requests within the capacity arrive and in whatever
  -- order the work runs, the table stays in order with its directories, the waiting requests lie on
  -- the device, and each started request waits, was answered once, or was refused.
  pub init-IsServed :
      (gb : ℕ) (a : ModuleAnswers) (w : World) (accepted rejected : ℕ) (t : Served World Page)
      → GivesMajor a
      → gb < 2 ^ 32
      → PunchesPage k d punch_hole
      → (dynaswap_module_init gb a unloaded).0 ≡ pos 0
      → let s = (dynaswap_module_init gb a unloaded).1 in
        Run k punch_hole trigger chunk (WithinCapacity s.capacity) (idle s w) accepted rejected t
        → IsServed k d punch_hole trigger chunk
            (nr_dirs (total_capacity gb))
            (idle s w)
            accepted
            rejected
            t
  init-IsServed gb a w accepted rejected t gm small pd e r =
      let s = (dynaswap_module_init gb a unloaded).1 in
      let l : IsLoaded gb s = is_loaded gb a _ (dynaswap_module_init-outcome gb a gm) e in
      let n = nr_dirs (total_capacity gb) in
      Run-IsServed k d punch_hole trigger chunk n (idle s w) t pd
        (fresh-IsReady (total_capacity gb) _ s.dynamap w (omega arith) l.map) tt
        (Run-map (WithinCapacity s.capacity) (OnDevice k d punch_hole trigger chunk n) (idle s w) t
          (λ rq. within-OnDevice gb s rq small l) r)
