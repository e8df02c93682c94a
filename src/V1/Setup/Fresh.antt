-- ===== src/V1/Setup/Fresh.antt =====
-- The map that dynamap_init of src/driver/src/dynamap.c leaves is in order for each sector of the
-- device.
use dynaswap.Base.{ℕ, ◌*◌, ◌/◌, ◌^◌, ◌<◌, refl, arith}
use dynaswap.V1.Setup.{fresh_ctx, nr_dirs}
use dynaswap.V1.Cleanup.{MapSetup}
use dynaswap.V1.Setup.Outcome.{IsSetUp}
use dynaswap.V1.Dynamap.{Dynamap}
use dynaswap.V1.Driver.Kept.{IsReady}

-- The map at the first request.
abbrev pub fresh : {World : Type 0} → MapSetup → World → Dynamap World
fresh t w = record { ctx = fresh_ctx t; world = w; extend_queued = t.work_queued }

pub fresh-IsReady :
    {World : Type 0} (capacity : ℕ) (s t : MapSetup) (w : World)
    → capacity < 2 ^ 64
    → IsSetUp capacity s t
    → IsReady (nr_dirs capacity) (fresh t w)
unfolding fresh_ctx
fresh-IsReady capacity s t w small u = record {
  valid = record {
    one_to_one = λ i j m e. absurd (m refl);
    marked = λ i m. absurd (m refl);
    dirs = λ i m. absurd (m refl);
    owned = λ p m. ground arith;
    below = λ p m. ground arith;
    counted = refl;
    fits = omega arith;
    small = omega (arith, u.max_count);
  };
  dirs = u.dirs;
}

-- Each sector of the device has its directory.
pub nr_dirs_covers :
    (capacity sector : ℕ) → sector < capacity / 4096 * 8 → sector / 8 / 512 < nr_dirs capacity
nr_dirs_covers capacity sector h = omega arith
