-- ===== src/V2/Slot/Valid.antt =====
-- When a slot manager of src/driver/v2/fs/slot.c is in order.
use dynaswap.Base.{
  ℕ, ◌≤◌, ◌<◌, ◌^◌, ◌≡◌, refl, Bool, true, false, List, [], arith, All, count, pos, count-le, zero,
  suc,
}
use dynaswap.V2.Bimap.{Entry, init_bimap}
use dynaswap.V2.Bimap.Entries.{Holds, init_bimap-Holds}
use dynaswap.V2.Bimap.Lookup.{IsOneToOne}
use dynaswap.V2.Slot.{SlotManager, setup_slot_manager}

-- The mapped slots are among those marked in the bitmap, the marked ones lie below the total, which
-- the bitmap has room for, and the active count is their number.
pub record IsValid (hash : ℕ → ℕ) (es : List Entry) (m : SlotManager) : Type 0 where
  pub holds : Holds hash es m.slot_bimap
  pub one_to_one : IsOneToOne es
  pub marked : All (λ e. m.slot_bitmap e.slot ≡ true) es
  pub below : (i : ℕ) → m.slot_bitmap i ≡ true → i < m.total_slots
  pub counted : m.active_slots ≡ count m.total_slots m.slot_bitmap
  pub fits : m.total_slots ≤ m.bitmap_size
  pub small : m.bitmap_size < 2 ^ 52

pub count_empty : (n : ℕ) → count n (λ i. false) ≡ 0
count_empty zero = refl
count_empty (suc n) = count_empty n

-- `setup_slot_manager` leaves an empty manager in order, whatever the module argument is; it
-- returns 0 also where the cache of the bimap could not be created.
pub setup_slot_manager-IsValid :
    (hash : ℕ → ℕ) (gb : ℕ) (cache : Bool) (m : SlotManager)
    → let (status, m') = setup_slot_manager gb true cache m in
      (status ≡ pos 0) × IsValid hash [] m' × (m'.slot_bimap.entry_cache ≡ cache)
unfolding setup_slot_manager init_bimap
setup_slot_manager-IsValid hash gb cache m = (
  refl,
  record {
    holds = init_bimap-Holds hash cache;
    one_to_one = tt;
    marked = tt;
    below = λ i h. ground arith;
    counted = refl;
    fits = omega arith;
    small = omega arith;
  },
  refl,
)

-- No more slots are active than there are.
pub active-le-total :
    {hash : ℕ → ℕ} {es : List Entry} {m : SlotManager}
    → IsValid hash es m
    → m.active_slots ≤ m.total_slots
active-le-total {m = m} v = omega (arith, count-le m.total_slots m.slot_bitmap, v.counted)
