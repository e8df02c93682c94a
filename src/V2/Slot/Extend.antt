-- ===== src/V2/Slot/Extend.antt =====
-- The counters of src/driver/v2/fs/slot.c: when more slots are asked for, and how many are added.
use dynaswap.Base.{
  ℕ, ◌+◌, ◌*◌, ◌/◌, ◌≤◌, ◌<◌, ◌^◌, ◌≡◌, sym, ◌∙◌, ◌↔◌, List, [], ◌∷◌, arith, All, count_grow,
  mul_ulong,
}
use Prim.Native.Nat.{min}
use native.Mathlib.Nat.{le-div_iff_mul-le}
use native.Mathlib.Decide.{dec_lt}
use dynaswap.V2.Bimap.{Entry}
use dynaswap.V2.Slot.{
  SlotManager, extend_needed, extend_required, slot_manager_needs_extend, extend_slots, extend_loop,
  target_slots,
}
use dynaswap.V2.Slot.Valid.{IsValid, active-le-total}

pub target_slots_lem :
    (max new old : ℕ)
    → max < 2 ^ 52
    → new < 2 ^ 24
    → old < max
    → target_slots max new old ≡ min (old + new) max
unfolding target_slots
target_slots_lem max new old hm hn ho = ground arith

-- With no other processor at the counter, `extend_slots` adds the new slots, up to the size of the
-- bitmap.
pub extend_slots_alone :
    (new : ℕ) (m : SlotManager)
    → m.bitmap_size < 2 ^ 52
    → new < 2 ^ 24
    → m.total_slots ≤ m.bitmap_size
    → extend_slots [] new m ≡ record m { total_slots = min (m.total_slots + new) m.bitmap_size }
unfolding extend_slots extend_loop
extend_slots_alone new m hm hn ht =
    ground (arith, target_slots_lem m.bitmap_size new m.total_slots hm hn)

-- Whatever other processors store in the counter meanwhile, as long as it is within the bitmap, the
-- loop leaves a total within the bitmap.
pub extend_loop-le :
    (max new : ℕ) (others : List ℕ) (old : ℕ)
    → max < 2 ^ 52
    → new < 2 ^ 24
    → old ≤ max
    → All (λ x. x ≤ max) others
    → extend_loop max new others old ≤ max
unfolding extend_loop
extend_loop-le max new [] old hm hn ho h = ground (arith, target_slots_lem max new old hm hn)
extend_loop-le max new (x ∷ others) old hm hn ho h =
    ground
      (arith, target_slots_lem max new old hm hn, extend_loop-le max new others x hm hn h.0 h.1)

-- The test of the share, with no overflow: `t` percent of the total.
percent_lem :
    (t active total : ℕ)
    → 0 < total
    → active < 2 ^ 52
    → (t ≤ mul_ulong active 100 / total) ↔ (t * total ≤ 100 * active)
percent_lem t active total h small =
    let e : mul_ulong active 100 ≡ 100 * active = omega arith in rw e (le-div_iff_mul-le h)

-- More slots are required exactly if no slot is free, and otherwise needed exactly if the share of
-- active slots, in whole percent, has reached the threshold.
pub needs_extend_lem :
    (threshold : ℕ) (hash : ℕ → ℕ) (es : List Entry) (m : SlotManager)
    → IsValid hash es m
    → ((slot_manager_needs_extend threshold m ≡ extend_required) ↔ (m.active_slots ≡ m.total_slots))
      × ((slot_manager_needs_extend threshold m ≡ extend_needed)
          ↔ ((m.active_slots < m.total_slots) × (threshold * m.total_slots ≤ 100 * m.active_slots)))
unfolding slot_manager_needs_extend
needs_extend_lem threshold hash es m v =
    let le = active-le-total v in
    let small : m.active_slots < 2 ^ 52 = omega (arith, le, v.fits, v.small) in
    let share =
      λ (p : 0 < m.total_slots). percent_lem threshold m.active_slots m.total_slots p small in
    elim (dec_lt 0 m.total_slots) [
      | yes p ↦ (
        (λ h. ground (arith, le), λ h. ground (arith, le)),
        (λ h. ground (arith, le, (share p).0), λ h. ground (arith, le, (share p).1)),
      )
      | no p ↦ (
        (λ h. ground (arith, le), λ h. ground (arith, le)),
        (λ h. ground (arith, le), λ h. ground (arith, le)),
      )
    ]

-- Growing keeps the manager in order.
pub extend_slots-IsValid :
    (hash : ℕ → ℕ) (es : List Entry) (new : ℕ) (m : SlotManager)
    → new < 2 ^ 24
    → IsValid hash es m
    → IsValid hash es (extend_slots [] new m)
extend_slots-IsValid hash es new m hn v = rw (extend_slots_alone new m v.small hn v.fits) (record {
  holds = v.holds;
  one_to_one = v.one_to_one;
  marked = v.marked;
  below = λ i h. omega (arith, v.below i h, v.fits);
  counted = v.counted ∙ sym (count_grow m.total_slots _ m.slot_bitmap (omega arith) v.below);
  fits = omega arith;
  small = v.small;
})
