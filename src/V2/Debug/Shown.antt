-- ===== src/V2/Debug/Shown.antt =====
-- The figures of src/driver/v2/fs/slot_debug.c, for a slot manager in order.
use dynaswap.Base.{
  ℕ, zero, suc, ◌+◌, ◌-◌, ◌*◌, ◌/◌, ◌^◌, ◌≤◌, ◌<◌, ◌≡◌, ◌↔◌, refl, sym, ap, subst, Bool-cases, inl,
  inr, ltb, ltb→lt, ◌∙◌, ℤ, pos, true, not, List, [], ◌++◌, arith, Bits, count, count-le,
  count_full, count_full_iff, length, length-append, cut_all, undecimal, undecimal-decimal,
  length-decimal, decimal, to_long, mul_ulong,
}
use native.Mathlib.Nat.{le-div_iff_mul-le, div-lt_iff_lt-mul}
use dynaswap.V2.Slot.{SlotManager}
use dynaswap.V2.Slot.Valid.{IsValid}
use dynaswap.V2.Bimap.{Entry}
use dynaswap.V2.Debug.{
  long_text, shown, newline, percent_newline, atomic_ulong_read_file, free_value,
  free_slots_read_file, div_long, usage_value, usage_percent_read_file, read_slot_file,
  total_slots_file, active_slots_file, free_slots_file, slot_usage_percent_file,
}

-- A text is that of a number, without a sign and before `end`, complete.
abbrev pub Shows : List ℕ → List ℕ → ℕ → Type 0
Shows text end n = (digits : List ℕ) × (text ≡ digits ++ end) × (undecimal 0 digits ≡ n)

count-not : (n : ℕ) (b : Bits) → count n (λ i. not (b i)) + count n b ≡ n
count-not zero b = refl
count-not (suc n) b = ground (arith, count-not n b)

shown-Shows :
    (end : List ℕ) (n : ℕ) → length end ≤ 12 → n < 10 ^ 19 → Shows (shown end (pos n)) end n
unfolding shown long_text
shown-Shows end n small h = (
  decimal 19 n [],
  cut_all 31 _ (omega (arith, length-append (decimal 19 n []) end, length-decimal 19 n [])),
  undecimal-decimal 19 n [] h,
)

to_long_small : (n : ℕ) → n < 2 ^ 63 → to_long n ≡ pos n
to_long_small n h = ground arith

free_value_lem :
    (m : SlotManager)
    → m.active_slots ≤ m.total_slots
    → m.total_slots < 2 ^ 52
    → free_value m ≡ pos (m.total_slots - m.active_slots)
unfolding free_value
free_value_lem m le lt =
    ground
      (arith, to_long_small m.active_slots (omega arith), to_long_small m.total_slots (omega arith))

usage_value_lem :
    (m : SlotManager)
    → m.active_slots ≤ m.total_slots
    → m.total_slots < 2 ^ 52
    → (p : ℕ) × (usage_value m ≡ pos p)
      × (p ≤ 100)
      × ((p ≡ 100) ↔ ((1 ≤ m.total_slots) × (m.active_slots ≡ m.total_slots)))
unfolding usage_value div_long
usage_value_lem m le lt = elim (Bool-cases (ltb 0 m.total_slots)) [
  | inl some_slots ↦
      let b_pos : 0 < m.total_slots = ltb→lt 0 m.total_slots some_slots in
      let p = mul_ulong m.active_slots 100 / m.total_slots in
      let exact : mul_ulong m.active_slots 100 ≡ m.active_slots * 100 = omega arith in
      let below : p < 101 = (div-lt_iff_lt-mul b_pos).1 (omega (arith, exact)) in
      let full : (100 ≤ p) ↔ (100 * m.total_slots ≤ mul_ulong m.active_slots 100) =
        le-div_iff_mul-le b_pos in
      (
        p,
        ground (
          arith,
          to_long_small m.total_slots (omega arith),
          to_long_small (mul_ulong m.active_slots 100) (omega arith),
        ),
        omega arith,
        (
          λ e. (omega arith, omega (arith, exact, full.0 (omega arith))),
          λ (_, e). omega (arith, full.1 (omega (arith, exact)), below),
        ),
      )
  | inr none ↦ (
    0,
    ground (arith, to_long_small m.total_slots (omega arith)),
    omega arith,
    (λ e. absurd (omega arith), λ (h, _). absurd (ground arith)),
  )
]

Shows-value :
    (end : List ℕ) (n : ℕ) (value : ℤ)
    → value ≡ pos n
    → length end ≤ 12
    → n < 10 ^ 19
    → Shows (shown end value) end n
Shows-value end n value e small h =
    subst (λ v. Shows (shown end v) end n) (sym e) (shown-Shows end n small h)

-- For a slot manager in order the four files show the total, the active slots, the free ones, which are the clear bits, and the
-- share of the active ones in percent, at most 100 and 100 exactly if all slots are in use.
pub read_slot_file_lem :
    (hash : ℕ → ℕ) (es : List Entry) (m : SlotManager)
    → IsValid hash es m
    → Shows (read_slot_file total_slots_file m) newline m.total_slots
      × Shows (read_slot_file active_slots_file m) newline (count m.total_slots m.slot_bitmap)
      × Shows
          (read_slot_file free_slots_file m)
          newline
          (count m.total_slots (λ i. not (m.slot_bitmap i)))
      × ((p : ℕ) × Shows (read_slot_file slot_usage_percent_file m) percent_newline p
          × (p ≤ 100)
          × ((p ≡ 100)
              ↔ ((1 ≤ m.total_slots) × ((i : ℕ) → i < m.total_slots → m.slot_bitmap i ≡ true))))
unfolding read_slot_file atomic_ulong_read_file free_slots_read_file usage_percent_read_file
read_slot_file_lem hash es m v =
    let bits = count m.total_slots m.slot_bitmap in
    let le : m.active_slots ≤ m.total_slots =
      omega (arith, v.counted, count-le m.total_slots m.slot_bitmap) in
    let lt : m.total_slots < 2 ^ 52 = omega (arith, v.fits, v.small) in
    let (p, value, bound, all) = usage_value_lem m le lt in
    (
      Shows-value newline m.total_slots _ (to_long_small m.total_slots (omega arith)) (omega arith)
          (omega arith),
      Shows-value newline bits _
          (ap to_long v.counted ∙ to_long_small bits (omega (arith, v.counted))) (omega arith)
          (omega (arith, v.counted)),
      Shows-value newline (count m.total_slots (λ i. not (m.slot_bitmap i))) _
          (free_value_lem m le lt
            ∙ ap pos (omega (arith, v.counted, count-not m.total_slots m.slot_bitmap)))
          (omega arith) (omega (arith, count-not m.total_slots m.slot_bitmap)),
      (
        p,
        Shows-value percent_newline p _ value (omega arith) (omega arith),
        bound,
        (
          λ e. (
            (all.0 e).0,
            λ i h. count_full_iff m.total_slots i m.slot_bitmap (sym v.counted ∙ (all.0 e).1) h,
          ),
          λ (one, set). all.1 (one, v.counted ∙ count_full m.total_slots m.slot_bitmap set),
        ),
      ),
    )
