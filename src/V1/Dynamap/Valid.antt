-- ===== src/V1/Dynamap/Valid.antt =====
-- The invariant of the table of src/driver/src/dynamap.c.
use dynaswap.Base.{
  ℕ, zero, suc, ◌/◌, ◌%◌, ◌^◌, ◌≤◌, ◌<◌, ◌≡◌, ◌≢◌, refl, sym, ap, ◌∙◌, true, false, ◌==◌, arith,
  ◌⊎◌, inl, inr, Bool-cases, ==→eq, ==→ne, Bits, count, count-set, count-le,
}
use dynaswap.V1.Dynamap.{DynamapCtx, no_slot, put_entry, clear_bit, take_slot, drop_slot}

-- The slot of a page of the device, or `no_slot`.
abbrev pub entry : DynamapCtx → ℕ → ℕ
entry c i = c.virt_to_phys_map (i / 512) (i % 512)

-- Each mapped page has a slot of its own, which is marked; each marked slot belongs to a page; the
-- marked slots lie below the total, and the active count is their number.
pub record IsValid (c : DynamapCtx) : Type 0 where
  pub one_to_one : (i j : ℕ) → entry c i ≢ no_slot → entry c i ≡ entry c j → i ≡ j
  pub marked : (i : ℕ) → entry c i ≢ no_slot → c.slot_bitmap (entry c i) ≡ true
  pub dirs : (i : ℕ) → entry c i ≢ no_slot → c.has_dir (i / 512) ≡ true
  pub owned : (p : ℕ) → c.slot_bitmap p ≡ true → (i : ℕ) × (entry c i ≡ p)
  pub below : (p : ℕ) → c.slot_bitmap p ≡ true → p < c.total_slots
  pub counted : c.active_slots ≡ count c.total_slots c.slot_bitmap
  pub fits : c.total_slots ≤ c.slot_max_count
  pub small : c.slot_max_count < 2 ^ 52

-- A table entry that is changed, and the others.
pub put_entry-same :
    (i v : ℕ) (t : ℕ → ℕ → ℕ) → put_entry (i / 512) (i % 512) v t (i / 512) (i % 512) ≡ v
put_entry-same i v t = ground arith

pub put_entry-other :
    (i j v : ℕ) (t : ℕ → ℕ → ℕ)
    → i ≢ j
    → put_entry (i / 512) (i % 512) v t (j / 512) (j % 512) ≡ t (j / 512) (j % 512)
put_entry-other i j v t ne = ground arith

pub put_entry_cases :
    (i v : ℕ) (t : ℕ → ℕ → ℕ) (a : ℕ)
    → let new = put_entry (i / 512) (i % 512) v t (a / 512) (a % 512) in
      ((a ≡ i) × (new ≡ v)) ⊎ ((a ≢ i) × (new ≡ t (a / 512) (a % 512)))
put_entry_cases i v t a = elim (Bool-cases (a == i)) [
  | inl e ↦ inl (==→eq a i e, ground (arith, ==→eq a i e))
  | inr e ↦ inr (==→ne a i e, ground (arith, ==→ne a i e))
]

count-clear_above : (n i : ℕ) (b : Bits) → n ≤ i → count n (clear_bit i b) ≡ count n b
count-clear_above zero i b h = refl
count-clear_above (suc n) i b h = ground (arith, count-clear_above n i b)

-- A bit that was set lowers the count by one.
pub count-clear :
    (n i : ℕ) (b : Bits) → i < n → b i ≡ true → suc (count n (clear_bit i b)) ≡ count n b
count-clear zero i b h z = absurd (omega arith)
count-clear (suc n) i b h z = ground (arith, count-clear n i b, count-clear_above n i b)

pub take_slot-IsValid :
    (i p : ℕ) (c : DynamapCtx)
    → IsValid c
    → entry c i ≡ no_slot
    → c.has_dir (i / 512) ≡ true
    → p < c.total_slots
    → c.slot_bitmap p ≡ false
    → IsValid (take_slot (i / 512) (i % 512) p c)
unfolding take_slot
take_slot-IsValid i p c v e hd lt free = record {
  one_to_one = λ a b m q. elim (cases a) [
    | inl (ea, na) ↦ elim (cases b) [
      | inl (eb, _) ↦ ea ∙ sym eb
      | inr (_, nb) ↦ absurd (not_taken b (sym nb ∙ sym q ∙ na))
    ]
    | inr (_, na) ↦ elim (cases b) [
      | inl (_, nb) ↦ absurd (not_taken a (sym na ∙ q ∙ nb))
      | inr (_, nb) ↦ v.one_to_one a b (λ z. m (na ∙ z)) (sym na ∙ q ∙ nb)
    ]
  ];
  marked = λ a m. elim (cases a) [
    | inl (_, na) ↦ ground (arith, na)
    | inr (_, na) ↦ ground (arith, na, v.marked a (λ z. m (na ∙ z)))
  ];
  dirs = λ a m. elim (cases a) [
    | inl (ea, _) ↦ ap (λ x. c.has_dir (x / 512)) ea ∙ hd
    | inr (_, na) ↦ v.dirs a (λ z. m (na ∙ z))
  ];
  owned = λ s m. elim (Bool-cases (p == s)) [
    | inl eq ↦ (i, put_entry-same i p c.virt_to_phys_map ∙ ==→eq p s eq)
    | inr ne ↦
        let old : c.slot_bitmap s ≡ true = ground arith in
        let (j, o) = v.owned s old in
        (j, put_entry-other i j p c.virt_to_phys_map (unmapped_owner s j old o) ∙ o)
  ];
  below = λ s m. ground (arith, v.below s);
  counted = omega (
    arith,
    count-set c.total_slots p c.slot_bitmap lt free,
    count-le c.total_slots c.slot_bitmap,
    v.counted,
    v.fits,
    v.small,
  );
  fits = v.fits;
  small = v.small;
}
  where
    cases :
        (a : ℕ)
        → let new = put_entry (i / 512) (i % 512) p c.virt_to_phys_map (a / 512) (a % 512) in
          ((a ≡ i) × (new ≡ p)) ⊎ ((a ≢ i) × (new ≡ entry c a))
    cases = put_entry_cases i p c.virt_to_phys_map

    not_taken : (a : ℕ) → entry c a ≢ p
    not_taken a z = ground (arith, v.marked a (λ y. omega (arith, lt, v.fits, v.small, z, y)))

    unmapped_owner : (s j : ℕ) → c.slot_bitmap s ≡ true → entry c j ≡ s → i ≢ j
    unmapped_owner s j m o z = omega (arith, v.below s m, v.fits, v.small, o, e, ap (entry c) z)

pub drop_slot-IsValid :
    (i p : ℕ) (c : DynamapCtx)
    → IsValid c
    → entry c i ≡ p
    → p ≢ no_slot
    → IsValid (drop_slot (i / 512) (i % 512) p c)
unfolding drop_slot
drop_slot-IsValid i p c v e mapped = record {
  one_to_one = λ a b m q. elim (cases a) [
    | inl (_, na) ↦ absurd (m na)
    | inr (_, na) ↦ elim (cases b) [
      | inl (_, nb) ↦ absurd (m (q ∙ nb))
      | inr (_, nb) ↦ v.one_to_one a b (λ z. m (na ∙ z)) (sym na ∙ q ∙ nb)
    ]
  ];
  marked = λ a m. elim (cases a) [
    | inl (_, na) ↦ absurd (m na)
    | inr (ne, na) ↦
        let other : entry c a ≢ p = λ z. ne (v.one_to_one a i (λ y. m (na ∙ y)) (z ∙ sym e)) in
        ground (arith, na, v.marked a (λ z. m (na ∙ z)), other)
  ];
  dirs = λ a m. elim (cases a) [
    | inl (_, na) ↦ absurd (m na)
    | inr (_, na) ↦ v.dirs a (λ z. m (na ∙ z))
  ];
  owned = λ s m.
      let old : c.slot_bitmap s ≡ true = ground arith in
      let kept : p ≢ s = λ z. ground arith in
      let (j, o) = v.owned s old in
      (
        j,
        put_entry-other i j no_slot c.virt_to_phys_map (λ z. kept (sym e ∙ ap (entry c) z ∙ o)) ∙ o,
      );
  below = λ s m. v.below s (ground arith);
  counted = omega (
    arith,
    count-clear c.total_slots p c.slot_bitmap lt set,
    count-le c.total_slots c.slot_bitmap,
    v.counted,
    v.fits,
    v.small,
  );
  fits = v.fits;
  small = v.small;
}
  where
    cases :
        (a : ℕ)
        → let new = put_entry (i / 512) (i % 512) no_slot c.virt_to_phys_map (a / 512) (a % 512) in
          ((a ≡ i) × (new ≡ no_slot)) ⊎ ((a ≢ i) × (new ≡ entry c a))
    cases = put_entry_cases i no_slot c.virt_to_phys_map

    set : c.slot_bitmap p ≡ true
    set = ap c.slot_bitmap (sym e) ∙ v.marked i (λ z. mapped (sym e ∙ z))

    lt : p < c.total_slots
    lt = v.below p set
