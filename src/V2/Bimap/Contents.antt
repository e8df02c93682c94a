-- ===== src/V2/Bimap/Contents.antt =====
-- The bimap of src/driver/v2/utils/bimap.c as the multiset of its entries, which forgets in which
-- buckets and in which order of their chains they stand.
use mathlib.Core.List.{Perm, Permᴰ}
use mathlib.Core.List.Perm
use mathlib.Mathlib.Data.Multiset.Defs.{Multiset, of_list, coe-eq-coe}
use mathlib.Core.Logic.{∥∥₁_elim}
use dynaswap.Base.{
  ℕ, zero, suc, ◌+◌, ◌≤◌, ◌<◌, ◌^◌, ◌≡◌, refl, sym, subst, ap, ◌∙◌, not, List, [], ◌∷◌, ◌++◌, arith,
  ◌==◌, keep, All, keep-perm, if◌then◌else◌, Option, none, some, ℤ, neg,
}
use dynaswap.V2.Bimap.{Entry, Bimap, bimap_bits, find_by_sector, find_by_slot, insert, eexist}
use dynaswap.V2.Bimap.Entries.{Holds, in_sector_bucket, add_at, add_entry, insert_refines}
use dynaswap.V2.Bimap.Lookup.{
  slot_of, sector_of, first-slot_of, reply, Apart, IsOneToOne, find_by_sector_refines,
  find_by_slot_refines,
}

-- The chains of the first table, `n` of them from `lo` on.
abbrev pub chained : ℕ → ℕ → Bimap → List Entry
chained zero lo m = []
chained (suc n) lo m = m.sector_to_slot lo ++ chained n (suc lo) m

abbrev pub contents : Bimap → Multiset Entry
contents m = of_list (chained (2 ^ bimap_bits) 0 m)

module _ (hash : ℕ → ℕ) where
  abbrev InRange : ℕ → ℕ → Entry → Type 0
  InRange lo n e = (lo ≤ hash e.sector) × (hash e.sector < n + lo)

  keep_later :
      (lo b : ℕ) (es : List Entry)
      → suc lo ≤ b
      → keep (in_sector_bucket hash b) (keep (λ e. not (in_sector_bucket hash lo e)) es)
        ≡ keep (in_sector_bucket hash b) es
  keep_later lo b [] h = refl
  keep_later lo b (e ∷ es) h = ground (arith, keep_later lo b es h)

  InRange-later :
      (lo n : ℕ) (es : List Entry)
      → All (InRange lo (suc n)) es
      → All (InRange (suc lo) n) (keep (λ e. not (in_sector_bucket hash lo e)) es)
  InRange-later lo n [] h = tt
  InRange-later lo n (e ∷ es) h = ground (arith, InRange-later lo n es h.1)

  -- The chains of a range of buckets hold the entries of that range.
  chained-Perm :
      (n lo : ℕ) (es : List Entry) (m : Bimap)
      → ((b : ℕ) → lo ≤ b → m.sector_to_slot b ≡ keep (in_sector_bucket hash b) es)
      → All (InRange lo n) es
      → Perm (chained n lo m) es
  chained-Perm zero lo [] m h r = Perm.nil
  chained-Perm zero lo (e ∷ es) m h r = absurd (omega (arith, r.0))
  chained-Perm (suc n) lo es m h r =
      let inside = in_sector_bucket hash lo in
      let rest =
        chained-Perm n (suc lo) (keep (λ e. not (inside e)) es) m
          (λ b l. h b (omega arith) ∙ sym (keep_later lo b es l)) (InRange-later lo n es r) in
      rw (h lo (omega arith)) (
        Perm.trans (Perm.append (Perm.refl (keep inside es)) rest)
          (Perm.symm (keep-perm inside es)))

  -- One table says what is in the bimap.
  pub contents-Holds :
      (es : List Entry) (m : Bimap)
      → ((k : ℕ) → hash k < 2 ^ bimap_bits)
      → Holds hash es m
      → Perm (chained (2 ^ bimap_bits) 0 m) es
  contents-Holds es m bound h =
      chained-Perm (2 ^ bimap_bits) 0 es m (λ b l. h.sectors b) (all_in_range es)
    where
      all_in_range : (xs : List Entry) → All (InRange 0 (2 ^ bimap_bits)) xs
      all_in_range [] = tt
      all_in_range (x ∷ xs) = ((omega arith, omega (arith, bound (x.sector))), all_in_range xs)

-- What is looked up in one-to-one entries does not depend on their order.
Apart-sym : (e f : Entry) → Apart e f → Apart f e
Apart-sym e f (s, t) = (λ q. s (sym q), λ q. t (sym q))

swapped-IsOneToOne :
    (a b : Entry) (l : List Entry) → IsOneToOne (a ∷ b ∷ l) → IsOneToOne (b ∷ a ∷ l)
swapped-IsOneToOne a b l ((ab, al), (bl, h)) = ((Apart-sym a b ab, bl), (al, h))

All_permuted : (P : Entry → Type 0) {es fs : List Entry} → Permᴰ es fs → All P es → All P fs
All_permuted P Permᴰ.nil h = tt
All_permuted P (Permᴰ.cons e d) (h, hs) = (subst P e h, All_permuted P d hs)
All_permuted P (Permᴰ.swap e f) (g, (h, hs)) = (subst P f h, (subst P e g, hs))
All_permuted P (Permᴰ.trans d₁ d₂) h = All_permuted P d₂ (All_permuted P d₁ h)

permuted-IsOneToOne : {es fs : List Entry} → Permᴰ es fs → IsOneToOne es → IsOneToOne fs
permuted-IsOneToOne Permᴰ.nil h = tt
permuted-IsOneToOne (Permᴰ.cons {l₂} e d) (h, hs) =
    (subst (λ x. All (Apart x) l₂) e (All_permuted _ d h), permuted-IsOneToOne d hs)
permuted-IsOneToOne (Permᴰ.swap {a} {b} {a'} {b'} {l} e f) h =
    subst (λ x. IsOneToOne (x ∷ b' ∷ l)) f
      (subst (λ y. IsOneToOne (b ∷ y ∷ l)) e (swapped-IsOneToOne a b l h))
permuted-IsOneToOne (Permᴰ.trans d₁ d₂) h = permuted-IsOneToOne d₂ (permuted-IsOneToOne d₁ h)

slot_of_swapped :
    (k : ℕ) (a b : Entry) (l : List Entry)
    → Apart a b
    → slot_of k (a ∷ b ∷ l) ≡ slot_of k (b ∷ a ∷ l)
slot_of_swapped k a b l ab = ground arith

sector_of_swapped :
    (s : ℕ) (a b : Entry) (l : List Entry)
    → Apart a b
    → sector_of s (a ∷ b ∷ l) ≡ sector_of s (b ∷ a ∷ l)
sector_of_swapped s a b l ab = ground arith

-- A function of one-to-one entries that an exchange at the front does not change, and that goes by
-- the first entry and its value on the others.
module _ {A : Type 0} (f : List Entry → A) (rest : Entry → A → A)
    (by_front : (e : Entry) (es : List Entry) → f (e ∷ es) ≡ rest e (f es))
    (exchanged : (a b : Entry) (l : List Entry) → Apart a b → f (a ∷ b ∷ l) ≡ f (b ∷ a ∷ l)) where
  permuted : {es fs : List Entry} → Permᴰ es fs → IsOneToOne es → f es ≡ f fs
  permuted Permᴰ.nil h = refl
  permuted (Permᴰ.cons {a} {b} {l₁} {l₂} e d) (h, hs) =
      by_front a l₁ ∙ ap (rest a) (permuted d hs) ∙ sym (by_front a l₂) ∙ ap (λ x. f (x ∷ l₂)) e
  permuted (Permᴰ.swap {a} {b} {a'} {b'} {l} e g) ((ab, al), hs) =
      exchanged a b l ab ∙ ap (λ y. f (b ∷ y ∷ l)) e ∙ ap (λ x. f (x ∷ b' ∷ l)) g
  permuted (Permᴰ.trans d₁ d₂) h = permuted d₁ h ∙ permuted d₂ (permuted-IsOneToOne d₁ h)

nat_option-IsSet : IsSet (Option ℕ)
nat_option-IsSet = hlevel

slot_of_permuted :
    (k : ℕ) (es fs : List Entry) → Perm es fs → IsOneToOne es → slot_of k es ≡ slot_of k fs
slot_of_permuted k es fs p h = ∥∥₁_elim p (nat_option-IsSet _ _) (λ d.
    permuted (slot_of k) (λ e r. if e.sector == k then some e.slot else r) (λ e l. refl)
      (slot_of_swapped k) d h)

sector_of_permuted :
    (s : ℕ) (es fs : List Entry) → Perm es fs → IsOneToOne es → sector_of s es ≡ sector_of s fs
sector_of_permuted s es fs p h = ∥∥₁_elim p (nat_option-IsSet _ _) (λ d.
    permuted (sector_of s) (λ e r. if e.slot == s then some e.sector else r) (λ e l. refl)
      (sector_of_swapped s) d h)

add_entry_by_slot :
    (mem : Option ℕ) (sector slot : ℕ) (es : List Entry)
    → add_entry mem sector slot es
      ≡ elim (slot_of sector es) [ some old ↦ (neg eexist, es) | none ↦ add_at mem sector slot es ]
add_entry_by_slot mem sector slot es = ground (arith, first-slot_of sector es)

-- Insertion has the same status on entries in another order, and leaves the same entries.
add_entry_permuted :
    (mem : Option ℕ) (sector slot : ℕ) (es fs : List Entry)
    → Perm es fs
    → IsOneToOne es
    → ((add_entry mem sector slot es).0 ≡ (add_entry mem sector slot fs).0)
      × Perm (add_entry mem sector slot es).1 (add_entry mem sector slot fs).1
add_entry_permuted mem sector slot es fs p h =
    rw (add_entry_by_slot mem sector slot es, add_entry_by_slot mem sector slot fs)
      (by_slot (slot_of sector es) (slot_of sector fs) mem (slot_of_permuted sector es fs p h))
  where
    by_slot :
        (o q : Option ℕ) (mem : Option ℕ)
        → o ≡ q
        → let one : ℤ × List Entry = elim o [
          | some old ↦ (neg eexist, es)
          | none ↦ add_at mem sector slot es
        ] in
          let two : ℤ × List Entry = elim q [
            | some old ↦ (neg eexist, fs)
            | none ↦ add_at mem sector slot fs
          ] in
          (one.0 ≡ two.0) × Perm one.1 two.1
    by_slot none none none e = (refl, p)
    by_slot none none (some a) e = (refl, Perm.cons _ p)
    by_slot (some a) (some b) mem e = (refl, p)
    by_slot none (some b) mem e = absurd (ground arith)
    by_slot (some a) none mem e = absurd (ground arith)

-- Two bimaps whose tables hold lists of entries, one to one in the first of them, with a hash into
-- the buckets and the same contents: both lookups give the same answers in them, and an insertion
-- with the same memory has the same status and leaves the same contents. In which order the entries
-- stand in the chains does not show.
pub contents_determines :
    {World : Type 0} (hash : ℕ → ℕ) (alloc : World → Option ℕ × World) (es fs : List Entry)
    (m n : Bimap)
    → ((k : ℕ) → hash k < 2 ^ bimap_bits)
    → Holds hash es m
    → Holds hash fs n
    → IsOneToOne es
    → contents m ≡ contents n
    → (sector slot : ℕ) (w : World)
    → (find_by_sector hash sector m ≡ find_by_sector hash sector n)
      × (find_by_slot hash slot m ≡ find_by_slot hash slot n)
      × ((insert hash alloc sector slot m w).0 ≡ (insert hash alloc sector slot n w).0)
      × (contents (insert hash alloc sector slot m w).1
          ≡ contents (insert hash alloc sector slot n w).1)
contents_determines hash alloc es fs m n bound hm hn one same sector slot w =
    let p : Perm es fs =
      Perm.trans (Perm.symm (contents-Holds hash es m bound hm))
        (Perm.trans (coe-eq-coe.0 same) (contents-Holds hash fs n bound hn)) in
    let (sm, im, _) = insert_refines hash alloc sector slot m w es hm in
    let (sn, jn, _) = insert_refines hash alloc sector slot n w fs hn in
    let (status, left) = add_entry_permuted (alloc w).0 sector slot es fs p one in
    (
      find_by_sector_refines hash sector hm
          ∙ ap reply (slot_of_permuted sector es fs p one)
          ∙ sym (find_by_sector_refines hash sector hn),
      find_by_slot_refines hash slot hm
          ∙ ap reply (sector_of_permuted slot es fs p one)
          ∙ sym (find_by_slot_refines hash slot hn),
      sm ∙ status ∙ sym sn,
      coe-eq-coe.1 (
          Perm.trans (contents-Holds hash _ _ bound im)
            (Perm.trans left (Perm.symm (contents-Holds hash _ _ bound jn)))),
    )
