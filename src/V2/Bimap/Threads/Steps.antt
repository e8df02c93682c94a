-- ===== src/V2/Bimap/Threads/Steps.antt =====
-- One step of a call of `bimap_insert` of src/driver/v2/utils/bimap.c among others.
use dynaswap.Base.{
  ℕ, pos, negsuc, neg, ◌≡◌, ◌≢◌, refl, inl, inr, true, List, [], ◌∷◌, Option, none, some,
  Option-cases, first, All, arith,
}
use dynaswap.V2.Bimap.{Entry, Bimap, has_sector}
use dynaswap.V2.Bimap.Entries.{Holds, first-sector}
use dynaswap.V2.Bimap.Lookup.{slot_of, sector_of, IsOneToOne, Apart, first-slot_of}
use dynaswap.V2.Bimap.Threads.{
  InsertStage, idle, looking, allocating, adding, ended, is_live, look, add, allocated, next_insert,
}

-- What the entries say of a call.
abbrev pub Knows : List Entry → ℕ → ℕ → InsertStage → Type 0
Knows es sector slot idle = Unit
Knows es sector slot looking = sector_of slot es ≡ none
Knows es sector slot allocating = (slot_of sector es ≡ none) × (sector_of slot es ≡ none)
Knows es sector slot (adding a) = (slot_of sector es ≡ none) × (sector_of slot es ≡ none)
Knows es sector slot (ended (pos status)) = (status ≡ 0) × (slot_of sector es ≡ some slot)
Knows es sector slot (ended (negsuc status)) = status ≡ 16 → slot_of sector es ≢ none

-- Each entry that was there is there still.
abbrev pub Keeps : List Entry → List Entry → Type 0
Keeps es es' = (k s : ℕ) → slot_of k es ≡ some s → slot_of k es' ≡ some s

-- An entry for another sector and slot does not matter to a call under way, and none to an ended one.
Knows-cons :
    (e : Entry) (es : List Entry) (sector slot : ℕ) (stage : InsertStage)
    → slot_of e.sector es ≡ none
    → (is_live stage ≡ true → (sector ≢ e.sector) × (slot ≢ e.slot))
    → Knows es sector slot stage
    → Knows (e ∷ es) sector slot stage
Knows-cons e es sector slot idle new ne kn = tt
Knows-cons e es sector slot looking new ne kn = ground (arith, ne refl)
Knows-cons e es sector slot allocating new ne kn = ground (arith, ne refl)
Knows-cons e es sector slot (adding a) new ne kn = ground (arith, ne refl)
Knows-cons e es sector slot (ended (pos n)) new ne kn = ground arith
Knows-cons e es sector slot (ended (negsuc n)) new ne kn = λ z q. ground (arith, kn z)

fresh_entry :
    (e : Entry) (es : List Entry)
    → slot_of e.sector es ≡ none
    → sector_of e.slot es ≡ none
    → All (Apart e) es
fresh_entry e [] p q = tt
fresh_entry e (f ∷ es) p q =
    ((λ z. ground arith, λ z. ground arith), fresh_entry e es (ground arith) (ground arith))

pub add-Holds :
    (hash : ℕ → ℕ) (e : Entry) (es : List Entry) (m : Bimap)
    → Holds hash es m
    → Holds hash (e ∷ es) (add hash e m)
unfolding add
add-Holds hash e es m h = record {
  sectors = λ b. ground (arith, h.sectors b);
  slots = λ b. ground (arith, h.slots b);
}

Keeps-cons : (e : Entry) (es : List Entry) → slot_of e.sector es ≡ none → Keeps es (e ∷ es)
Keeps-cons e es new k s h = ground arith

module _ {World : Type 0} (hash : ℕ → ℕ) where
  -- What a step of a call for `sector` and `slot` does.
  pub record Advanced (es : List Entry) (sector slot : ℕ) (stage : InsertStage) (es' : List Entry)
      (r : InsertStage × Bimap × World) : Type 0 where
    pub holds : Holds hash es' r.1
    pub one_to_one : IsOneToOne es'
    pub keeps : Keeps es es'
    pub own : Knows es' sector slot r.0
    pub live : is_live r.0 ≡ true → is_live stage ≡ true
    pub others :
        (k s : ℕ) (other : InsertStage)
        → (is_live stage ≡ true → is_live other ≡ true → (k ≢ sector) × (s ≢ slot))
        → Knows es k s other
        → Knows es' k s other

  -- A step that leaves the map.
  stays :
      (es : List Entry) (m : Bimap) (w : World) (sector slot : ℕ) (stage after : InsertStage)
      → Holds hash es m
      → IsOneToOne es
      → Knows es sector slot after
      → (is_live after ≡ true → is_live stage ≡ true)
      → Advanced es sector slot stage es (after, m, w)
  stays es m w sector slot stage after h o kn lv = record {
    holds = h;
    one_to_one = o;
    keeps = λ k s e. e;
    own = kn;
    live = lv;
    others = λ k s other ne e. e;
  }

  module _ (alloc : World → Option ℕ × World) where
    looked :
        (es : List Entry) (m : Bimap) (w : World) (sector slot : ℕ)
        → Holds hash es m
        → IsOneToOne es
        → sector_of slot es ≡ none
        → Advanced es sector slot looking es (look hash sector m, m, w)
    unfolding look
    looked es m w sector slot h o new =
        let chain = first (has_sector sector) (m.sector_to_slot (hash sector)) in
        elim (Option-cases chain) [
          | inl e ↦
              let unmapped : slot_of sector es ≡ none =
                ground (arith, first-slot_of sector es, first-sector hash sector h) in
              rw (e, look)
                (stays es m w sector slot looking allocating h o (unmapped, new) (λ z. refl))
          | inr (x, e) ↦
              let mapped : slot_of sector es ≢ none =
                λ q. ground (arith, first-slot_of sector es, first-sector hash sector h) in
              rw (e, look)
                (stays es m w sector slot looking (ended (neg 17)) h o (λ z. mapped) (λ z. refl))
        ]

    asked :
        (mem : Option ℕ) (es : List Entry) (m : Bimap) (w : World) (sector slot : ℕ)
        → Holds hash es m
        → IsOneToOne es
        → (slot_of sector es ≡ none) × (sector_of slot es ≡ none)
        → Advanced es sector slot allocating es (allocated mem, m, w)
    asked none es m w sector slot h o kn =
        stays es m w sector slot allocating (ended (neg 12)) h o (λ z. absurd (omega arith))
          (λ z. refl)
    asked (some a) es m w sector slot h o kn =
        stays es m w sector slot allocating (adding a) h o kn (λ z. refl)

    pub next_insert-Advanced :
        (stage : InsertStage) (es : List Entry) (m : Bimap) (w : World) (sector slot : ℕ)
        → Holds hash es m
        → IsOneToOne es
        → Knows es sector slot stage
        → (es' : List Entry) × Advanced es sector slot stage es'
            (next_insert hash alloc stage sector slot m w)
    unfolding next_insert
    next_insert-Advanced idle es m w sector slot h o kn =
        (es, stays es m w sector slot idle idle h o tt (λ z. z))
    next_insert-Advanced looking es m w sector slot h o kn = (es, looked es m w sector slot h o kn)
    next_insert-Advanced allocating es m w sector slot h o kn =
        (es, asked (alloc w).0 es m (alloc w).1 sector slot h o kn)
    next_insert-Advanced (adding a) es m w sector slot h o kn =
        let e : Entry = record { addr = a; sector = sector; slot = slot } in
        (
          e ∷ es,
          record {
            holds = add-Holds hash e es m h;
            one_to_one = (fresh_entry e es kn.0 kn.1, o);
            keeps = Keeps-cons e es kn.0;
            own = (refl, ground arith);
            live = λ z. cc;
            others = λ k s other ne q. Knows-cons e es k s other kn.0 (ne refl) q;
          },
        )
    next_insert-Advanced (ended status) es m w sector slot h o kn =
        (es, stays es m w sector slot (ended status) (ended status) h o kn (λ z. z))
