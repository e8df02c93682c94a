-- ===== src/V2/Bimap/Threads/Order.antt =====
-- Overlapping calls of `bimap_insert` of src/driver/v2/utils/bimap.c for different sectors and slots.
use native.Mathlib.Decide.{ℕ_discrete}
use dynaswap.Base.{
  ℕ, pos, ◌≡◌, ◌≢◌, sym, ◌∙◌, ap, inl, inr, true, List, Option, none, Option-cases, eq→==, ne→==,
}
use dynaswap.V2.Bimap.{Entry, find_by_slot}
use dynaswap.V2.Bimap.Entries.{Holds}
use dynaswap.V2.Bimap.Lookup.{sector_of, IsOneToOne, reply, find_by_slot_refines}
use dynaswap.V2.Bimap.Threads.{
  looking, Call, InsertThreads, is_live, set_call, step_call, InsertOverlap, start, called, stepped,
}
use dynaswap.V2.Bimap.Threads.Steps.{Knows, Keeps, next_insert-Advanced}

-- Two calls are for different sectors and slots.
abbrev pub Differ : Call → Call → Type 0
Differ c e = (c.sector ≢ e.sector) × (c.slot ≢ e.slot)

-- The calls under way differ from one another.
abbrev pub AreApart : (ℕ → Call) → Type 0
AreApart calls =
    (i j : ℕ)
    → i ≢ j
    → is_live (calls i).stage ≡ true
    → is_live (calls j).stage ≡ true
    → Differ (calls i) (calls j)

-- What holds of the call that is set, and of the others.
set_call_cases :
    (P : Call → Type 0) (i j : ℕ) (c : Call) (calls : ℕ → Call)
    → (i ≡ j → P c)
    → (i ≢ j → P (calls j))
    → P (set_call i c calls j)
set_call_cases P i j c calls p q = elim (ℕ_discrete i j) [
  | yes e ↦ rw (eq→== i j e) (p e)
  | no ne ↦ rw (ne→== i j ne) (q ne)
]

set_call-AreApart :
    (i : ℕ) (c : Call) (calls : ℕ → Call)
    → AreApart calls
    → ((j : ℕ)
        → i ≢ j
        → is_live c.stage ≡ true
        → is_live (calls j).stage ≡ true
        → Differ c (calls j))
    → AreApart (set_call i c calls)
set_call-AreApart i c calls v new j l ne =
    set_call_cases
      (λ x.
        is_live x.stage ≡ true
        → is_live (set_call i c calls l).stage ≡ true
        → Differ x (set_call i c calls l))
      i j c calls
      (λ e.
        set_call_cases (λ y. is_live c.stage ≡ true → is_live y.stage ≡ true → Differ c y) i l c
          calls (λ f. absurd (ne (sym e ∙ f))) (λ f. new l f))
      (λ e.
        set_call_cases
          (λ y. is_live (calls j).stage ≡ true → is_live y.stage ≡ true → Differ (calls j) y) i l c
          calls (λ f lj lc. let (a, b) = new j e lc lj in (λ z. a (sym z), λ z. b (sym z)))
          (λ f. v j l ne))

module _ {World : Type 0} (hash : ℕ → ℕ) where
  -- A call may start for a sector and a slot that no call under way has, if no entry has the slot.
  pub record IsFree (sector slot : ℕ) (t : InsertThreads World) : Type 0 where
    pub unused : (find_by_slot hash slot t.bimap).0 ≢ pos 0
    pub apart :
        (j : ℕ)
        → is_live (t.calls j).stage ≡ true
        → ((t.calls j).sector ≢ sector) × ((t.calls j).slot ≢ slot)

  -- Both tables hold the same entries, one for each sector and slot, and the calls under way are
  -- for different sectors and slots, none of which is in the map when its entry is to be added.
  pub record InOrder (es : List Entry) (t : InsertThreads World) : Type 0 where
    pub holds : Holds hash es t.bimap
    pub one_to_one : IsOneToOne es
    pub knows : (i : ℕ) → Knows es (t.calls i).sector (t.calls i).slot (t.calls i).stage
    pub apart : AreApart t.calls

  module _ (alloc : World → Option ℕ × World) where
    step_call-InOrder :
        (i : ℕ) (es : List Entry) (t : InsertThreads World)
        → InOrder es t
        → (es' : List Entry) × Keeps es es' × InOrder es' (step_call hash alloc i t)
    unfolding step_call
    step_call-InOrder i es t v =
        let c = t.calls i in
        let (es', a) =
          next_insert-Advanced hash alloc c.stage es t.bimap t.world c.sector c.slot v.holds
            v.one_to_one (v.knows i) in
        (
          es',
          a.keeps,
          record {
            holds = a.holds;
            one_to_one = a.one_to_one;
            knows = λ j.
                set_call_cases (λ x. Knows es' x.sector x.slot x.stage) i j _ t.calls (λ e. a.own)
                  (λ ne. a.others _ _ _ (λ li lj. v.apart j i (λ z. ne (sym z)) lj li) (v.knows j));
            apart =
                set_call-AreApart i _ t.calls v.apart (λ j ne li lj. v.apart i j ne (a.live li) lj);
          },
        )

    call-InOrder :
        (i sector slot : ℕ) (es : List Entry) (t : InsertThreads World)
        → InOrder es t
        → IsFree sector slot t
        → let c : Call = record { sector = sector; slot = slot; stage = looking } in
          InOrder es (record t { calls = set_call i c t.calls })
    call-InOrder i sector slot es t v free =
        let found = find_by_slot_refines hash slot v.holds in
        let unused : sector_of slot es ≡ none = elim (Option-cases (sector_of slot es)) [
          | inl e ↦ e
          | inr (k, e) ↦ absurd (free.unused (ap (λ r. r.0) found ∙ ap (λ o. (reply o).0) e))
        ] in
        record {
          holds = v.holds;
          one_to_one = v.one_to_one;
          knows = λ j.
              set_call_cases (λ x. Knows es x.sector x.slot x.stage) i j _ t.calls (λ e. unused)
                (λ ne. v.knows j);
          apart =
              set_call-AreApart i _ t.calls v.apart
                (λ j ne li lj. let (a, b) = free.apart j lj in (λ z. a (sym z), λ z. b (sym z)));
        }

    -- Calls of `bimap_insert` that overlap in any way, each started for a sector and a slot that no
    -- call under way has and a slot that no entry has, from threads and a map in order. Both tables
    -- then hold the same entries, one for each sector and each slot, and all that were there before.
    -- A call that ended with status 0 has its entry in the map, and one that ended with -EEXIST was
    -- for a sector that the map has.
    pub InsertOverlap-InOrder :
        {s t : InsertThreads World} (es : List Entry)
        → InsertOverlap hash alloc IsFree s t
        → InOrder es s
        → (es' : List Entry) × Keeps es es' × InOrder es' t
    InsertOverlap-InOrder es start v = (es, (λ k s e. e), v)
    InsertOverlap-InOrder es (called i sector slot o rest free) v =
        let (es', kept, u) = InsertOverlap-InOrder es o v in
        (es', kept, call-InOrder i sector slot es' _ u free)
    InsertOverlap-InOrder es (stepped i o) v =
        let (es', kept, u) = InsertOverlap-InOrder es o v in
        let (es'', kept', u') = step_call-InOrder i es' _ u in
        (es'', (λ k s e. kept' k s (kept k s e)), u')
