-- ===== src/V2/Bimap/Threads/Alone.antt =====
-- A call of `bimap_insert` of src/driver/v2/utils/bimap.c whose steps follow one another.
use dynaswap.Base.{ℕ, zero, suc, ◌≡◌, refl, Option, none, some, inl, inr, Option-cases, first}
use dynaswap.V2.Bimap.{Bimap, has_sector, insert, insert_at}
use dynaswap.V2.Bimap.Threads.{InsertStage, looking, ended, look, add, allocated, next_insert}

module _ {World : Type 0} (hash : ℕ → ℕ) (alloc : World → Option ℕ × World) where
  -- `n` steps of one call.
  unfoldable pub run_call : ℕ → InsertStage → ℕ → ℕ → Bimap → World → InsertStage × Bimap × World
  run_call zero stage sector slot m w = (stage, m, w)
  run_call (suc n) stage sector slot m w =
      let (stage', m', w') = next_insert hash alloc stage sector slot m w in
      run_call n stage' sector slot m' w'

  from_allocated :
      (mem : Option ℕ) (sector slot : ℕ) (m : Bimap) (w : World)
      → let (status, m', w') = insert_at hash sector slot m (mem, w) in
        run_call 1 (allocated mem) sector slot m w ≡ (ended status, m', w')
  unfolding run_call next_insert add
  from_allocated none sector slot m w = refl
  from_allocated (some a) sector slot m w = refl

  -- With no other call in between, the steps are the function `insert` of the parent module.
  pub run_call-insert :
      (sector slot : ℕ) (m : Bimap) (w : World)
      → let (status, m', w') = insert hash alloc sector slot m w in
        run_call 3 looking sector slot m w ≡ (ended status, m', w')
  unfolding run_call next_insert look add insert
  run_call-insert sector slot m w =
      elim (Option-cases (first (has_sector sector) (m.sector_to_slot (hash sector)))) [
        | inr (e, old) ↦ rw (old, look, insert) refl
        | inl new ↦ rw (new, look, insert) (from_allocated (alloc w).0 sector slot m (alloc w).1)
      ]
