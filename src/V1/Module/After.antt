-- ===== src/V1/Module/After.antt =====
-- Loading the module of src/driver/src/dynaswap_drv.c, once the map is set up.
use dynaswap.Base.{
  ℕ, zero, suc, ◌≡◌, ◌≢◌, refl, ap, inl, inr, ℤ, pos, Bool, true, false, if◌then◌else◌, is_neg,
  nonzero, ltb_int, arith, if_cases, negsuc,
}
use dynaswap.V1.Cleanup.{MapSetup}
use dynaswap.V1.Setup.Init.{open_count, error_count}
use dynaswap.V1.Setup.Outcome.{IsSetUp}
use dynaswap.V1.Module.{
  ModuleState, ModuleAnswers, dynaswap_module_exit, dynaswap_destroy_mapping,
  dynaswap_unregister_blockdev, dynaswap_free_tag_set, dynaswap_clear_disk, dynaswap_init_err,
  total_capacity, capacity_sectors, dynaswap_register_blockdev, dynaswap_init_tag_set,
  dynaswap_setup_disk, add_dynaswap_disk, or_init_err,
}
use dynaswap.V1.Module.Load.{IsConsistent, dynaswap_module_exit-IsGone}
use dynaswap.V1.Module.Ends.{
  no_map, unloaded, MapGranted, Prepared, closed_once, IsUnwound, ModuleOutcome, loaded, not_added,
  not_prepared, GivesMajor,
}

-- One step: what it leaves where it fails, and where the next one starts.
or_init_err_step :
    (gb : ℕ) (a : ModuleAnswers) (P : ℤ × ModuleState → Type 0) (b : Bool) (e : ℤ)
    (s t : ModuleState) (next : ModuleState → ℤ × ModuleState)
    → (b ≡ true → nonzero e ≡ true)
    → (b ≡ true → P (dynaswap_init_err e s))
    → (b ≡ false → P (next t))
    → P (or_init_err gb a (if b then (e, s) else (pos 0, t)) next)
or_init_err_step gb a P b e s t next n f g =
    if_cases (λ r. P (or_init_err gb a r next)) b
      (λ h. if_cases P (nonzero e) (λ _. f h) (λ z. ground (arith, n h))) g

module _ (gb : ℕ) (a : ModuleAnswers) (gm : GivesMajor a) where
  -- Unwinding after the map was set up.
  pub unwound :
      (s : ModuleState)
      → MapGranted gb a
      → IsConsistent s
      → IsSetUp (total_capacity gb) no_map s.dynamap
      → IsUnwound gb a (dynaswap_module_exit s)
        × ((dynaswap_module_exit s).bad_deletes ≡ (
            if s.dynaswap_disk
            then (if s.added then s.bad_deletes else suc s.bad_deletes)
            else s.bad_deletes))
  unwound s g h u =
      let (gone, t, deletes) = dynaswap_module_exit-IsGone s h in
      (
        record {
          gone = gone;
          balanced = t.balanced;
          empty = t.empty;
          file =
              closed_once g (omega (arith, t.opens, u.opens))
                (omega (arith, t.closes, u.closes, ap open_count u.file))
                (omega (arith, t.error_closes, u.error_closes, ap error_count u.file));
        },
        deletes,
      )

  major_cases : is_neg a.register_blkdev ≡ false → ltb_int (pos 0) a.register_blkdev ≡ true
  major_cases n = by_value a.register_blkdev n gm
    where
      by_value : (m : ℤ) → is_neg m ≡ false → m ≢ pos 0 → ltb_int (pos 0) m ≡ true
      by_value (pos zero) n p = absurd (p refl)
      by_value (pos (suc m)) n p = ground arith
      by_value (negsuc m) n p = ground arith

  -- The steps after the map, from each one on.
  abbrev pub after_disk : ModuleState → ℤ × ModuleState
  after_disk s₄ = or_init_err gb a (add_dynaswap_disk gb a s₄) λ s₅. (pos 0, s₅)

  abbrev pub after_tags : ModuleState → ℤ × ModuleState
  after_tags s₃ = or_init_err gb a (dynaswap_setup_disk gb a s₃) after_disk

  abbrev pub after_major : ModuleState → ℤ × ModuleState
  after_major s₂ = or_init_err gb a (dynaswap_init_tag_set gb a s₂) after_tags

  abbrev pub after_map : ModuleState → ℤ × ModuleState
  after_map s₁ = or_init_err gb a (dynaswap_register_blockdev gb a s₁) after_major

  pub after_map_lem :
      (m : MapSetup)
      → MapGranted gb a
      → IsSetUp (total_capacity gb) no_map m
      → ModuleOutcome gb a (after_map (record unloaded { dynamap = m }))
  unfolding dynaswap_register_blockdev dynaswap_init_tag_set dynaswap_setup_disk add_dynaswap_disk
      dynaswap_init_err dynaswap_module_exit dynaswap_destroy_mapping dynaswap_unregister_blockdev
      dynaswap_free_tag_set dynaswap_clear_disk
  after_map_lem m g u =
      or_init_err_step gb a P (is_neg a.register_blkdev) a.register_blkdev s₁ s₂ after_major
        negative
        (λ e.
          not_prepared (λ p. ground (arith, p.major)) (negative e) (unwound s₁ g h₁ u).0
            (unwound s₁ g h₁ u).1)
        λ e₁.
          or_init_err_step gb a P (nonzero a.blk_mq_alloc_tag_set) a.blk_mq_alloc_tag_set s₂ s₃
            after_tags (λ e. e)
            (λ e.
              not_prepared (λ p. ground (arith, p.tags)) e (unwound s₂ g (h₂ e₁) u).0
                (unwound s₂ g (h₂ e₁) u).1)
            λ e₂.
              or_init_err_step gb a P (nonzero a.blk_mq_alloc_disk) a.blk_mq_alloc_disk s₃ s₄
                after_disk (λ e. e)
                (λ e.
                  not_prepared (λ p. ground (arith, p.disk)) e (unwound s₃ g (h₃ e₁) u).0
                    (unwound s₃ g (h₃ e₁) u).1)
                λ e₃.
                  let ready : Prepared gb a = record {
                    map = g;
                    major = e₁;
                    tags = e₂;
                    disk = e₃;
                  } in
                  or_init_err_step gb a P (nonzero a.add_disk) a.add_disk s₄ s₅ (λ s. (pos 0, s))
                    (λ e. e)
                    (λ e.
                      not_added ready e refl (unwound s₄ g (h₄ e₁) u).0 (unwound s₄ g (h₄ e₁) u).1)
                    λ e. loaded ready e refl (record {
                      consistent = h₅ e₁;
                      map = u;
                      registered = refl;
                      tags = refl;
                      disk = refl;
                      added = refl;
                      capacity = refl;
                      bad_deletes = refl;
                    })
    where
      P : ℤ × ModuleState → Type 0
      P = ModuleOutcome gb a

      negative : is_neg a.register_blkdev ≡ true → nonzero a.register_blkdev ≡ true
      negative e = ground arith

      s₁ : ModuleState
      s₁ = record unloaded { dynamap = m }

      s₂ : ModuleState
      s₂ = record s₁ { block_major = a.register_blkdev; registered = true }

      s₃ : ModuleState
      s₃ = record s₂ { tags = true }

      s₄ : ModuleState
      s₄ = record s₃ { dynaswap_disk = true; gendisks = 1; capacity = capacity_sectors gb }

      s₅ : ModuleState
      s₅ = record s₄ { added = true }

      h₁ : IsConsistent s₁
      h₁ = record {
        major = inl (refl, refl);
        disks = refl;
        added = λ z. ground arith;
        map = u.accounted;
      }

      h₂ : is_neg a.register_blkdev ≡ false → IsConsistent s₂
      h₂ e = record {
        major = inr (refl, major_cases e);
        disks = refl;
        added = λ z. ground arith;
        map = u.accounted;
      }

      h₃ : is_neg a.register_blkdev ≡ false → IsConsistent s₃
      h₃ e = record {
        major = inr (refl, major_cases e);
        disks = refl;
        added = λ z. ground arith;
        map = u.accounted;
      }

      h₄ : is_neg a.register_blkdev ≡ false → IsConsistent s₄
      h₄ e = record {
        major = inr (refl, major_cases e);
        disks = refl;
        added = λ z. refl;
        map = u.accounted;
      }

      h₅ : is_neg a.register_blkdev ≡ false → IsConsistent s₅
      h₅ e = record {
        major = inr (refl, major_cases e);
        disks = refl;
        added = λ z. refl;
        map = u.accounted;
      }
