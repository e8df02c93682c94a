-- ===== src/V1/Module.antt =====
-- src/driver/src/dynaswap_drv.c: loading and unloading the module. The xarray of the module holds
-- nothing and is left out.
pub mod Load
pub mod Ends
pub mod After
pub mod Outcome
pub mod Serving
pub mod Traced
use dynaswap.Base.{
  ℕ, zero, suc, ◌-◌, ◌*◌, ◌%◌, ◌^◌, ℤ, pos, neg, Bool, true, false, not, if◌then◌else◌, is_neg,
  nonzero, ltb_int, mul_ulong,
}
use dynaswap.V1.Setup.{SetupAnswers, dynamap_init}
use dynaswap.V1.Cleanup.{MapSetup, dynamap_cleanup}

-- The static variables: block_major, whether tag_set has tags, whether dynaswap_disk is set, and
-- the dynamap; and what is held behind them: the registration, the disks that are allocated,
-- whether one is added, and the deletions of a disk that was not.
pub record ModuleState : Type 0 where
  pub block_major : ℤ
  pub tags : Bool
  pub dynaswap_disk : Bool
  pub registered : Bool
  pub gendisks : ℕ
  pub added : Bool
  pub bad_deletes : ℕ
  pub capacity : ℕ
  pub dynamap : MapSetup

-- Whether the argument `path` is given, and what the kernel answers: the major number or an error,
-- and 0 or an error for the tag set, the disk and its addition.
pub record ModuleAnswers : Type 0 where
  pub path : Bool
  pub setup : SetupAnswers
  pub register_blkdev : ℤ
  pub blk_mq_alloc_tag_set : ℤ
  pub blk_mq_alloc_disk : ℤ
  pub add_disk : ℤ

abbrev pub einval : ℕ
einval = 22

-- `del_gendisk` and `put_disk`
unfoldable pub dynaswap_clear_disk : ModuleState → ModuleState
dynaswap_clear_disk s = if not s.dynaswap_disk then s else record s {
  dynaswap_disk = false;
  gendisks = s.gendisks - 1;
  added = false;
  bad_deletes = if s.added then s.bad_deletes else suc s.bad_deletes;
}

unfoldable pub dynaswap_free_tag_set : ModuleState → ModuleState
dynaswap_free_tag_set s = if not s.tags then s else record s { tags = false }

unfoldable pub dynaswap_unregister_blockdev : ModuleState → ModuleState
dynaswap_unregister_blockdev s =
    if ltb_int (pos 0) s.block_major
    then record s { block_major = pos 0; registered = false }
    else s

unfoldable pub dynaswap_destroy_mapping : ModuleState → ModuleState
dynaswap_destroy_mapping s = record s { dynamap = dynamap_cleanup s.dynamap }

unfoldable pub dynaswap_module_exit : ModuleState → ModuleState
dynaswap_module_exit s =
    dynaswap_destroy_mapping
      (dynaswap_unregister_blockdev (dynaswap_free_tag_set (dynaswap_clear_disk s)))

unfoldable pub dynaswap_init_err : ℤ → ModuleState → ℤ × ModuleState
dynaswap_init_err ret s = (
  ret,
  dynaswap_destroy_mapping
      (dynaswap_unregister_blockdev (dynaswap_free_tag_set (dynaswap_clear_disk s))),
)

-- `size_t total_capacity`
abbrev pub total_capacity : ℕ → ℕ
total_capacity gb = mul_ulong (mul_ulong (mul_ulong gb 1024) 1024) 1024

-- The product is one of `uint`.
abbrev pub capacity_sectors : ℕ → ℕ
capacity_sectors gb = ((gb * 1024 % 2 ^ 32) * 1024 % 2 ^ 32) * 2 % 2 ^ 32

-- `gb` is the module argument capacity_gb.
module _ (gb : ℕ) (a : ModuleAnswers) where
  unfoldable pub dynaswap_init_mapping : ModuleState → ℤ × ModuleState
  dynaswap_init_mapping s =
      let (status, t) = dynamap_init a.setup (total_capacity gb) s.dynamap in
      if not a.path then (neg einval, s) else (status, record s { dynamap = t })

  unfoldable pub dynaswap_register_blockdev : ModuleState → ℤ × ModuleState
  dynaswap_register_blockdev s =
      if is_neg a.register_blkdev
      then (a.register_blkdev, s)
      else (pos 0, record s { block_major = a.register_blkdev; registered = true })

  unfoldable pub dynaswap_init_tag_set : ModuleState → ℤ × ModuleState
  dynaswap_init_tag_set s =
      if nonzero a.blk_mq_alloc_tag_set
      then (a.blk_mq_alloc_tag_set, s)
      else (pos 0, record s { tags = true })

  unfoldable pub dynaswap_setup_disk : ModuleState → ℤ × ModuleState
  dynaswap_setup_disk s =
      if nonzero a.blk_mq_alloc_disk
      then (a.blk_mq_alloc_disk, record s { dynaswap_disk = false })
      else (
        pos 0,
        record s {
          dynaswap_disk = true;
          gendisks = suc s.gendisks;
          capacity = capacity_sectors gb;
        },
      )

  unfoldable pub add_dynaswap_disk : ModuleState → ℤ × ModuleState
  add_dynaswap_disk s =
      if nonzero a.add_disk then (a.add_disk, s) else (pos 0, record s { added = true })

  -- `if (status) return dynaswap_init_err(status);`
  abbrev pub or_init_err : ℤ × ModuleState → (ModuleState → ℤ × ModuleState) → ℤ × ModuleState
  or_init_err (status, s) next =
      let rest = next s in if nonzero status then dynaswap_init_err status s else rest

  unfoldable pub dynaswap_module_init : ModuleState → ℤ × ModuleState
  dynaswap_module_init s = or_init_err (dynaswap_init_mapping s) λ s₁.
      or_init_err (dynaswap_register_blockdev s₁) λ s₂. or_init_err (dynaswap_init_tag_set s₂) λ s₃.
        or_init_err (dynaswap_setup_disk s₃)
          λ s₄. or_init_err (add_dynaswap_disk s₄) λ s₅. (pos 0, s₅)
