-- ===== src/V1/Module/Load.antt =====
-- On every path the module of src/driver/src/dynaswap_drv.c is loaded, or gives back what it took.
use dynaswap.Base.{suc, ◌≡◌, sym, subst, ◌⊎◌, pos, true, false, if◌then◌else◌, ltb_int, arith}
use dynaswap.V1.Cleanup.{dynamap_cleanup}
use dynaswap.V1.Setup.Balance.{Accounted}
use dynaswap.V1.Setup.Init.{IsTornDown, dynamap_cleanup-IsTornDown}
use dynaswap.V1.Module.{
  ModuleState, dynaswap_clear_disk, dynaswap_free_tag_set, dynaswap_unregister_blockdev,
  dynaswap_destroy_mapping, dynaswap_module_exit,
}

-- What is held behind the static variables is what they say.
pub record IsConsistent (s : ModuleState) : Type 0 where
  pub major :
      ((s.registered ≡ false) × (s.block_major ≡ pos 0))
      ⊎ ((s.registered ≡ true) × (ltb_int (pos 0) s.block_major ≡ true))
  pub disks : s.gendisks ≡ (if s.dynaswap_disk then 1 else 0)
  pub added : s.added ≡ true → s.dynaswap_disk ≡ true
  pub map : Accounted s.dynamap

-- Nothing is set or held.
pub record IsGone (t : ModuleState) : Type 0 where
  pub block_major : t.block_major ≡ pos 0
  pub registered : t.registered ≡ false
  pub tags : t.tags ≡ false
  pub disk : t.dynaswap_disk ≡ false
  pub gendisks : t.gendisks ≡ 0
  pub added : t.added ≡ false

pub dynaswap_module_exit-IsGone :
    (s : ModuleState)
    → IsConsistent s
    → let t = dynaswap_module_exit s in
      IsGone t
      × IsTornDown s.dynamap t.dynamap
      × (t.bad_deletes ≡ (
          if s.dynaswap_disk
          then (if s.added then s.bad_deletes else suc s.bad_deletes)
          else s.bad_deletes))
unfolding dynaswap_module_exit dynaswap_destroy_mapping dynaswap_unregister_blockdev
    dynaswap_free_tag_set dynaswap_clear_disk
dynaswap_module_exit-IsGone s h = (
  record {
    block_major = ground (arith, h.major);
    registered = ground (arith, h.major);
    tags = ground arith;
    disk = ground arith;
    gendisks = ground (arith, h.disks);
    added = ground (arith, h.added);
  },
  subst (λ m. IsTornDown s.dynamap (dynamap_cleanup m)) (sym same)
      (dynamap_cleanup-IsTornDown s.dynamap h.map),
  ground arith,
)
  where
    same :
        (dynaswap_unregister_blockdev (dynaswap_free_tag_set (dynaswap_clear_disk s))).dynamap
        ≡ s.dynamap
    same = ground arith
