-- ===== src/V2/Storage/Lifetime.antt =====
-- What setup and teardown of src/driver/v2/fs/storage.c take and give back.
use dynaswap.Base.{
  ℕ, suc, ◌≡◌, Bool, true, false, List, [], ◌∷◌, ◌++◌, arith, ℤ, is_nat, if◌then◌else◌,
}
use dynaswap.V2.Storage.{
  FileCall, filp_open, filp_close, get_write_access, put_write_access, vfs_truncate, setup_storage,
  teardown_storage,
}

-- How often the file is opened, closed, and its write access taken and given back.
abbrev pub opens : List FileCall → ℕ
opens [] = 0
opens (filp_open ∷ cs) = suc (opens cs)
opens (_ ∷ cs) = opens cs

abbrev pub closes : List FileCall → ℕ
closes [] = 0
closes (filp_close ∷ cs) = suc (closes cs)
closes (_ ∷ cs) = closes cs

abbrev pub gets : List FileCall → ℕ
gets [] = 0
gets (get_write_access ∷ cs) = suc (gets cs)
gets (_ ∷ cs) = gets cs

abbrev pub puts : List FileCall → ℕ
puts [] = 0
puts (put_write_access ∷ cs) = suc (puts cs)
puts (_ ∷ cs) = puts cs

-- Whether a list of calls uses the file after closing it.
abbrev pub uses_closed : Bool → List FileCall → Bool
uses_closed closed [] = false
uses_closed closed (filp_open ∷ cs) = uses_closed false cs
uses_closed closed (filp_close ∷ cs) = uses_closed true cs
uses_closed closed (get_write_access ∷ cs) = if closed then true else uses_closed closed cs
uses_closed closed (put_write_access ∷ cs) = if closed then true else uses_closed closed cs
uses_closed closed (vfs_truncate ∷ cs) = if closed then true else uses_closed closed cs

-- From an unset context, setup and then teardown close the file as often as they open it and give
-- write access back as often as they take it, whether setup succeeds or not, and leave the context
-- unset; setup sets it exactly if it returns 0. The calls use the file after it was closed exactly if
-- setup had set the context.
pub setup-teardown :
    (path : Bool) (opened access : ℤ)
    → let (status, c, made) = setup_storage path opened access (record { backing_file = false }) in
      let (c', undone) = teardown_storage c in
      (opens (made ++ undone) ≡ closes (made ++ undone))
      × (gets (made ++ undone) ≡ puts (made ++ undone))
      × (c'.backing_file ≡ false)
      × (c.backing_file ≡ (if is_nat status 0 then true else false))
      × (uses_closed false (made ++ undone) ≡ c.backing_file)
unfolding setup_storage teardown_storage
setup-teardown path opened access = ground arith
