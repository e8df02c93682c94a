-- ===== src/V2/Debug.antt =====
-- What the files of src/driver/v2/fs/slot_debug.c and src/driver/v2/fs/storage_debug.c show. Copying
-- a text to its reader is left to the kernel.
pub mod Shown
use dynaswap.Base.{
  ℕ, suc, ◌+◌, ◌-◌, ◌*◌, ◌/◌, ◌%◌, ◌^◌, ℤ, pos, negsuc, neg, Bool, true, false, List, [], ◌∷◌, ◌++◌,
  if◌then◌else◌, ltb_int, to_long, mul_ulong, cut, decimal,
}
use dynaswap.V2.Slot.{SlotManager}
use dynaswap.V2.Storage.{StorageContext}

-- "%ld"
unfoldable pub long_text : ℤ → List ℕ
long_text (pos n) = decimal 19 n []
long_text (negsuc n) = 45 ∷ decimal 19 (suc n) []

-- What is printed with `end` behind it into a buffer of 32 bytes.
unfoldable pub shown : List ℕ → ℤ → List ℕ
shown end value = cut 31 (long_text value ++ end)

abbrev pub newline : List ℕ
newline = 10 ∷ []

abbrev pub percent_newline : List ℕ
percent_newline = 37 ∷ 10 ∷ []

unfoldable pub atomic_ulong_read_file : ℕ → List ℕ
atomic_ulong_read_file value = shown newline (to_long value)

unfoldable pub free_value : SlotManager → ℤ
free_value m =
    if ltb_int (to_long m.active_slots) (to_long m.total_slots)
    then to_long ((m.total_slots + 2 ^ 64 - m.active_slots) % 2 ^ 64)
    else pos 0

unfoldable pub free_slots_read_file : SlotManager → List ℕ
free_slots_read_file m = shown newline (free_value m)

-- A `long` divided by a positive number.
unfoldable pub div_long : ℤ → ℕ → ℤ
div_long (pos a) b = pos (a / b)
div_long (negsuc a) b = neg (suc a / b)

unfoldable pub usage_value : SlotManager → ℤ
usage_value m =
    if ltb_int (pos 0) (to_long m.total_slots)
    then div_long (to_long (mul_ulong m.active_slots 100)) m.total_slots
    else pos 0

unfoldable pub usage_percent_read_file : SlotManager → List ℕ
usage_percent_read_file m = shown percent_newline (usage_value m)

-- The files of the directory "slots".
pub data SlotFile : Type 0 where
  total_slots_file active_slots_file free_slots_file slot_usage_percent_file : SlotFile

-- What the driver puts into debugfs.
pub data DebugEntry : Type 0 where
  dynaswap_dir storage_dir backing_file_size_bytes slots_dir : DebugEntry
  slot_entry : SlotFile → DebugEntry

-- `dir` tells whether the directory could be made.
unfoldable pub setup_slot_debug : Bool → List DebugEntry
setup_slot_debug dir =
    if dir
    then slots_dir
      ∷ slot_entry total_slots_file
      ∷ slot_entry active_slots_file
      ∷ slot_entry free_slots_file
      ∷ slot_entry slot_usage_percent_file
      ∷ []
    else []

unfoldable pub setup_storage_debug : Bool → List DebugEntry
setup_storage_debug dir = if dir then storage_dir ∷ backing_file_size_bytes ∷ [] else []

unfoldable pub read_slot_file : SlotFile → SlotManager → List ℕ
read_slot_file total_slots_file m = atomic_ulong_read_file m.total_slots
read_slot_file active_slots_file m = atomic_ulong_read_file m.active_slots
read_slot_file free_slots_file m = free_slots_read_file m
read_slot_file slot_usage_percent_file m = usage_percent_read_file m

-- `file_size` is `i_size_read` of the file's inode.
unfoldable pub backing_file_size_read : ℤ → StorageContext → List ℕ
backing_file_size_read file_size c = shown newline (if c.backing_file then file_size else pos 0)
