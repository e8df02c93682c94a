-- ===== src/V2/Main.antt =====
-- src/driver/v2/main.c, with the setup of src/driver/v2/common.c and src/driver/v2/context.c: the
-- driver's initialisation and exit.
pub mod Init
pub mod Exit
pub mod Loaded
pub mod Leaving
pub mod Inverse
pub mod Serving
use dynaswap.Base.{
  ℕ, ℤ, pos, neg, Bool, true, false, List, [], ◌∷◌, ◌++◌, map, ◌&&◌, if◌then◌else◌, is_neg, nonzero,
  Bits,
}
use dynaswap.V2.Kernel.{Kernel}
use dynaswap.V2.Bimap.{enomem}
use dynaswap.V2.Slot.{SlotManager, setup_slot_manager, teardown_slot_manager}
use dynaswap.V2.Device.{Work}
use dynaswap.V2.Storage.{StorageContext, FileCall, setup_storage, teardown_storage}
use dynaswap.V2.Context.{Params, Driver, dynaswap_extend}
use dynaswap.V2.Debug.{
  DebugEntry, dynaswap_dir, storage_dir, slots_dir, setup_storage_debug, setup_slot_debug,
}
use dynaswap.V2.Disk.{Disk, DiskAnswers, setup_disk, teardown_disk}

-- What the kernel and the module arguments give while the driver is set up.
pub record Answers : Type 0 where
  pub alloc_ordered_workqueue : Bool
  pub debugfs_create_dir : DebugEntry → Bool
  pub path : Bool
  pub filp_open : ℤ
  pub get_write_access : ℤ
  pub kvzalloc : Bool
  pub kmem_cache_create : Bool
  pub disk : DiskAnswers

-- The calls that take something from the kernel or give it back, those on the file among them.
pub data DriverCall : Type 0 where
  make_queue destroy_queue make_bitmap free_bitmap make_cache remove_disk : DriverCall
  on_file : FileCall → DriverCall

-- The driver as a whole; `workqueue` tells whether the work queue exists, `bitmap` whether the
-- memory of the slot bitmap is held, `entries` whether the cache of the bimap exists; `debugfs` is
-- what was made there, all of it below the first directory; `calls` are the calls made, in order.
pub record Module (World : Type 0) : Type 0 where
  pub workqueue : Bool
  pub debugfs : List DebugEntry
  pub storage : StorageContext
  pub bitmap : Bool
  pub entries : Bool
  pub driver : Driver World
  pub disk : Disk
  pub calls : List DriverCall

-- An item that `destroy_workqueue` runs, whether the pointer to the backing file is set at that time,
-- and the calls that were made before.
pub record Late (Page : Type 0) : Type 0 where
  pub item : Work Page
  pub backing_file : Bool
  pub calls : List DriverCall

abbrev pub run_late : {World Page : Type 0} → Module World → Work Page → Late Page
run_late s item = record { item = item; backing_file = s.storage.backing_file; calls = s.calls }

-- A directory can be made only in one that was made.
abbrev pub makes_dir : Answers → DebugEntry → Bool
makes_dir a e = a.debugfs_create_dir dynaswap_dir && a.debugfs_create_dir e

-- What `setup_common`, and `setup_storage` and `setup_slot_manager` at their ends, put into debugfs.
abbrev pub add_dynaswap_dir : Answers → List DebugEntry → List DebugEntry
add_dynaswap_dir a l = if a.debugfs_create_dir dynaswap_dir then dynaswap_dir ∷ l else l

abbrev pub add_storage_debug : Answers → List DebugEntry → List DebugEntry
add_storage_debug a l = setup_storage_debug (makes_dir a storage_dir) ++ l

abbrev pub add_slot_debug : Answers → List DebugEntry → List DebugEntry
add_slot_debug a l = setup_slot_debug (makes_dir a slots_dir) ++ l

module _ {World Page : Type 0} (k : Kernel World Page) (p : Params) (gb : ℕ) (a : Answers) where
  unfoldable pub setup_common : Module World → ℤ × Module World
  setup_common s =
      if a.alloc_ordered_workqueue
      then (
        pos 0,
        record s {
          workqueue = true;
          debugfs = add_dynaswap_dir a s.debugfs;
          calls = s.calls ++ make_queue ∷ [];
        },
      )
      else (neg enomem, s)

  -- `setup_self_context` always returns 0. The slot manager's cache, once it is created, is held.
  unfoldable pub setup_context : Module World → ℤ × Module World
  setup_context s =
      let (opened, c, made) = setup_storage a.path a.filp_open a.get_write_access s.storage in
      let (ready, m) = setup_slot_manager gb a.kvzalloc a.kmem_cache_create s.driver.slots in
      let v : Driver World = record s.driver { slots = m } in
      let calls = s.calls ++ map on_file made in
      if is_neg opened
      then (opened, record s { storage = c; calls = calls })
      else (if is_neg ready
          then (
            ready,
            record s {
              storage = (teardown_storage c).0;
              debugfs = add_storage_debug a s.debugfs;
              driver = v;
              calls = calls ++ map on_file (teardown_storage c).1;
            },
          )
          else (
            pos 0,
            record s {
              storage = c;
              debugfs = add_slot_debug a (add_storage_debug a s.debugfs);
              bitmap = true;
              entries = a.kmem_cache_create;
              driver = dynaswap_extend k p v;
              calls = calls ++ make_bitmap ∷ (if a.kmem_cache_create then make_cache ∷ [] else []);
            },
          ))

  -- The slot manager first, then the file.
  unfoldable pub teardown_context : Module World → Module World
  teardown_context s =
      let (c, undone) = teardown_storage s.storage in
      record s {
        storage = c;
        bitmap = false;
        driver = record s.driver { slots = (teardown_slot_manager s.driver.slots).1 };
        calls = s.calls ++ free_bitmap ∷ map on_file undone;
      }

  -- `destroy_workqueue` runs what waits, `work`, before it returns.
  unfoldable pub teardown_common : List (Work Page) → Module World → Module World × List (Late Page)
  teardown_common work s = (
    record s { workqueue = false; debugfs = []; calls = s.calls ++ destroy_queue ∷ [] },
    map (run_late s) work,
  )

  -- `status = setup_disk()` turns the Boolean into 1 or 0.
  abbrev pub to_int : Bool → ℤ
  to_int true = pos 1
  to_int false = pos 0

  unfoldable pub init_driver : Module World → ℤ × Module World
  init_driver s =
      let (common, s₁) = setup_common s in
      let (context, s₂) = setup_context s₁ in
      let (disk, d) = setup_disk gb a.disk s₂.disk in
      let s₃ : Module World = record s₂ { disk = d } in
      if nonzero common
      then (common, s₁)
      else (if nonzero context
          then (context, s₂)
          else (if is_neg (to_int disk) then (to_int disk, teardown_context s₃) else (pos 0, s₃)))

  abbrev pub remove : Module World → Module World
  remove s = record s { disk = teardown_disk s.disk; calls = s.calls ++ remove_disk ∷ [] }

  -- With the work that the queue has not come to, and what of it is run late.
  unfoldable pub exit_driver : List (Work Page) → Module World → Module World × List (Late Page)
  exit_driver work s = teardown_common work (teardown_context (remove s))
