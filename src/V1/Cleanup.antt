-- ===== src/V1/Cleanup.antt =====
-- dynamap_cleanup of src/driver/src/dynamap.c, with a ledger of what is taken and given back.
use dynaswap.Base.{
  ℕ, zero, suc, Bool, false, List, [], ◌∷◌, ◌++◌, Option, none, some, if◌then◌else◌,
}

-- `backing_file`: NULL, an open file, or an error pointer.
pub data FilePtr : Type 0 where
  null_file open_file error_file : FilePtr

-- What was taken and given back: the file opened, closed, and closed through an error pointer;
-- blocks of `kvzalloc`; work queues; and the pages by their addresses.
pub record Ledger : Type 0 where
  pub opens : ℕ
  pub closes : ℕ
  pub error_closes : ℕ
  pub allocs : ℕ
  pub frees : ℕ
  pub queues_made : ℕ
  pub queues_destroyed : ℕ
  pub pages_got : List ℕ
  pub pages_freed : List ℕ

-- A table of pointers to pages, which is zero at first.
abbrev pub PageTable : Type 0
PageTable = ℕ → Option ℕ

-- The pointers of `struct dynamap_ctx`, `none` and `false` for NULL; whether `extend_work` was
-- initialised and is queued; and `slot_max_count`.
pub record MapSetup : Type 0 where
  pub backing_file : FilePtr
  pub virt_table : Option PageTable
  pub phys_table : Option PageTable
  pub map_entries : ℕ
  pub bitmap_block : Bool
  pub wq : Bool
  pub work_func : Bool
  pub work_queued : Bool
  pub max_count : ℕ
  pub ledger : Ledger

abbrev pub add_page : Option ℕ → List ℕ → List ℕ
add_page none l = l
add_page (some a) l = a ∷ l

-- The pages of a table's entries, `n` of them from `i` on.
unfoldable pub table_pages : ℕ → ℕ → PageTable → List ℕ
table_pages zero i t = []
table_pages (suc n) i t = add_page (t i) (table_pages n (suc i) t)

-- The parts of `dynamap_cleanup`, in their order.
unfoldable pub cancel_extend : MapSetup → MapSetup
cancel_extend s = if s.work_func then record s { work_queued = false } else s

unfoldable pub destroy_queue : MapSetup → MapSetup
destroy_queue s =
    if s.wq
    then record s {
      wq = false;
      ledger = record s.ledger { queues_destroyed = suc s.ledger.queues_destroyed };
    }
    else s

unfoldable pub free_bitmap : MapSetup → MapSetup
free_bitmap s =
    if s.bitmap_block
    then record s { bitmap_block = false; ledger = record s.ledger { frees = suc s.ledger.frees } }
    else s

-- A table goes with the pages in it.
unfoldable pub free_pages : ℕ → PageTable → Ledger → Ledger
free_pages n t l = record l {
  frees = suc l.frees;
  pages_freed = table_pages n 0 t ++ l.pages_freed;
}

unfoldable pub free_virt : Option PageTable → MapSetup → MapSetup
free_virt none s = s
free_virt (some t) s = record s { virt_table = none; ledger = free_pages s.map_entries t s.ledger }

unfoldable pub free_phys : Option PageTable → MapSetup → MapSetup
free_phys none s = s
free_phys (some t) s = record s { phys_table = none; ledger = free_pages s.map_entries t s.ledger }

-- The pointer is not cleared, and an error pointer is not NULL.
unfoldable pub close_file : FilePtr → MapSetup → MapSetup
close_file null_file s = s
close_file open_file s = record s { ledger = record s.ledger { closes = suc s.ledger.closes } }
close_file error_file s = record s {
  ledger = record s.ledger { error_closes = suc s.ledger.error_closes };
}

-- All but the file.
unfoldable pub free_all : MapSetup → MapSetup
free_all s =
    let t = free_bitmap (destroy_queue (cancel_extend s)) in
    let u = free_virt t.virt_table t in free_phys u.phys_table u

unfoldable pub dynamap_cleanup : MapSetup → MapSetup
dynamap_cleanup s = let t = free_all s in close_file t.backing_file t
