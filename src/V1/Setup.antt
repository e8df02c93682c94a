-- ===== src/V1/Setup.antt =====
-- dynamap_init of src/driver/src/dynamap.c, with the ledger of V1/Cleanup.
pub mod Account
pub mod Balance
pub mod Init
pub mod Stages
pub mod Outcome
pub mod Fresh
use dynaswap.Base.{
  ℕ, zero, suc, ◌+◌, ◌-◌, ◌/◌, ◌^◌, ℤ, pos, neg, Bool, true, false, not, ◌&&◌, List, [], ◌∷◌, ◌++◌,
  Option, none, some, if◌then◌else◌, ◌==◌, nonzero, shr,
}
use dynaswap.V2.Bimap.{enomem}
use dynaswap.V1.Dynamap.{DynamapCtx, no_slot}
use dynaswap.V1.Cleanup.{
  FilePtr, Ledger, PageTable, MapSetup, add_page, table_pages, cancel_extend, destroy_queue,
  free_bitmap, free_pages, free_virt, free_phys, close_file, free_all, dynamap_cleanup, null_file,
  open_file, error_file,
}

-- What the kernel answers: 0 or the error of `filp_open`, whether the three blocks and the work
-- queue are made, and the page that each call of `__get_free_page` gives.
pub record SetupAnswers : Type 0 where
  pub filp_open_result : ℤ
  pub virt_block : Bool
  pub phys_block : Bool
  pub get_free_page : ℕ → Option ℕ
  pub bits_block : Bool
  pub alloc_workqueue : Bool

abbrev pub is_some : Option ℕ → Bool
is_some none = false
is_some (some a) = true

-- One round of the loop over the directories: two pages, with what `pages_got` becomes.
pub record Filling : Type 0 where
  pub virt : PageTable
  pub phys : PageTable
  pub got : List ℕ

abbrev pub set_page : ℕ → Option ℕ → PageTable → PageTable
set_page i a t j = if i == j then a else t j

unfoldable pub fill_entry : (ℕ → Option ℕ) → ℕ → Filling → Filling
fill_entry get i d = record {
  virt = set_page i (get (i + i)) d.virt;
  phys = set_page i (get (i + i + 1)) d.phys;
  got = add_page (get (i + i + 1)) (add_page (get (i + i)) d.got);
}

-- The loop, `n` rounds from `i` on, and whether it came to its end.
unfoldable pub fill_entries : (ℕ → Option ℕ) → ℕ → ℕ → Filling → Bool × Filling
fill_entries get zero i d = (true, d)
fill_entries get (suc n) i d =
    let d' = fill_entry get i d in
    let rest = fill_entries get n (suc i) d' in
    if is_some (get (i + i)) && is_some (get (i + i + 1)) then rest else (false, d')

abbrev pub total_pages : ℕ → ℕ
total_pages total_capacity = shr total_capacity 12

-- DIV_ROUND_UP
abbrev pub nr_dirs : ℕ → ℕ
nr_dirs total_capacity = (total_pages total_capacity + 511) / 512

-- A zeroed table, if there is memory for it.
abbrev pub new_table : Bool → Option PageTable
new_table b = if b then some (λ i. none) else none

abbrev pub add_if : Bool → ℕ → ℕ
add_if true n = suc n
add_if false n = n

module _ (a : SetupAnswers) (total_capacity : ℕ) where
  unfoldable pub open_backing : MapSetup → ℤ × MapSetup
  open_backing s =
      if nonzero a.filp_open_result
      then (a.filp_open_result, record s { backing_file = error_file })
      else (
        pos 0,
        record s {
          backing_file = open_file;
          ledger = record s.ledger { opens = suc s.ledger.opens };
        },
      )

  unfoldable pub alloc_tables : MapSetup → Bool × MapSetup
  alloc_tables s = (
    a.virt_block && a.phys_block,
    record s {
      map_entries = nr_dirs total_capacity;
      virt_table = new_table a.virt_block;
      phys_table = new_table a.phys_block;
      ledger = record s.ledger {
        allocs = add_if a.phys_block (add_if a.virt_block s.ledger.allocs);
      };
    },
  )

  -- The loop runs on the two zeroed tables.
  unfoldable pub fill_tables : MapSetup → Bool × MapSetup
  fill_tables s =
      let (done, d) =
        fill_entries a.get_free_page (nr_dirs total_capacity) 0
          (record { virt = λ i. none; phys = λ i. none; got = s.ledger.pages_got }) in
      (
        done,
        record s {
          virt_table = some d.virt;
          phys_table = some d.phys;
          ledger = record s.ledger { pages_got = d.got };
        },
      )

  unfoldable pub alloc_bitmap : MapSetup → Bool × MapSetup
  alloc_bitmap s = (
    a.bits_block,
    record s {
      bitmap_block = a.bits_block;
      ledger = record s.ledger { allocs = add_if a.bits_block s.ledger.allocs };
    },
  )

  unfoldable pub alloc_queue : MapSetup → Bool × MapSetup
  alloc_queue s = (
    a.alloc_workqueue,
    record s {
      max_count = total_pages total_capacity;
      wq = a.alloc_workqueue;
      ledger = record s.ledger { queues_made = add_if a.alloc_workqueue s.ledger.queues_made };
    },
  )

  -- The label `fail`.
  abbrev pub or_fail : Bool × MapSetup → (MapSetup → ℤ × MapSetup) → ℤ × MapSetup
  or_fail (true, s) next = next s
  or_fail (false, s) next = (neg enomem, dynamap_cleanup s)

  -- After the file is open.
  unfoldable pub init_tables : MapSetup → ℤ × MapSetup
  init_tables s = or_fail (alloc_tables s) λ s₁. or_fail (fill_tables s₁) λ s₂.
      or_fail (alloc_bitmap s₂) λ s₃.
        or_fail (alloc_queue s₃) λ s₄. (pos 0, record s₄ { work_func = true; work_queued = true })

  -- An error pointer is left behind where the file cannot be opened.
  unfoldable pub dynamap_init : MapSetup → ℤ × MapSetup
  dynamap_init s =
      let (opened, t) = open_backing s in
      let rest = init_tables t in if nonzero opened then (opened, t) else rest

-- The map that the first request finds: `memset` has filled the pages with 0xFF.
unfoldable pub fresh_ctx : MapSetup → DynamapCtx
fresh_ctx s = record {
  has_dir = λ i. elim (s.virt_table) [ none ↦ false | some t ↦ is_some (t i) ];
  virt_to_phys_map = λ dir leaf. no_slot;
  slot_bitmap = λ i. false;
  slot_hint = 0;
  slot_max_count = s.max_count;
  total_slots = 0;
  active_slots = 0;
}
