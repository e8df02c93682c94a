-- ===== src/V1/Setup/Stages.antt =====
-- The parts of dynamap_init of src/driver/src/dynamap.c keep the ledger.
use dynaswap.Base.{ℕ, zero, suc, ◌+◌, ◌≡◌, refl, ap, Bool, true, false, none, some, arith}
use dynaswap.V1.Setup.{
  SetupAnswers, Filling, fill_entries, new_table, add_if, alloc_tables, fill_tables, alloc_bitmap,
  alloc_queue, nr_dirs,
}
use dynaswap.V1.Cleanup.{MapSetup, table_pages}
use dynaswap.V1.Setup.Account.{times, IsFilling, fill_entries-pages}
use dynaswap.V1.Setup.Balance.{held, block, Accounted, IsEmpty}

pub no_pages : (q n i : ℕ) → times q (table_pages n i (λ j. none)) ≡ 0
unfolding table_pages
no_pages q zero i = refl
no_pages q (suc n) i = no_pages q n (suc i)

held-new : (q n : ℕ) (b : Bool) → held q n (new_table b) ≡ 0
held-new q n true = no_pages q n 0
held-new q n false = refl

add_if-block :
    (b c : Bool) (n : ℕ) → add_if c (add_if b n) ≡ n + block (new_table b) + block (new_table c)
add_if-block true true n = omega arith
add_if-block true false n = omega arith
add_if-block false true n = omega arith
add_if-block false false n = omega arith

add_if_lem : (b : Bool) (n : ℕ) → add_if b n ≡ n + add_if b 0
add_if_lem true n = omega arith
add_if_lem false n = omega arith

module _ (a : SetupAnswers) (total_capacity : ℕ) where
  pub alloc_tables-Accounted :
      (s : MapSetup) → Accounted s → IsEmpty s → Accounted (alloc_tables a total_capacity s).1
  unfolding alloc_tables
  alloc_tables-Accounted s h e = record {
    pages = λ q. omega (
      arith,
      h.pages q,
      ap (held q s.map_entries) e.virt,
      ap (held q s.map_entries) e.phys,
      held-new q (nr_dirs total_capacity) a.virt_block,
      held-new q (nr_dirs total_capacity) a.phys_block,
    );
    blocks = omega (
      arith,
      h.blocks,
      ap block e.virt,
      ap block e.phys,
      add_if-block a.virt_block a.phys_block s.ledger.allocs,
    );
    queues = h.queues;
    work = h.work;
  }

  -- The two tables are there and empty.
  abbrev pub HasTables : MapSetup → Type 0
  HasTables s =
      (s.virt_table ≡ some (λ i. none))
      × (s.phys_table ≡ some (λ i. none))
      × (s.map_entries ≡ nr_dirs total_capacity)

  pub fill_tables-Accounted :
      (s : MapSetup) → Accounted s → HasTables s → Accounted (fill_tables a total_capacity s).1
  unfolding fill_tables
  fill_tables-Accounted s h (v, p, n) = record {
    pages = λ q. omega (
      arith,
      h.pages q,
      ap (held q s.map_entries) v,
      ap (held q s.map_entries) p,
      no_pages q s.map_entries 0,
      filled.pages q,
      ap (λ m. times q (table_pages m 0 d.virt)) n,
      ap (λ m. times q (table_pages m 0 d.phys)) n,
    );
    blocks = omega (arith, h.blocks, ap block v, ap block p);
    queues = h.queues;
    work = h.work;
  }
    where
      start : Filling
      start = record { virt = λ i. none; phys = λ i. none; got = s.ledger.pages_got }

      start-IsFilling : IsFilling s.ledger.pages_got (nr_dirs total_capacity) 0 start
      start-IsFilling = record {
        virt_empty = λ j le. refl;
        phys_empty = λ j le. refl;
        pages = λ q. omega (arith, no_pages q (nr_dirs total_capacity) 0);
      }

      d : Filling
      d = (fill_entries a.get_free_page (nr_dirs total_capacity) 0 start).1

      filled :
          IsFilling s.ledger.pages_got
            (nr_dirs total_capacity)
            (fill_entries-pages a.get_free_page s.ledger.pages_got
              (nr_dirs total_capacity)
              (nr_dirs total_capacity)
              0
              start
              (omega arith)
              start-IsFilling).0
            d
      filled =
          (fill_entries-pages a.get_free_page s.ledger.pages_got (nr_dirs total_capacity)
            (nr_dirs total_capacity) 0 start (omega arith) start-IsFilling).1

  pub alloc_bitmap-Accounted :
      (s : MapSetup)
      → Accounted s
      → s.bitmap_block ≡ false
      → Accounted (alloc_bitmap a total_capacity s).1
  unfolding alloc_bitmap
  alloc_bitmap-Accounted s h e = record {
    pages = h.pages;
    blocks =
        omega (arith, h.blocks, ap (λ b. add_if b 0) e, add_if_lem a.bits_block s.ledger.allocs);
    queues = h.queues;
    work = h.work;
  }

  pub alloc_queue-Accounted :
      (s : MapSetup) → Accounted s → s.wq ≡ false → Accounted (alloc_queue a total_capacity s).1
  unfolding alloc_queue
  alloc_queue-Accounted s h e = record {
    pages = h.pages;
    blocks = h.blocks;
    queues = omega (
      arith,
      h.queues,
      ap (λ b. add_if b 0) e,
      add_if_lem a.alloc_workqueue s.ledger.queues_made,
    );
    work = h.work;
  }
