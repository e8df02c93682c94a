-- ===== src/V1/Setup/Outcome.antt =====
-- The three ways in which dynamap_init of src/driver/src/dynamap.c ends.
use dynaswap.Base.{
  ℕ, suc, ◌+◌, ◌<◌, ◌≡◌, refl, sym, ap, ap₂, ◌∙◌, Bool, true, false, ◌&&◌, none, if◌then◌else◌,
  arith, if_cases, nonzero, ℤ, pos, neg,
}
use dynaswap.V2.Bimap.{enomem}
use dynaswap.V1.Setup.{
  SetupAnswers, Filling, fill_entries, new_table, open_backing, alloc_tables, fill_tables,
  alloc_bitmap, alloc_queue, or_fail, init_tables, dynamap_init, nr_dirs, total_pages, fresh_ctx,
}
use dynaswap.V1.Cleanup.{MapSetup, open_file, error_file, dynamap_cleanup}
use dynaswap.V1.Setup.Balance.{Accounted, IsEmpty}
use dynaswap.V1.Setup.Stages.{
  alloc_tables-Accounted, fill_tables-Accounted, alloc_bitmap-Accounted, alloc_queue-Accounted,
}
use dynaswap.V1.Setup.Init.{
  open_count, error_count, IsTornDown, Granted, both, dynamap_cleanup-IsTornDown,
  fill_entries_granted, fill_entries_end, fill_entries_set,
}

-- The file is open, the map is complete with its queue, and the first extension is queued.
pub record IsSetUp (total_capacity : ℕ) (s t : MapSetup) : Type 0 where
  pub accounted : Accounted t
  pub file : t.backing_file ≡ open_file
  pub dirs : (j : ℕ) → j < nr_dirs total_capacity → (fresh_ctx t).has_dir j ≡ true
  pub bitmap : t.bitmap_block ≡ true
  pub queue : t.wq ≡ true
  pub work : t.work_queued ≡ true
  pub max_count : t.max_count ≡ total_pages total_capacity
  pub opens : t.ledger.opens ≡ suc s.ledger.opens
  pub closes : t.ledger.closes ≡ s.ledger.closes
  pub error_closes : t.ledger.error_closes ≡ s.ledger.error_closes

-- With the file open.
abbrev pub opened : MapSetup → MapSetup
opened s = record s {
  backing_file = open_file;
  ledger = record s.ledger { opens = suc s.ledger.opens };
}

pub data InitOutcome (a : SetupAnswers) (total_capacity : ℕ) (s : MapSetup) (r : ℤ × MapSetup)
    : Type 0 where
  not_opened :
      nonzero a.filp_open_result ≡ true
      → r ≡ (a.filp_open_result, record s { backing_file = error_file })
      → InitOutcome a total_capacity s r
  torn_down :
      nonzero a.filp_open_result ≡ false
      → ¬ Granted a (nr_dirs total_capacity)
      → r.0 ≡ neg enomem
      → IsTornDown (opened s) r.1
      → InitOutcome a total_capacity s r
  set_up :
      nonzero a.filp_open_result ≡ false
      → Granted a (nr_dirs total_capacity)
      → r.0 ≡ pos 0
      → IsSetUp total_capacity s r.1
      → InitOutcome a total_capacity s r

-- The label.
or_fail_lem :
    (a : SetupAnswers) (total_capacity : ℕ) (P : ℤ × MapSetup → Type 0) (r : Bool × MapSetup)
    (next : MapSetup → ℤ × MapSetup)
    → (r.0 ≡ false → P (neg enomem, dynamap_cleanup r.1))
    → (r.0 ≡ true → P (next r.1))
    → P (or_fail a total_capacity r next)
or_fail_lem a total_capacity P (true, s) next f g = g refl
or_fail_lem a total_capacity P (false, s) next f g = f refl

IsTornDown-as :
    (s u t : MapSetup)
    → u.backing_file ≡ s.backing_file
    → u.ledger.opens ≡ s.ledger.opens
    → u.ledger.closes ≡ s.ledger.closes
    → u.ledger.error_closes ≡ s.ledger.error_closes
    → IsTornDown u t
    → IsTornDown s t
IsTornDown-as s u t f o c e h = record {
  balanced = h.balanced;
  empty = h.empty;
  file = h.file ∙ f;
  opens = h.opens ∙ o;
  closes = h.closes ∙ ap₂ (λ x y. x + open_count y) c f;
  error_closes = h.error_closes ∙ ap₂ (λ x y. x + error_count y) e f;
}

module _ (a : SetupAnswers) (total_capacity : ℕ) (s : MapSetup) (h : Accounted s)
    (e : IsEmpty s) where
  -- A part that fails is torn down.
  fails :
      (u : MapSetup)
      → nonzero a.filp_open_result ≡ false
      → ¬ Granted a (nr_dirs total_capacity)
      → u.backing_file ≡ open_file
      → u.ledger.opens ≡ suc s.ledger.opens
      → u.ledger.closes ≡ s.ledger.closes
      → u.ledger.error_closes ≡ s.ledger.error_closes
      → Accounted u
      → InitOutcome a total_capacity s (neg enomem, dynamap_cleanup u)
  fails u z g f o c x hu =
      torn_down z g refl
        (IsTornDown-as (opened s) u (dynamap_cleanup u) f o c x (dynamap_cleanup-IsTornDown u hu))

  init_tables_lem :
      nonzero a.filp_open_result ≡ false
      → InitOutcome a total_capacity s (init_tables a total_capacity (opened s))
  unfolding init_tables alloc_tables fill_tables alloc_bitmap alloc_queue fresh_ctx
  init_tables_lem z =
      or_fail_lem a total_capacity P (alloc_tables a total_capacity (opened s)) _
        (λ f. fails u₁ z (λ g. ground (arith, g.virt_block, g.phys_block)) refl refl refl refl h₁)
        λ g₁.
          or_fail_lem a total_capacity P (fill_tables a total_capacity u₁) _
            (λ f. fails u₂ z (λ g. incomplete f g.pages) refl refl refl refl (h₂ g₁))
            λ g₂.
              or_fail_lem a total_capacity P (alloc_bitmap a total_capacity u₂) _
                (λ f. fails u₃ z (λ g. ground (arith, g.bits_block)) refl refl refl refl (h₃ g₁))
                λ g₃.
                  or_fail_lem a total_capacity P (alloc_queue a total_capacity u₃) _
                    (λ f. fails u₄ z (λ g. ground (arith, g.queue)) refl refl refl refl (h₄ g₁))
                    λ g₄.
                      set_up z
                        (record {
                          virt_block = (granted g₁).0;
                          phys_block = (granted g₁).1;
                          pages = λ j lt.
                              fill_entries_granted a.get_free_page (nr_dirs total_capacity) 0 start
                                g₂ j (omega arith) (omega arith);
                          bits_block = g₃;
                          queue = g₄;
                        })
                        refl
                        (record {
                          accounted = record {
                            pages = (h₄ g₁).pages;
                            blocks = (h₄ g₁).blocks;
                            queues = (h₄ g₁).queues;
                            work = λ _. refl;
                          };
                          file = refl;
                          dirs = λ j lt.
                              fill_entries_set a.get_free_page (nr_dirs total_capacity) 0 start g₂
                                (λ x lx. absurd (omega arith)) j (omega arith);
                          bitmap = g₃;
                          queue = g₄;
                          work = refl;
                          max_count = refl;
                          opens = refl;
                          closes = refl;
                          error_closes = refl;
                        })
    where
      P : ℤ × MapSetup → Type 0
      P = InitOutcome a total_capacity s

      h₀ : Accounted (opened s)
      h₀ = record { pages = h.pages; blocks = h.blocks; queues = h.queues; work = h.work }

      e₀ : IsEmpty (opened s)
      e₀ = record {
        virt = e.virt;
        phys = e.phys;
        bitmap = e.bitmap;
        queue = e.queue;
        work = e.work;
      }

      u₁ : MapSetup
      u₁ = (alloc_tables a total_capacity (opened s)).1

      u₂ : MapSetup
      u₂ = (fill_tables a total_capacity u₁).1

      u₃ : MapSetup
      u₃ = (alloc_bitmap a total_capacity u₂).1

      u₄ : MapSetup
      u₄ = (alloc_queue a total_capacity u₃).1

      h₁ : Accounted u₁
      h₁ = alloc_tables-Accounted a total_capacity (opened s) h₀ e₀

      granted :
          (a.virt_block && a.phys_block) ≡ true → (a.virt_block ≡ true) × (a.phys_block ≡ true)
      granted g = ground arith

      h₂ : (a.virt_block && a.phys_block) ≡ true → Accounted u₂
      h₂ g =
          fill_tables-Accounted a total_capacity u₁ h₁
            (ap new_table (granted g).0, ap new_table (granted g).1, refl)

      h₃ : (a.virt_block && a.phys_block) ≡ true → Accounted u₃
      h₃ g = alloc_bitmap-Accounted a total_capacity u₂ (h₂ g) e.bitmap

      h₄ : (a.virt_block && a.phys_block) ≡ true → Accounted u₄
      h₄ g = alloc_queue-Accounted a total_capacity u₃ (h₃ g) e.queue

      start : Filling
      start = record { virt = λ i. none; phys = λ i. none; got = s.ledger.pages_got }

      incomplete :
          (fill_entries a.get_free_page (nr_dirs total_capacity) 0 start).0 ≡ false
          → ¬ ((j : ℕ) → j < nr_dirs total_capacity → both a.get_free_page j ≡ true)
      incomplete f g = ground (
        arith,
        sym f
            ∙ fill_entries_end a.get_free_page (nr_dirs total_capacity) 0 start
                (λ j le lt. g j (omega arith)),
      )

  -- The setup ends in one of three ways, whatever the kernel answers.
  pub dynamap_init-outcome : InitOutcome a total_capacity s (dynamap_init a total_capacity s)
  unfolding dynamap_init open_backing
  dynamap_init-outcome =
      if_cases
        (λ (t : ℤ × MapSetup).
          InitOutcome a total_capacity s
            (if nonzero t.0 then (t.0, t.1) else init_tables a total_capacity t.1))
        (nonzero a.filp_open_result)
        (λ z.
          if_cases (InitOutcome a total_capacity s) (nonzero a.filp_open_result)
            (λ _. not_opened z refl) (λ f. ground arith))
        (λ z. init_tables_lem z)
