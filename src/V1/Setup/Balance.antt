-- ===== src/V1/Setup/Balance.antt =====
-- The ledger of the setup and the teardown of src/driver/src/dynamap.c.
use dynaswap.Base.{ℕ, ◌+◌, ◌≡◌, refl, ap, ◌∙◌, true, false, Option, none, some, arith, if_cases}
use dynaswap.V1.Setup.{add_if}
use dynaswap.V1.Cleanup.{
  PageTable, Ledger, MapSetup, table_pages, cancel_extend, destroy_queue, free_bitmap, free_pages,
  free_virt, free_phys, free_all,
}
use dynaswap.V1.Setup.Account.{times, times-append}

-- What a table holds.
abbrev pub held : ℕ → ℕ → Option PageTable → ℕ
held q n none = 0
held q n (some t) = times q (table_pages n 0 t)

abbrev pub block : Option PageTable → ℕ
block none = 0
block (some t) = 1

-- What was taken is given back or still held.
pub record Accounted (s : MapSetup) : Type 0 where
  pub pages :
      (q : ℕ)
      → times q s.ledger.pages_got
        ≡ times q s.ledger.pages_freed
          + held q s.map_entries s.virt_table
          + held q s.map_entries s.phys_table
  pub blocks :
      s.ledger.allocs
      ≡ s.ledger.frees + block s.virt_table + block s.phys_table + add_if s.bitmap_block 0
  pub queues : s.ledger.queues_made ≡ s.ledger.queues_destroyed + add_if s.wq 0
  pub work : s.work_queued ≡ true → s.work_func ≡ true

-- All is given back.
pub record IsBalanced (l : Ledger) : Type 0 where
  pub pages : (q : ℕ) → times q l.pages_got ≡ times q l.pages_freed
  pub blocks : l.allocs ≡ l.frees
  pub queues : l.queues_made ≡ l.queues_destroyed

-- No pointer is left but that of the file.
pub record IsEmpty (s : MapSetup) : Type 0 where
  pub virt : s.virt_table ≡ none
  pub phys : s.phys_table ≡ none
  pub bitmap : s.bitmap_block ≡ false
  pub queue : s.wq ≡ false
  pub work : s.work_queued ≡ false

-- The file and what was done with it are left alone.
pub record IsFileKept (s t : MapSetup) : Type 0 where
  pub file : t.backing_file ≡ s.backing_file
  pub opens : t.ledger.opens ≡ s.ledger.opens
  pub closes : t.ledger.closes ≡ s.ledger.closes
  pub error_closes : t.ledger.error_closes ≡ s.ledger.error_closes

-- One part of the teardown.
record IsPart (s t : MapSetup) : Type 0 where
  accounted : Accounted s → Accounted t
  kept : IsFileKept s t

all_kept : (s : MapSetup) → IsFileKept s s
all_kept s = record { file = refl; opens = refl; closes = refl; error_closes = refl }

free_virt-IsPart :
    (o : Option PageTable) (s : MapSetup)
    → s.virt_table ≡ o
    → IsPart s (free_virt o s)
      × ((free_virt o s).virt_table ≡ none)
      × ((free_virt o s).bitmap_block ≡ s.bitmap_block)
      × ((free_virt o s).wq ≡ s.wq)
      × ((free_virt o s).work_queued ≡ s.work_queued)
unfolding free_virt free_pages
free_virt-IsPart none s e = (record { accounted = λ h. h; kept = all_kept s }, e, refl, refl, refl)
free_virt-IsPart (some t) s e = (
  record {
    accounted = λ h. record {
      pages = λ q. omega (
        arith,
        h.pages q,
        times-append q (table_pages s.map_entries 0 t) s.ledger.pages_freed,
        ap (held q s.map_entries) e,
      );
      blocks = omega (arith, h.blocks, ap block e);
      queues = h.queues;
      work = h.work;
    };
    kept = record { file = refl; opens = refl; closes = refl; error_closes = refl };
  },
  refl,
  refl,
  refl,
  refl,
)

free_phys-IsPart :
    (o : Option PageTable) (s : MapSetup)
    → s.phys_table ≡ o
    → IsPart s (free_phys o s)
      × ((free_phys o s).phys_table ≡ none)
      × ((free_phys o s).virt_table ≡ s.virt_table)
      × ((free_phys o s).bitmap_block ≡ s.bitmap_block)
      × ((free_phys o s).wq ≡ s.wq)
      × ((free_phys o s).work_queued ≡ s.work_queued)
unfolding free_phys free_pages
free_phys-IsPart none s e =
    (record { accounted = λ h. h; kept = all_kept s }, e, refl, refl, refl, refl)
free_phys-IsPart (some t) s e = (
  record {
    accounted = λ h. record {
      pages = λ q. omega (
        arith,
        h.pages q,
        times-append q (table_pages s.map_entries 0 t) s.ledger.pages_freed,
        ap (held q s.map_entries) e,
      );
      blocks = omega (arith, h.blocks, ap block e);
      queues = h.queues;
      work = h.work;
    };
    kept = record { file = refl; opens = refl; closes = refl; error_closes = refl };
  },
  refl,
  refl,
  refl,
  refl,
  refl,
)

free_bitmap-IsPart :
    (s : MapSetup)
    → let t = free_bitmap s in
      IsPart s t × (t.bitmap_block ≡ false) × (t.wq ≡ s.wq) × (t.work_queued ≡ s.work_queued)
unfolding free_bitmap
free_bitmap-IsPart s =
    if_cases
      (λ t. IsPart s t × (t.bitmap_block ≡ false) × (t.wq ≡ s.wq) × (t.work_queued ≡ s.work_queued))
      s.bitmap_block
      (λ e. (
        record {
          accounted = λ h. record {
            pages = h.pages;
            blocks = omega (arith, h.blocks, ap (λ b. add_if b 0) e);
            queues = h.queues;
            work = h.work;
          };
          kept = record { file = refl; opens = refl; closes = refl; error_closes = refl };
        },
        refl,
        refl,
        refl,
      ))
      (λ e. (record { accounted = λ h. h; kept = all_kept s }, e, refl, refl))

destroy_queue-IsPart :
    (s : MapSetup)
    → let t = destroy_queue s in IsPart s t × (t.wq ≡ false) × (t.work_queued ≡ s.work_queued)
unfolding destroy_queue
destroy_queue-IsPart s =
    if_cases (λ t. IsPart s t × (t.wq ≡ false) × (t.work_queued ≡ s.work_queued)) s.wq
      (λ e. (
        record {
          accounted = λ h. record {
            pages = h.pages;
            blocks = h.blocks;
            queues = omega (arith, h.queues, ap (λ b. add_if b 0) e);
            work = h.work;
          };
          kept = record { file = refl; opens = refl; closes = refl; error_closes = refl };
        },
        refl,
        refl,
      ))
      (λ e. (record { accounted = λ h. h; kept = all_kept s }, e, refl))

cancel_extend_part :
    (s : MapSetup)
    → Accounted s
    → Accounted (cancel_extend s)
      × IsFileKept s (cancel_extend s)
      × ((cancel_extend s).work_queued ≡ false)
unfolding cancel_extend
cancel_extend_part s h =
    if_cases (λ t. Accounted t × IsFileKept s t × (t.work_queued ≡ false)) s.work_func
      (λ e. (
        record { pages = h.pages; blocks = h.blocks; queues = h.queues; work = λ z. ground arith },
        record { file = refl; opens = refl; closes = refl; error_closes = refl },
        refl,
      ))
      (λ e. (h, all_kept s, ground (arith, h.work)))

kept_trans : {s t u : MapSetup} → IsFileKept s t → IsFileKept t u → IsFileKept s u
kept_trans f g = record {
  file = g.file ∙ f.file;
  opens = g.opens ∙ f.opens;
  closes = g.closes ∙ f.closes;
  error_closes = g.error_closes ∙ f.error_closes;
}

-- Everything but the file is given back.
pub free_all_lem :
    (s : MapSetup)
    → Accounted s
    → Accounted (free_all s) × IsEmpty (free_all s) × IsFileKept s (free_all s)
unfolding free_all
free_all_lem s h =
    let s₁ = cancel_extend s in
    let s₂ = destroy_queue s₁ in
    let s₃ = free_bitmap s₂ in
    let s₄ = free_virt s₃.virt_table s₃ in
    let p₁ = cancel_extend_part s h in
    let p₂ = destroy_queue-IsPart s₁ in
    let p₃ = free_bitmap-IsPart s₂ in
    let p₄ = free_virt-IsPart s₃.virt_table s₃ refl in
    let p₅ = free_phys-IsPart s₄.phys_table s₄ refl in
    (
      p₅.0.accounted (p₄.0.accounted (p₃.0.accounted (p₂.0.accounted p₁.0))),
      record {
        virt = p₅.2 ∙ p₄.1;
        phys = p₅.1;
        bitmap = p₅.3 ∙ p₄.2 ∙ p₃.1;
        queue = p₅.4 ∙ p₄.3 ∙ p₃.2 ∙ p₂.1;
        work = p₅.5 ∙ p₄.4 ∙ p₃.3 ∙ p₂.2 ∙ p₁.2;
      },
      kept_trans p₁.1
          (kept_trans p₂.0.kept (kept_trans p₃.0.kept (kept_trans p₄.0.kept p₅.0.kept))),
    )
