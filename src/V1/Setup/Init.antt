-- ===== src/V1/Setup/Init.antt =====
-- What dynamap_init and dynamap_cleanup of src/driver/src/dynamap.c do to the ledger, on every path.
use dynaswap.Base.{
  ℕ, zero, suc, ◌+◌, ◌≤◌, ◌<◌, ◌≡◌, refl, sym, ap, subst, ◌∙◌, Bool, true, ◌&&◌, Option, ◌==◌,
  ==→eq, ==→ne, arith, Bool-cases, if_cases, inl, inr,
}
use dynaswap.V1.Setup.{SetupAnswers, is_some, Filling, fill_entry, fill_entries, add_if}
use dynaswap.V1.Cleanup.{
  MapSetup, FilePtr, null_file, open_file, error_file, close_file, free_all, dynamap_cleanup,
}
use dynaswap.V1.Setup.Balance.{held, block, Accounted, IsBalanced, IsEmpty, free_all_lem}

abbrev pub open_count : FilePtr → ℕ
open_count null_file = 0
open_count open_file = 1
open_count error_file = 0

abbrev pub error_count : FilePtr → ℕ
error_count null_file = 0
error_count open_file = 0
error_count error_file = 1

-- `t` is `s` torn down: all but the file is given back, and the file is closed, whether or not it
-- was closed before.
pub record IsTornDown (s t : MapSetup) : Type 0 where
  pub balanced : IsBalanced t.ledger
  pub empty : IsEmpty t
  pub file : t.backing_file ≡ s.backing_file
  pub opens : t.ledger.opens ≡ s.ledger.opens
  pub closes : t.ledger.closes ≡ s.ledger.closes + open_count s.backing_file
  pub error_closes : t.ledger.error_closes ≡ s.ledger.error_closes + error_count s.backing_file

balanced : (s : MapSetup) → Accounted s → IsEmpty s → IsBalanced s.ledger
balanced s h e = record {
  pages = λ q.
      omega (arith, h.pages q, ap (held q s.map_entries) e.virt, ap (held q s.map_entries) e.phys);
  blocks = omega (arith, h.blocks, ap block e.virt, ap block e.phys, ap (λ b. add_if b 0) e.bitmap);
  queues = omega (arith, h.queues, ap (λ b. add_if b 0) e.queue);
}

pub accounted : (s : MapSetup) → IsBalanced s.ledger → IsEmpty s → Accounted s
accounted s h e = record {
  pages = λ q.
      omega (arith, h.pages q, ap (held q s.map_entries) e.virt, ap (held q s.map_entries) e.phys);
  blocks = omega (arith, h.blocks, ap block e.virt, ap block e.phys, ap (λ b. add_if b 0) e.bitmap);
  queues = omega (arith, h.queues, ap (λ b. add_if b 0) e.queue);
  work = λ z. ground (arith, e.work);
}

close_file_lem :
    (f : FilePtr) (s : MapSetup)
    → s.backing_file ≡ f
    → IsBalanced s.ledger
    → IsEmpty s
    → IsTornDown s (close_file f s)
unfolding close_file
close_file_lem f s e b m = by_file f e
  where
    by_file : (f : FilePtr) → s.backing_file ≡ f → IsTornDown s (close_file f s)
    by_file null_file e = record {
      balanced = b;
      empty = m;
      file = refl;
      opens = refl;
      closes = omega (arith, ap open_count e);
      error_closes = omega (arith, ap error_count e);
    }
    by_file open_file e = record {
      balanced = record { pages = b.pages; blocks = b.blocks; queues = b.queues };
      empty = record {
        virt = m.virt;
        phys = m.phys;
        bitmap = m.bitmap;
        queue = m.queue;
        work = m.work;
      };
      file = refl;
      opens = refl;
      closes = omega (arith, ap open_count e);
      error_closes = omega (arith, ap error_count e);
    }
    by_file error_file e = record {
      balanced = record { pages = b.pages; blocks = b.blocks; queues = b.queues };
      empty = record {
        virt = m.virt;
        phys = m.phys;
        bitmap = m.bitmap;
        queue = m.queue;
        work = m.work;
      };
      file = refl;
      opens = refl;
      closes = omega (arith, ap open_count e);
      error_closes = omega (arith, ap error_count e);
    }

pub dynamap_cleanup-IsTornDown : (s : MapSetup) → Accounted s → IsTornDown s (dynamap_cleanup s)
unfolding dynamap_cleanup
dynamap_cleanup-IsTornDown s h =
    let (a, e, k) = free_all_lem s h in
    let t = free_all s in
    let c = close_file_lem t.backing_file t refl (balanced t a e) e in
    record {
      balanced = c.balanced;
      empty = c.empty;
      file = c.file ∙ k.file;
      opens = c.opens ∙ k.opens;
      closes = omega (arith, c.closes, k.closes, ap open_count k.file);
      error_closes = omega (arith, c.error_closes, k.error_closes, ap error_count k.file);
    }

-- Both pages of an entry are given.
abbrev pub both : (ℕ → Option ℕ) → ℕ → Bool
both get j = is_some (get (j + j)) && is_some (get (j + j + 1))

-- Each page and block that the setup asks for is given.
pub record Granted (a : SetupAnswers) (n : ℕ) : Type 0 where
  pub virt_block : a.virt_block ≡ true
  pub phys_block : a.phys_block ≡ true
  pub pages : (j : ℕ) → j < n → both a.get_free_page j ≡ true
  pub bits_block : a.bits_block ≡ true
  pub queue : a.alloc_workqueue ≡ true

fill_entries_step :
    (get : ℕ → Option ℕ) (m i : ℕ) (d : Filling)
    → (fill_entries get (suc m) i d).0 ≡ true
    → (both get i ≡ true)
      × (fill_entries get (suc m) i d ≡ fill_entries get m (suc i) (fill_entry get i d))
unfolding fill_entries
fill_entries_step get m i d =
    let next = fill_entries get m (suc i) (fill_entry get i d) in
    if_cases (λ (r : Bool × Filling). r.0 ≡ true → (both get i ≡ true) × (r ≡ next)) (both get i)
      (λ e h. (e, refl)) (λ e h. ground arith)

-- The loop comes to its end exactly if each of its pages is given, and then each entry is set.
pub fill_entries_granted :
    (get : ℕ → Option ℕ) (m i : ℕ) (d : Filling)
    → (fill_entries get m i d).0 ≡ true
    → (j : ℕ) → i ≤ j
    → j < i + m
    → both get j ≡ true
fill_entries_granted get zero i d h j le lt = absurd (omega arith)
fill_entries_granted get (suc m) i d h j le lt =
    let (now, e) = fill_entries_step get m i d h in
    elim (Bool-cases (i == j)) [
      | inl eq ↦ subst (λ x. both get x ≡ true) (==→eq i j eq) now
      | inr ne ↦
          fill_entries_granted get m (suc i) (fill_entry get i d) (ap (λ r. r.0) (sym e) ∙ h) j
            (omega (arith, ==→ne i j ne)) (omega arith)
    ]

pub fill_entries_end :
    (get : ℕ → Option ℕ) (m i : ℕ) (d : Filling)
    → ((j : ℕ) → i ≤ j → j < i + m → both get j ≡ true)
    → (fill_entries get m i d).0 ≡ true
unfolding fill_entries
fill_entries_end get zero i d h = refl
fill_entries_end get (suc m) i d h =
    if_cases (λ (r : Bool × Filling). r.0 ≡ true) (both get i)
      (λ _.
        fill_entries_end get m (suc i) (fill_entry get i d)
          (λ j le lt. h j (omega arith) (omega arith)))
      (λ e. ground (arith, h i (omega arith) (omega arith)))

pub fill_entries_set :
    (get : ℕ → Option ℕ) (m i : ℕ) (d : Filling)
    → (fill_entries get m i d).0 ≡ true
    → ((j : ℕ) → j < i → is_some (d.virt j) ≡ true)
    → (j : ℕ) → j < i + m
    → is_some ((fill_entries get m i d).1.virt j) ≡ true
unfolding fill_entries fill_entry
fill_entries_set get zero i d h old j lt = old j (omega arith)
fill_entries_set get (suc m) i d h old j lt =
    let (now, e) = fill_entries_step get m i d h in
    let one : is_some (get (i + i)) ≡ true = ground arith in
    ap (λ r. is_some (r.1.virt j)) e
    ∙ fill_entries_set get m (suc i) (fill_entry get i d) (ap (λ r. r.0) (sym e) ∙ h)
        (λ x lx.
          if_cases (λ o. is_some o ≡ true) (i == x) (λ _. one)
            (λ ne. old x (omega (arith, ==→ne i x ne))))
        j (omega arith)
