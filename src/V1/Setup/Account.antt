-- ===== src/V1/Setup/Account.antt =====
-- What the setup of src/driver/src/dynamap.c takes and still holds.
use dynaswap.Base.{
  ℕ, zero, suc, ◌+◌, ◌≤◌, ◌<◌, ◌≡◌, refl, sym, ap, ◌∙◌, Bool, ◌&&◌, List, [], ◌∷◌, ◌++◌, Option,
  none, some, if◌then◌else◌, ◌==◌, ==→eq, ==→ne, arith, if_cases,
}
use dynaswap.V1.Setup.{is_some, set_page, Filling, fill_entry, fill_entries}
use dynaswap.V1.Cleanup.{PageTable, add_page, table_pages}

-- How often an address is in a list of pages, and in one entry.
abbrev pub times : ℕ → List ℕ → ℕ
times q [] = 0
times q (a ∷ l) = if q == a then suc (times q l) else times q l

abbrev pub times_entry : ℕ → Option ℕ → ℕ
times_entry q none = 0
times_entry q (some a) = if q == a then 1 else 0

pub times-append : (q : ℕ) (l m : List ℕ) → times q (l ++ m) ≡ times q l + times q m
times-append q [] m = omega arith
times-append q (a ∷ l) m = ground (arith, times-append q l m)

times-add_page :
    (q : ℕ) (o : Option ℕ) (l : List ℕ) → times q (add_page o l) ≡ times_entry q o + times q l
times-add_page q none l = omega arith
times-add_page q (some a) l = ground arith

-- A page put into an empty entry is one page more.
table_pages-below :
    (q n j i : ℕ) (a : Option ℕ) (t : PageTable)
    → i < j
    → times q (table_pages n j (set_page i a t)) ≡ times q (table_pages n j t)
unfolding table_pages
table_pages-below q zero j i a t lt = refl
table_pages-below q (suc n) j i a t lt = ground (
  arith,
  times-add_page q (set_page i a t j) (table_pages n (suc j) (set_page i a t)),
  times-add_page q (t j) (table_pages n (suc j) t),
  table_pages-below q n (suc j) i a t (omega arith),
)

table_pages-set :
    (q n j i : ℕ) (a : Option ℕ) (t : PageTable)
    → j ≤ i
    → i < j + n
    → t i ≡ none
    → times q (table_pages n j (set_page i a t)) ≡ times_entry q a + times q (table_pages n j t)
unfolding table_pages
table_pages-set q zero j i a t le lt e = absurd (omega arith)
table_pages-set q (suc n) j i a t le lt e =
    if_cases
      (λ o.
        times q (add_page o (table_pages n (suc j) (set_page i a t)))
        ≡ times_entry q a + times q (add_page (t j) (table_pages n (suc j) t)))
      (i == j)
      (λ h. omega (
        arith,
        times-add_page q a (table_pages n (suc j) (set_page i a t)),
        ap (λ o. times q (add_page o (table_pages n (suc j) t))) (ap t (sym (==→eq i j h)) ∙ e),
        table_pages-below q n (suc j) i a t (omega (arith, ==→eq i j h)),
      ))
      (λ h. omega (
        arith,
        times-add_page q (t j) (table_pages n (suc j) (set_page i a t)),
        times-add_page q (t j) (table_pages n (suc j) t),
        table_pages-set q n (suc j) i a t (omega (arith, ==→ne i j h)) (omega arith) e,
      ))

-- The loop at entry `i`: the entries from there on are empty, and the pages got are those there
-- were and those in the tables.
pub record IsFilling (old : List ℕ) (n i : ℕ) (d : Filling) : Type 0 where
  pub virt_empty : (j : ℕ) → i ≤ j → d.virt j ≡ none
  pub phys_empty : (j : ℕ) → i ≤ j → d.phys j ≡ none
  pub pages :
      (q : ℕ)
      → times q d.got
        ≡ times q old + times q (table_pages n 0 d.virt) + times q (table_pages n 0 d.phys)

fill_entry-IsFilling :
    (get : ℕ → Option ℕ) (old : List ℕ) (n i : ℕ) (d : Filling)
    → i < n
    → IsFilling old n i d
    → IsFilling old n (suc i) (fill_entry get i d)
unfolding fill_entry
fill_entry-IsFilling get old n i d lt f = record {
  virt_empty = λ j le. ground (arith, f.virt_empty j (omega arith));
  phys_empty = λ j le. ground (arith, f.phys_empty j (omega arith));
  pages = λ q. omega (
    arith,
    f.pages q,
    times-add_page q (get (i + i + 1)) (add_page (get (i + i)) d.got),
    times-add_page q (get (i + i)) d.got,
    table_pages-set q n 0 i (get (i + i)) d.virt (omega arith) (omega arith)
        (f.virt_empty i (omega arith)),
    table_pages-set q n 0 i (get (i + i + 1)) d.phys (omega arith) (omega arith)
        (f.phys_empty i (omega arith)),
  );
}

-- The loop, complete or not: the pages are accounted for.
pub fill_entries-pages :
    (get : ℕ → Option ℕ) (old : List ℕ) (n m i : ℕ) (d : Filling)
    → i + m ≡ n
    → IsFilling old n i d
    → (j : ℕ) × IsFilling old n j (fill_entries get m i d).1
unfolding fill_entries
fill_entries-pages get old n zero i d e f = (i, f)
fill_entries-pages get old n (suc m) i d e f =
    let next = fill_entry-IsFilling get old n i d (omega arith) f in
    if_cases (λ (r : Bool × Filling). (j : ℕ) × IsFilling old n j r.1)
      (is_some (get (i + i)) && is_some (get (i + i + 1)))
      (λ _. fill_entries-pages get old n m (suc i) (fill_entry get i d) (omega arith) next)
      (λ _. (suc i, next))
