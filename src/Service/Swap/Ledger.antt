-- ===== src/Service/Swap/Ledger.antt =====
-- The calls of src/service/src/swaphandler.c for each path, and which files are on after them.
use dynaswap.Base.{
  ℕ, zero, suc, ◌+◌, ◌-◌, ◌≤◌, ◌≡◌, refl, ap, ◌∙◌, Bool, true, false, List, [], ◌∷◌, arith, length,
  ◌==◌, ◌&&◌, not, if_cases,
}
use dynaswap.Service.Mkswap.{File}
use dynaswap.Service.Swap.{
  Chunk, Call, swapon, swapoff, remove, Release, Swap, no_swap, free_chunk, free_swap, has_chunk,
  free_loop, free_dynamic_swap,
}
use dynaswap.Service.Swap.Stack.{pushed}

abbrev pub same_path : List ℕ → List ℕ → Bool
same_path [] [] = true
same_path (a ∷ p) (b ∷ q) = (a == b) && same_path p q
same_path _ _ = false

abbrev pub tally : Bool → ℕ → ℕ
tally true n = suc n
tally false n = n

abbrev pub less_one : Bool → ℕ → ℕ
less_one true n = n - 1
less_one false n = n

-- How often swapon, swapoff and remove are called for a path, whatever they return.
abbrev pub swapons : List ℕ → List Call → ℕ
swapons q [] = 0
swapons q (swapon path ok ∷ cs) = tally (same_path q path) (swapons q cs)
swapons q (_ ∷ cs) = swapons q cs

abbrev pub swapoffs : List ℕ → List Call → ℕ
swapoffs q [] = 0
swapoffs q (swapoff path ok ∷ cs) = tally (same_path q path) (swapoffs q cs)
swapoffs q (_ ∷ cs) = swapoffs q cs

abbrev pub removes : List ℕ → List Call → ℕ
removes q [] = 0
removes q (remove path ok ∷ cs) = tally (same_path q path) (removes q cs)
removes q (_ ∷ cs) = removes q cs

-- How often swapon and swapoff fail for a path.
abbrev pub failed_ons : List ℕ → List Call → ℕ
failed_ons q [] = 0
failed_ons q (swapon path ok ∷ cs) = tally (same_path q path && not ok) (failed_ons q cs)
failed_ons q (_ ∷ cs) = failed_ons q cs

abbrev pub failed_offs : List ℕ → List Call → ℕ
failed_offs q [] = 0
failed_offs q (swapoff path ok ∷ cs) = tally (same_path q path && not ok) (failed_offs q cs)
failed_offs q (_ ∷ cs) = failed_offs q cs

-- How many files with a path are on: a call that fails changes nothing.
abbrev pub on : List ℕ → List Call → ℕ
on q [] = 0
on q (swapon path ok ∷ cs) = tally (same_path q path && ok) (on q cs)
on q (swapoff path ok ∷ cs) = less_one (same_path q path && ok) (on q cs)
on q (_ ∷ cs) = on q cs

-- How many chunks have a path.
abbrev pub held : List ℕ → List Chunk → ℕ
held q [] = 0
held q (c ∷ cs) = tally (same_path q c.file_path) (held q cs)

-- swapon is called for a path once for each chunk that has it and for each swapoff, and remove is
-- called as often as swapoff. A file that is on is that of a chunk, or a swapoff of its path has
-- failed; the file of a chunk is on, or a swapon of its path has failed.
pub record Balanced (s : Swap) : Type 0 where
  pub on_off : (q : List ℕ) → swapons q s.calls ≡ swapoffs q s.calls + held q s.prog_swap
  pub removed : (q : List ℕ) → removes q s.calls ≡ swapoffs q s.calls
  pub most : (q : List ℕ) → on q s.calls ≤ held q s.prog_swap + failed_offs q s.calls
  pub least : (q : List ℕ) → held q s.prog_swap ≤ on q s.calls + failed_ons q s.calls

pub no_swap-Balanced : (answers : ℕ → Release) → Balanced (no_swap answers)
no_swap-Balanced answers = record {
  on_off = λ q. refl;
  removed = λ q. refl;
  most = λ q. omega arith;
  least = λ q. omega arith;
}

pub pushed-Balanced :
    (path : List ℕ) (n : ℕ) (file : File) (ok : Bool) (s : Swap)
    → Balanced s
    → Balanced (pushed path n file ok s)
pushed-Balanced path n file ok s h = record {
  on_off = λ q. ground (arith, h.on_off q);
  removed = λ q. h.removed q;
  most = λ q. ground (arith, h.most q);
  least = λ q. ground (arith, h.least q);
}

free_chunk-Balanced :
    (cs : List Chunk) (s : Swap) → Balanced s → s.prog_swap ≡ cs → Balanced (free_chunk cs s)
unfolding free_chunk
free_chunk-Balanced [] s h e = h
free_chunk-Balanced (c ∷ cs) s h e = record {
  on_off = λ q. ground (arith, h.on_off q, ap (held q) e);
  removed = λ q. ground (arith, h.removed q);
  most = λ q. ground (arith, h.most q, ap (held q) e);
  least = λ q. ground (arith, h.least q, ap (held q) e);
}

pub free_swap-Balanced : (s : Swap) → Balanced s → Balanced (free_swap s)
unfolding free_swap
free_swap-Balanced s h = free_chunk-Balanced s.prog_swap s h refl

-- Freeing turns nothing on and drops the newest chunk.
free_chunk-swapons :
    (q : List ℕ) (cs : List Chunk) (s : Swap)
    → swapons q (free_chunk cs s).calls ≡ swapons q s.calls
unfolding free_chunk
free_chunk-swapons q [] s = refl
free_chunk-swapons q (c ∷ cs) s = refl

free_chunk-length :
    (cs : List Chunk) (s : Swap) (n : ℕ)
    → s.prog_swap ≡ cs
    → length cs ≤ suc n
    → length (free_chunk cs s).prog_swap ≤ n
unfolding free_chunk
free_chunk-length [] s n e b = omega (arith, ap length e)
free_chunk-length (c ∷ cs) s n e b = omega arith

no_chunk : (cs : List Chunk) → has_chunk cs ≡ false → cs ≡ []
no_chunk [] e = refl
no_chunk (c ∷ cs) e = ground arith

length_zero : (cs : List Chunk) → length cs ≤ 0 → cs ≡ []
length_zero [] e = refl
length_zero (c ∷ cs) e = ground arith

-- The loop, with enough rounds: no chunk is left.
abbrev pub Freed : Swap → Swap → Type 0
Freed s t = (t.prog_swap ≡ []) × Balanced t × ((q : List ℕ) → swapons q t.calls ≡ swapons q s.calls)

pub free_loop_lem :
    (n : ℕ) (s : Swap) → length s.prog_swap ≤ n → Balanced s → Freed s (free_loop n s)
unfolding free_loop free_swap
free_loop_lem zero s b h = (length_zero s.prog_swap b, h, λ q. refl)
free_loop_lem (suc n) s b h =
    if_cases (Freed s) (has_chunk s.prog_swap)
      (λ e.
        let (none_left, bal, same) =
          free_loop_lem n (free_swap s) (free_chunk-length s.prog_swap s n refl b)
            (free_swap-Balanced s h) in
        (none_left, bal, λ q. same q ∙ free_chunk-swapons q s.prog_swap s))
      (λ e. (no_chunk s.prog_swap e, h, λ q. refl))

-- `free_dynamic_swap` gives up every chunk and has then called swapoff and remove for each path as
-- often as swapon; a file that is still on is one whose swapoff has failed.
pub free_dynamic_swap_lem :
    (s : Swap)
    → Balanced s
    → let t = free_dynamic_swap s in
      (t.prog_swap ≡ [])
      × ((q : List ℕ)
          → (swapoffs q t.calls ≡ swapons q t.calls)
            × (removes q t.calls ≡ swapons q t.calls)
            × (swapons q t.calls ≡ swapons q s.calls)
            × (on q t.calls ≤ failed_offs q t.calls))
unfolding free_dynamic_swap
free_dynamic_swap_lem s h =
    let (none_left, bal, same) = free_loop_lem (length s.prog_swap) s (omega arith) h in
    (
      none_left,
      λ q.
          let t = free_loop (length s.prog_swap) s in
          let off : swapoffs q t.calls ≡ swapons q t.calls =
            omega (arith, bal.on_off q, ap (held q) none_left) in
          (off, bal.removed q ∙ off, same q, omega (arith, bal.most q, ap (held q) none_left)),
    )
