-- ===== src/Service/Signals/Left.antt =====
-- What the signal handler of src/service/src/dynaswap.c leaves.
use dynaswap.Base.{
  ℕ, ◌+◌, ◌≤◌, ◌≡◌, refl, sym, ap, subst, List, [], ◌∷◌, Option, none, some, arith, All, length,
  if_cases, leb, ◌&&◌,
}
use dynaswap.Service.Mkswap.{File, mkswap}
use dynaswap.Service.Swap.{
  Chunk, Swap, Grants, chunk_path, next_chunk, swap_max_count, free_chunk, free_swap, has_chunk,
  free_loop, free_dynamic_swap,
}
use dynaswap.Service.Swap.Stack.{state_of}
use dynaswap.Service.Swap.Ledger.{
  same_path, tally, swapons, swapoffs, on, failed_offs, held, Balanced,
}
use dynaswap.Service.Monitor.{takedown_dynaswap}
use dynaswap.Service.Signals.{sig_handler, add_stops, allocate_stops, free_stops}

-- Freeing all chunks calls swapoff once for each, whatever was called before, and leaves on what its
-- swapoff has failed for, and what was on without a chunk.
record IsFreed (s t : Swap) : Type 0 where
  empty : t.prog_swap ≡ []
  same : (q : List ℕ) → swapons q t.calls ≡ swapons q s.calls
  off : (q : List ℕ) → swapoffs q t.calls ≡ swapoffs q s.calls + held q s.prog_swap
  left :
      (q : List ℕ) (extra : ℕ)
      → on q s.calls ≤ held q s.prog_swap + failed_offs q s.calls + extra
      → on q t.calls ≤ failed_offs q t.calls + extra

free_loop-IsFreed :
    (cs : List Chunk) (s : Swap) → s.prog_swap ≡ cs → IsFreed s (free_loop (length cs) s)
unfolding free_loop free_swap free_chunk
free_loop-IsFreed [] s e = record {
  empty = e;
  same = λ q. refl;
  off = λ q. omega (arith, ap (held q) e);
  left = λ q extra b. omega (arith, b, ap (held q) e);
}
free_loop-IsFreed (c ∷ cs) s e =
    let popped = free_chunk (c ∷ cs) s in
    let more = free_loop-IsFreed cs popped refl in
    let all : IsFreed s (free_loop (length cs) popped) = record {
      empty = more.empty;
      same = λ q. more.same q;
      off = λ q. ground (arith, more.off q, ap (held q) e);
      left = λ q extra b. more.left q extra (ground (arith, b, ap (held q) e));
    } in
    if_cases (IsFreed s) (has_chunk s.prog_swap)
      (λ _. subst (λ l. IsFreed s (free_loop (length cs) (free_chunk l s))) (sym e) all)
      (λ z. ground (arith, ap has_chunk e))

-- The handler has left no chunk; but for `extra` of each path, swapoff was called as often as swapon,
-- and only the files are on whose swapoff has failed.
abbrev pub Leaves : (List ℕ → ℕ) → Swap → Type 0
Leaves extra x =
    let t = state_of (sig_handler x) in
    (t.prog_swap ≡ [])
    × ((q : List ℕ)
        → (swapons q t.calls ≤ swapoffs q t.calls + extra q)
          × (on q t.calls ≤ failed_offs q t.calls + extra q))

handled :
    (extra : List ℕ → ℕ) (x : Swap)
    → ((q : List ℕ) → swapons q x.calls ≤ swapoffs q x.calls + held q x.prog_swap + extra q)
    → ((q : List ℕ) → on q x.calls ≤ held q x.prog_swap + failed_offs q x.calls + extra q)
    → Leaves extra x
unfolding sig_handler takedown_dynaswap free_dynamic_swap
handled extra x h b =
    let f = free_loop-IsFreed x.prog_swap x refl in
    (f.empty, λ q. (omega (arith, h q, f.same q, f.off q), f.left q (extra q) (b q)))

-- The one file that is being allocated.
abbrev pub new_path : List ℕ → Swap → List ℕ → ℕ
new_path dir s q = tally (same_path q (chunk_path dir (next_chunk s.prog_swap))) 0

-- Where the calls are balanced, and wherever a signal then finds the program inside `allocate_swap`
-- or `free_swap`, and whatever swapon, swapoff and remove return, the handler leaves no chunk. But for
-- the one file that `allocate_swap` may have turned on and not yet put into the chain, it has called
-- swapoff for each path at least as often as swapon was called, and leaves only those files on whose swapoff has failed.
pub sig_handler_lem :
    (dir : List ℕ) (g : Grants) (s : Swap)
    → Balanced s
    → All (Leaves (new_path dir s)) (allocate_stops dir g s)
      × All (Leaves (λ q. 0)) (free_stops s.prog_swap s)
unfolding allocate_stops add_stops free_stops
sig_handler_lem dir g s h = (
  if_cases (All (Leaves extra)) (leb swap_max_count (next_chunk s.prog_swap)) (λ _. (before, tt))
      (λ _.
        if_cases (All (Leaves extra)) (g.strdup && g.fopen)
          (λ _. added (mkswap g.fstat g.size g.uuid (record { offset = 0; bytes = λ i. 0 })))
          (λ _. (before, tt))),
  freed s.prog_swap refl,
)
  where
    extra : List ℕ → ℕ
    extra = new_path dir s

    before : Leaves extra s
    before = handled extra s (λ q. omega (arith, h.on_off q)) (λ q. omega (arith, h.most q))

    added :
        (o : Option File)
        → All
            (Leaves extra)
            (add_stops (chunk_path dir (next_chunk s.prog_swap)) (next_chunk s.prog_swap) g o s)
    added none = (before, tt)
    added (some file) = (
      before,
      (
        handled extra _ (λ q. omega (arith, h.on_off q)) (λ q. omega (arith, h.most q)),
        (
          handled extra _ (λ q. ground (arith, h.on_off q)) (λ q. ground (arith, h.most q)),
          (handled extra _ (λ q. ground (arith, h.on_off q)) (λ q. ground (arith, h.most q)), tt),
        ),
      ),
    )

    freed : (cs : List Chunk) → s.prog_swap ≡ cs → All (Leaves (λ q. 0)) (free_stops cs s)
    freed [] e =
        (handled (λ q. 0) s (λ q. omega (arith, h.on_off q)) (λ q. omega (arith, h.most q)), tt)
    freed (c ∷ cs) e = (
      handled (λ q. 0) _ (λ q. omega (arith, h.on_off q)) (λ q. omega (arith, h.most q)),
      (
        handled (λ q. 0) _ (λ q. ground (arith, h.on_off q)) (λ q. ground (arith, h.most q)),
        (
          handled (λ q. 0) _ (λ q. ground (arith, h.on_off q)) (λ q. ground (arith, h.most q)),
          (
            handled (λ q. 0) _ (λ q. ground (arith, h.on_off q, ap (held q) e))
                (λ q. ground (arith, h.most q, ap (held q) e)),
            tt,
          ),
        ),
      ),
    )
