-- ===== src/Service/Swap/Stack.antt =====
-- The chain of chunks of src/service/src/swaphandler.c.
use dynaswap.Base.{
  ℕ, ◌≤◌, ◌<◌, ◌≡◌, refl, sym, ap, Bool, false, ◌&&◌, List, [], ◌∷◌, Option, none, some, arith,
  length, if◌then◌else◌, leb, subst, if_cases,
}
use dynaswap.Service.Mkswap.{File, mkswap}
use dynaswap.Service.Swap.{
  Chunk, Call, swapon, make_file, Swap, Outcome, running, exited, crashed, Grants, chunk_path,
  next_chunk, succeeded, add_chunk, allocate_swap, free_chunk, free_swap,
}

abbrev pub state_of : Outcome → Swap
state_of (running s) = s
state_of (exited s) = s
state_of (crashed s) = s

-- The chunks have the numbers from 0 on, the newest the highest, and the paths of their numbers.
abbrev pub Stacked : List ℕ → List Chunk → Type 0
Stacked dir [] = Unit
Stacked dir (c ∷ cs) =
    (c.chunk_number ≡ length cs) × (c.file_path ≡ chunk_path dir (length cs)) × Stacked dir cs

pub record IsStack (dir : List ℕ) (s : Swap) : Type 0 where
  pub stacked : Stacked dir s.prog_swap
  pub bounded : length s.prog_swap ≤ 24

pub next_chunk_lem : (dir : List ℕ) (cs : List Chunk) → Stacked dir cs → next_chunk cs ≡ length cs
unfolding next_chunk
next_chunk_lem dir [] h = refl
next_chunk_lem dir (c ∷ cs) h = omega (arith, h.0)

-- `allocate_swap` adds this chunk and makes these calls.
abbrev pub on_calls : List ℕ → File → Bool → Swap → List Call
on_calls path file ok s = swapon path ok ∷ make_file path file ∷ s.calls

abbrev pub pushed : List ℕ → ℕ → File → Bool → Swap → Swap
pushed path n file ok s = record s {
  prog_swap = record { chunk_number = n; file_path = path } ∷ s.prog_swap;
  calls = on_calls path file ok s;
}

-- What can happen in an allocation: nothing with 24 chunks there, the end of the program, a null
-- pointer, or a new chunk.
pub allocate_cases {κ} :
    (P : Outcome → Type κ) (dir : List ℕ) (g : Grants) (s : Swap)
    → Stacked dir s.prog_swap
    → let n = length s.prog_swap in
      let path = chunk_path dir n in
      let ok = succeeded g.swapon_stat in
      (24 ≤ n → P (running s))
      → P (exited s)
      → ((g.strdup && g.fopen) ≡ false → P (crashed s))
      → ((file : File)
          → g.malloc ≡ false
          → P (crashed (record s { calls = on_calls path file ok s })))
      → ((file : File) → n < 24 → P (running (pushed path n file ok s)))
      → P (allocate_swap dir g s)
unfolding allocate_swap add_chunk
allocate_cases P dir g s st full exit null lost new =
    let n = length s.prog_swap in
    let path = chunk_path dir n in
    let start : File = record { offset = 0; bytes = λ i. 0 } in
    subst
      (λ m. P (
        if leb 24 m
        then running s
        else (if g.strdup && g.fopen
            then add_chunk (chunk_path dir m) m g (mkswap g.fstat g.size g.uuid start) s
            else crashed s)))
      (sym (next_chunk_lem dir s.prog_swap st))
      (if_cases P (leb 24 n) (λ e. full (ground arith))
        (λ below.
          if_cases P (g.strdup && g.fopen)
            (λ _. add (mkswap g.fstat g.size g.uuid start) (ground arith)) null))
  where
    add :
        (o : Option File)
        → length s.prog_swap < 24
        → P (add_chunk (chunk_path dir (length s.prog_swap)) (length s.prog_swap) g o s)
    add none b = exit
    add (some file) b = if_cases P (g.malloc) (λ _. new file b) (lost file)

pub allocate_swap-IsStack :
    (dir : List ℕ) (g : Grants) (s : Swap)
    → IsStack dir s
    → IsStack dir (state_of (allocate_swap dir g s))
allocate_swap-IsStack dir g s h =
    allocate_cases (λ o. IsStack dir (state_of o)) dir g s h.stacked (λ _. h) h (λ _. h)
      (λ file _. record { stacked = h.stacked; bounded = h.bounded })
      (λ file b. record { stacked = (refl, refl, h.stacked); bounded = omega arith })

free_chunk-IsStack :
    (dir : List ℕ) (cs : List Chunk) (s : Swap)
    → IsStack dir s
    → s.prog_swap ≡ cs
    → IsStack dir (free_chunk cs s)
unfolding free_chunk
free_chunk-IsStack dir [] s h e = h
free_chunk-IsStack dir (c ∷ cs) s h e = record {
  stacked = (subst (Stacked dir) e h.stacked).2;
  bounded = omega (arith, ap length e, h.bounded);
}

pub free_swap-IsStack : (dir : List ℕ) (s : Swap) → IsStack dir s → IsStack dir (free_swap s)
unfolding free_swap
free_swap-IsStack dir s h = free_chunk-IsStack dir s.prog_swap s h refl
