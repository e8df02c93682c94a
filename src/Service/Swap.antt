-- ===== src/Service/Swap.antt =====
-- src/service/src/swaphandler.c: the chunks of swap that the service holds. A path is the list of
-- its bytes.
pub mod Stack
pub mod Ledger
pub mod Paths
use dynaswap.Base.{
  ℕ, zero, suc, ◌+◌, ◌-◌, ◌/◌, ◌%◌, ℤ, pos, Bool, true, false, not, ◌&&◌, List, [], ◌∷◌, ◌++◌,
  Option, none, some, if◌then◌else◌, leb, ltb, length, cut, decimal,
}
use dynaswap.Service.Mkswap.{File, mkswap}

-- `struct MemoryChunk`, less the pointer to the chunk before.
pub record Chunk : Type 0 where
  pub chunk_number : ℕ
  pub file_path : List ℕ

-- The calls on the system that change it: a file made with its header, and the rest, each with
-- whether it returned 0.
pub data Call : Type 0 where
  make_file : List ℕ → File → Call
  swapon swapoff remove : List ℕ → Bool → Call

-- What `swapoff` and `remove` return.
pub record Release : Type 0 where
  pub swapoff_stat : ℤ
  pub rm_stat : ℤ

-- `prog_swap`, the chain of its chunks; the calls made, the newest first; and what the system
-- answers to a release that follows so many calls.
pub record Swap : Type 0 where
  pub prog_swap : List Chunk
  pub calls : List Call
  pub answers : ℕ → Release

-- The program at its start.
abbrev pub no_swap : (ℕ → Release) → Swap
no_swap answers = record { prog_swap = []; calls = []; answers = answers }

abbrev pub succeeded : ℤ → Bool
succeeded (pos zero) = true
succeeded _ = false

-- The service goes on, calls `exit`, or follows a null pointer.
pub data Outcome : Type 0 where
  running exited crashed : Swap → Outcome

-- What the system gives to an allocation: memory for the path and for the chunk, the file, the
-- result of `fstat` with the size that `fallocate` has left, the bytes of the uuid, and the result
-- of `swapon`.
pub record Grants : Type 0 where
  pub strdup : Bool
  pub fopen : Bool
  pub fstat : Bool
  pub size : ℕ
  pub uuid : List ℕ
  pub swapon_stat : ℤ
  pub malloc : Bool

abbrev pub swap_max_count : ℕ
swap_max_count = 24

abbrev pub path_max : ℕ
path_max = 4096

-- "%s/Chunk%d" in a buffer of PATH_MAX bytes.
unfoldable pub chunk_path : List ℕ → ℕ → List ℕ
chunk_path dir n = cut (path_max - 1) (dir ++ 47 ∷ 67 ∷ 104 ∷ 117 ∷ 110 ∷ 107 ∷ decimal 10 n [])

unfoldable pub next_chunk : List Chunk → ℕ
next_chunk [] = 0
next_chunk (c ∷ cs) = c.chunk_number + 1

-- The chunk is kept whatever `swapon` returns.
unfoldable pub add_chunk : List ℕ → ℕ → Grants → Option File → Swap → Outcome
add_chunk path n g none s = exited s
add_chunk path n g (some file) s =
    let on = swapon path (succeeded g.swapon_stat) ∷ make_file path file ∷ s.calls in
    if g.malloc
    then running (record s {
      prog_swap = record { chunk_number = n; file_path = path } ∷ s.prog_swap;
      calls = on;
    })
    else crashed (record s { calls = on })

-- `dir` is SWAP_PATH.
unfoldable pub allocate_swap : List ℕ → Grants → Swap → Outcome
allocate_swap dir g s =
    let new_chunk = next_chunk s.prog_swap in
    let empty : File = record { offset = 0; bytes = λ i. 0 } in
    if leb swap_max_count new_chunk
    then running s
    else (if g.strdup && g.fopen
        then add_chunk (chunk_path dir new_chunk) new_chunk g (mkswap g.fstat g.size g.uuid empty) s
        else crashed s)

-- The chunk is given up whatever `swapoff` and `remove` return.
unfoldable pub free_chunk : List Chunk → Swap → Swap
free_chunk [] s = s
free_chunk (current_chunk ∷ previous_chunk) s =
    let release = s.answers (length s.calls) in
    record s {
      prog_swap = previous_chunk;
      calls =
          remove current_chunk.file_path (succeeded release.rm_stat)
          ∷ swapoff current_chunk.file_path (succeeded release.swapoff_stat)
          ∷ s.calls;
    }

unfoldable pub free_swap : Swap → Swap
free_swap s = free_chunk s.prog_swap s

-- `prog_swap != NULL`
abbrev pub has_chunk : List Chunk → Bool
has_chunk [] = false
has_chunk (c ∷ cs) = true

-- The loop, at most `n` times round.
unfoldable pub free_loop : ℕ → Swap → Swap
free_loop zero s = s
free_loop (suc n) s =
    let rest = free_loop n (free_swap s) in if has_chunk s.prog_swap then rest else s

unfoldable pub free_dynamic_swap : Swap → Swap
free_dynamic_swap s = free_loop (length s.prog_swap) s
