-- ===== src/Service/Signals.antt =====
-- Signals of src/service/src/dynaswap.c: the handler runs wherever the program stands, also inside
-- allocate_swap and free_swap of src/service/src/swaphandler.c.
pub mod Left
use dynaswap.Base.{ℕ, List, [], ◌∷◌, Option, none, some, ◌&&◌, leb, length, if◌then◌else◌}
use dynaswap.Service.Mkswap.{File, mkswap}
use dynaswap.Service.Swap.{
  Chunk, Call, make_file, swapon, swapoff, remove, Swap, Outcome, exited, Grants, chunk_path,
  next_chunk, succeeded, swap_max_count,
}
use dynaswap.Service.Monitor.{takedown_dynaswap}

unfoldable pub sig_handler : Swap → Outcome
sig_handler s = exited (takedown_dynaswap s)

-- What a signal may find inside allocate_swap: the state before, the file made, swapon called,
-- and the chunk put before the others.
unfoldable pub add_stops : List ℕ → ℕ → Grants → Option File → Swap → List Swap
add_stops path n g none s = s ∷ []
add_stops path n g (some file) s =
    let made : Swap = record s { calls = make_file path file ∷ s.calls } in
    let on : Swap = record s { calls = swapon path (succeeded g.swapon_stat) ∷ made.calls } in
    s
    ∷ made
    ∷ on
    ∷ record on { prog_swap = record { chunk_number = n; file_path = path } ∷ s.prog_swap }
    ∷ []

unfoldable pub allocate_stops : List ℕ → Grants → Swap → List Swap
allocate_stops dir g s =
    let new_chunk = next_chunk s.prog_swap in
    let empty : File = record { offset = 0; bytes = λ i. 0 } in
    if leb swap_max_count new_chunk
    then s ∷ []
    else (if g.strdup && g.fopen
        then add_stops (chunk_path dir new_chunk) new_chunk g (mkswap g.fstat g.size g.uuid empty) s
        else s ∷ [])

-- Inside free_swap: the state before, swapoff called, remove called, and the chunk taken
-- from the chain.
unfoldable pub free_stops : List Chunk → Swap → List Swap
free_stops [] s = s ∷ []
free_stops (current_chunk ∷ previous_chunk) s =
    let release = s.answers (length s.calls) in
    let off : Swap = record s {
      calls = swapoff current_chunk.file_path (succeeded release.swapoff_stat) ∷ s.calls;
    } in
    let removed : Swap = record off {
      calls = remove current_chunk.file_path (succeeded release.rm_stat) ∷ off.calls;
    } in
    s ∷ off ∷ removed ∷ record removed { prog_swap = previous_chunk } ∷ []
