-- ===== src/Service/Tests/Interrupts.antt =====
-- src/service/src/dynaswap.c: signals inside allocate_swap and free_swap.
use dynaswap.Base.{cut, decimal, ◌≡◌, refl, true, [], ◌∷◌, All}
use dynaswap.Service.Swap.{Swap, chunk_path, swapon, make_file, free_dynamic_swap, free_loop}
use dynaswap.Service.Swap.Stack.{state_of}
use dynaswap.Service.Swap.Ledger.{on, swapoffs}
use dynaswap.Service.Monitor.{takedown_dynaswap}
use dynaswap.Service.Signals.{sig_handler, allocate_stops, free_stops}
use dynaswap.Service.Signals.Left.{Leaves, new_path, sig_handler_lem}
use dynaswap.Service.Tests.{
  dir, answers, granted, one_chunk, one_chunk-Balanced, path_zero, empty_file,
}

sig_handler_lem_example :
    All (Leaves (new_path dir one_chunk)) (allocate_stops dir granted one_chunk)
    × All (Leaves (λ q. 0)) (free_stops one_chunk.prog_swap one_chunk)
sig_handler_lem_example = sig_handler_lem dir granted one_chunk one_chunk-Balanced

-- The first chunk is turned on and not yet in the chain.
abbrev turned_on : Swap
turned_on = record {
  prog_swap = [];
  calls = swapon path_zero true ∷ make_file path_zero empty_file ∷ [];
  answers = answers;
}

left_on :
    let t = state_of (sig_handler turned_on) in
    (on (chunk_path dir 0) t.calls ≡ 1) × (swapoffs (chunk_path dir 0) t.calls ≡ 0)
unfolding sig_handler takedown_dynaswap free_dynamic_swap free_loop chunk_path cut decimal
left_on = (refl, refl)
