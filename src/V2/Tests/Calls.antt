-- ===== src/V2/Tests/Calls.antt =====
-- src/driver/v2/utils/bimap.c: calls that overlap.
use dynaswap.Base.{◌≡◌, ◌≢◌, refl, List, some, arith, pos, neg, ◌==◌, if◌then◌else◌}
use dynaswap.V2.Bimap.{Entry, find_by_slot, find_by_sector}
use dynaswap.V2.Bimap.Threads.{
  InsertThreads, idle, looking, ended, InsertOverlap, start, called, stepped, look, next_insert,
  step_call,
}
use dynaswap.V2.Bimap.Threads.Steps.{Keeps}
use dynaswap.V2.Bimap.Threads.Order.{InOrder, IsFree, InsertOverlap-InOrder}
use dynaswap.V2.Bimap.Threads.Race.{Anything, both_inserted}
use dynaswap.V2.Bimap.Threads.Alone.{run_call}
use dynaswap.V2.Tests.Sim.{sim, SimWorld, empty_world}
use dynaswap.V2.Tests.Maps.{both, two, two-Holds}

-- No call runs on the map of two entries.
abbrev quiet : InsertThreads SimWorld
quiet = record {
  bimap = two;
  world = empty_world;
  calls = λ i. record { sector = 0; slot = 0; stage = idle };
}

quiet-InOrder : InOrder sim.hash both quiet
quiet-InOrder = record {
  holds = two-Holds;
  one_to_one = ((((λ e. ground arith), (λ e. ground arith)), tt), (tt, tt));
  knows = λ i. tt;
  apart = λ i j ne li. cc;
}

-- One call for sector 24 and slot 9, and one for sector 32 and slot 3.
abbrev first_call : InsertThreads SimWorld
first_call = record quiet {
  calls = λ j. if 0 == j then record { sector = 24; slot = 9; stage = looking } else quiet.calls j;
}

nine_free : (find_by_slot sim.hash 9 two).0 ≢ pos 0
unfolding find_by_slot
nine_free e = ground arith

three_free : (find_by_slot sim.hash 3 two).0 ≢ pos 0
unfolding find_by_slot
three_free e = ground arith

overlapping :
    InsertOverlap sim.hash sim.kmem_cache_alloc (IsFree sim.hash) quiet (record first_call {
      calls = λ j.
          if 1 == j then record { sector = 32; slot = 3; stage = looking } else first_call.calls j;
    })
overlapping =
    called 1 32 3 (called 0 24 9 start refl (record { unused = nine_free; apart = λ j. cc })) refl
      (record { unused = three_free; apart = λ j l. (λ e. ground arith, λ e. ground arith) })

InsertOverlap-InOrder_example :
    (es' : List Entry) × Keeps both es'
    × InOrder sim.hash es' (
        step_call sim.hash sim.kmem_cache_alloc 0 (record first_call {
          calls = λ j.
              if 1 == j
              then record { sector = 32; slot = 3; stage = looking }
              else first_call.calls j;
        }))
InsertOverlap-InOrder_example =
    InsertOverlap-InOrder sim.hash sim.kmem_cache_alloc both (stepped 0 overlapping) quiet-InOrder

both_inserted_example :
    (t : InsertThreads SimWorld) × InsertOverlap sim.hash sim.kmem_cache_alloc Anything quiet t
    × ((t.calls 0).stage ≡ ended (pos 0))
    × ((t.calls 1).stage ≡ ended (pos 0))
    × (find_by_slot sim.hash 9 t.bimap ≡ (pos 0, some 24))
    × (find_by_slot sim.hash 3 t.bimap ≡ (pos 0, some 24))
    × (find_by_sector sim.hash 24 t.bimap ≡ (pos 0, some 3))
both_inserted_example =
    both_inserted sim.hash sim.kmem_cache_alloc 24 9 3 100 101 both quiet two-Holds refl
      (λ e. ground arith) refl refl refl refl

-- A call alone, for a sector that is there.
there_already :
    (run_call sim.hash sim.kmem_cache_alloc 1 looking 16 9 two empty_world).0 ≡ ended (neg 17)
unfolding run_call next_insert look
there_already = refl
