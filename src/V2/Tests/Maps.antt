-- ===== src/V2/Tests/Maps.antt =====
-- src/driver/v2/utils/bimap.c on a map of two entries.
use mathlib.Core.List.{Perm}
use mathlib.Core.List.Perm
use mathlib.Mathlib.Data.Multiset.Defs.{coe-eq-coe}
use dynaswap.Base.{◌≡◌, refl, true, List, [], ◌∷◌, none, some, arith, pos, neg, ◌==◌, if◌then◌else◌}
use dynaswap.V2.Bimap.{Bimap, Entry, insert, find_by_sector, find_by_slot, destroy_bimap}
use dynaswap.V2.Bimap.Entries.{Holds}
use dynaswap.V2.Bimap.Destroy.{destroy_bimap-Perm, addrs}
use dynaswap.V2.Bimap.Contents.{contents, contents-Holds, contents_determines}
use dynaswap.V2.Tests.Sim.{sim, empty_world}

-- Sectors 16 and 1040 stand in one bucket.
abbrev pub old : Entry
old = record { addr = 100; sector = 16; slot = 0 }

abbrev pub young : Entry
young = record { addr = 101; sector = 1040; slot = 5 }

abbrev pub both : List Entry
both = young ∷ old ∷ []

abbrev pub two : Bimap
two = record {
  sector_to_slot = λ b. if 16 == b then both else [];
  slot_to_sector = λ b. if 5 == b then young ∷ [] else (if 0 == b then old ∷ [] else []);
  entry_cache = true;
}

pub two-Holds : Holds sim.hash both two
two-Holds = record { sectors = λ b. ground arith; slots = λ b. ground arith }

find_in_chain :
    (find_by_sector sim.hash 16 two ≡ (pos 0, some 0))
    × (find_by_slot sim.hash 5 two ≡ (pos 0, some 1040))
    × (find_by_sector sim.hash 17 two ≡ (neg 2, none))
unfolding find_by_sector find_by_slot
find_in_chain = (refl, refl, refl)

insert_twice : (insert sim.hash sim.kmem_cache_alloc 16 9 two empty_world).0 ≡ neg 17
unfolding insert
insert_twice = refl

destroy_bimap-Perm_example :
    Perm (destroy_bimap two).0 (addrs both) × Holds sim.hash [] (destroy_bimap two).1
destroy_bimap-Perm_example =
    destroy_bimap-Perm sim.hash both two (λ key. omega arith) refl two-Holds
      (((λ e. ground arith), tt), (tt, tt))

-- The same two entries, put in in the other order.
abbrev turned : Bimap
turned = record two { sector_to_slot = λ b. if 16 == b then old ∷ young ∷ [] else [] }

turned-Holds : Holds sim.hash (old ∷ young ∷ []) turned
turned-Holds = record { sectors = λ b. ground arith; slots = λ b. ground arith }

same_contents : contents two ≡ contents turned
same_contents = coe-eq-coe.1 (
    Perm.trans (contents-Holds sim.hash both two (λ key. omega arith) two-Holds) (
      Perm.trans (Perm.swap old young []) (
        Perm.symm
          (contents-Holds sim.hash (old ∷ young ∷ []) turned (λ key. omega arith) turned-Holds))))

contents_determines_example :
    (find_by_sector sim.hash 16 two ≡ find_by_sector sim.hash 16 turned)
    × (find_by_slot sim.hash 9 two ≡ find_by_slot sim.hash 9 turned)
    × ((insert sim.hash sim.kmem_cache_alloc 16 9 two empty_world).0
        ≡ (insert sim.hash sim.kmem_cache_alloc 16 9 turned empty_world).0)
    × (contents (insert sim.hash sim.kmem_cache_alloc 16 9 two empty_world).1
        ≡ contents (insert sim.hash sim.kmem_cache_alloc 16 9 turned empty_world).1)
contents_determines_example =
    contents_determines sim.hash sim.kmem_cache_alloc both (old ∷ young ∷ []) two turned
      (λ key. omega arith) two-Holds turned-Holds
      ((((λ e. ground arith), (λ e. ground arith)), tt), (tt, tt)) same_contents 16 9 empty_world
