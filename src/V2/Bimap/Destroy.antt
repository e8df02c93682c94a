-- ===== src/V2/Bimap/Destroy.antt =====
-- What `destroy_bimap` of src/driver/v2/utils/bimap.c frees, and that nothing is left.
use mathlib.Core.List.{Perm, map-append}
use mathlib.Core.List.Perm
use dynaswap.Base.{
  ℕ, zero, suc, ◌+◌, ◌≤◌, ◌<◌, ◌^◌, ◌≡◌, refl, ap, ◌≢◌, Bool, true, not, List, [], ◌∷◌, map, arith,
  ◌==◌, keep, All, keep_comm, keep-All, keep-perm, All-keep, All-map, ne→==,
}
use dynaswap.V2.Bimap.{
  Entry, Bimap, hlist_del, destroy_chain, destroy_buckets, destroy_bimap, bimap_bits,
}
use dynaswap.V2.Bimap.Entries.{Holds, in_sector_bucket, in_slot_bucket}

abbrev pub addrs : List Entry → List ℕ
addrs = map λ e. e.addr

-- No two entries stand at one address.
abbrev pub HasDistinctAddrs : List Entry → Type 0
HasDistinctAddrs [] = Unit {0}
HasDistinctAddrs (e ∷ es) = All (λ f. e.addr ≢ f.addr) es × HasDistinctAddrs es

abbrev other : Entry → Entry → Bool
other t e = not (e.addr == t.addr)

-- The entries whose address is not among those of a chain.
without : List Entry → List Entry → List Entry
without [] es = es
without (t ∷ ts) es = without ts (keep (other t) es)

HasDistinctAddrs-keep :
    (p : Entry → Bool) (es : List Entry) → HasDistinctAddrs es → HasDistinctAddrs (keep p es)
HasDistinctAddrs-keep p [] d = tt
HasDistinctAddrs-keep p (e ∷ es) d =
    ground (arith, HasDistinctAddrs-keep p es d.1, All-keep (λ f. e.addr ≢ f.addr) p es d.0)

without-cons :
    (e : Entry) (ts es : List Entry)
    → All (λ f. e.addr ≢ f.addr) ts
    → without ts (e ∷ es) ≡ e ∷ without ts es
unfolding without
without-cons e [] es d = refl
without-cons e (t ∷ ts) es d =
    rw (ne→== e.addr t.addr d.0) (without-cons e ts (keep (other t) es) d.1)

without-keep :
    (p : Entry → Bool) (es : List Entry)
    → HasDistinctAddrs es
    → without (keep p es) es ≡ keep (λ e. not (p e)) es
unfolding without
without-keep p [] d = refl
without-keep p (e ∷ es) d = ground (
  arith,
  keep-All (other e) es (All-map _ _ es (λ f ne. ground arith) d.0),
  without-keep p es d.1,
  without-cons e (keep p es) es (All-keep (λ f. e.addr ≢ f.addr) p es d.0),
)

module _ (hash : ℕ → ℕ) where
  hlist_del-Holds :
      (t : Entry) (es : List Entry) (m : Bimap)
      → Holds hash es m
      → Holds hash (keep (other t) es) (record m {
        sector_to_slot = hlist_del t.addr m.sector_to_slot;
        slot_to_sector = hlist_del t.addr m.slot_to_sector;
      })
  hlist_del-Holds t es m h = record {
    sectors = λ b. rw (h.sectors b) (keep_comm (other t) (in_sector_bucket hash b) es);
    slots = λ b. rw (h.slots b) (keep_comm (other t) (in_slot_bucket hash b) es);
  }

  destroy_chain-Holds :
      (ts es : List Entry) (m : Bimap)
      → Holds hash es m
      → let (freed, m') = destroy_chain ts m in (freed ≡ addrs ts) × Holds hash (without ts es) m'
  unfolding destroy_chain without
  destroy_chain-Holds [] es m h = (refl, h)
  destroy_chain-Holds (t ∷ ts) es m h =
      let (f, h') = destroy_chain-Holds ts (keep (other t) es) _ (hlist_del-Holds t es m h) in
      (ap (◌∷◌ t.addr) f, h')

  abbrev InRange : ℕ → ℕ → Entry → Type 0
  InRange lo n e = (lo ≤ hash e.sector) × (hash e.sector < n + lo)

  -- Dropping the first bucket of a range leaves entries of the others.
  InRange-keep :
      (lo n : ℕ) (es : List Entry)
      → All (InRange lo (suc n)) es
      → All (InRange (suc lo) n) (keep (λ e. not (in_sector_bucket hash lo e)) es)
  InRange-keep lo n [] h = tt
  InRange-keep lo n (e ∷ es) h = ground (arith, InRange-keep lo n es h.1)

  InRange-empty : (lo : ℕ) (es : List Entry) → All (InRange lo 0) es → es ≡ []
  InRange-empty lo [] h = refl
  InRange-empty lo (e ∷ es) h = absurd (omega (arith, h.0))

  destroy_buckets-Holds :
      (n bkt : ℕ) (es : List Entry) (m : Bimap)
      → Holds hash es m
      → HasDistinctAddrs es
      → All (InRange bkt n) es
      → let (freed, m') = destroy_buckets n bkt m in Perm freed (addrs es) × Holds hash [] m'
  unfolding destroy_buckets
  destroy_buckets-Holds zero bkt es m h d r =
      let e = InRange-empty bkt es r in (rw e Perm.nil, rw e at h)
  destroy_buckets-Holds (suc n) bkt es m h d r =
      let inside = in_sector_bucket hash bkt in
      let chain = m.sector_to_slot bkt in
      let (freed, held) = destroy_chain-Holds chain es m h in
      let left : without chain es ≡ keep (λ e. not (inside e)) es =
        rw (h.sectors bkt) (without-keep inside es d) in
      let (rest, gone) =
        destroy_buckets-Holds n (suc bkt) (keep (λ e. not (inside e)) es) (destroy_chain chain m).1
          (rw left at held) (HasDistinctAddrs-keep _ es d) (InRange-keep bkt n es r) in
      let here : (destroy_chain chain m).0 ≡ addrs (keep inside es) =
        rw freed (rw (h.sectors bkt)) in
      (
        rw here (
            Perm.trans (Perm.append (Perm.refl (addrs (keep inside es))) rest)
              (rw (← map-append _ _ _) (Perm.map _ (Perm.symm (keep-perm inside es))))),
        gone,
      )

  -- With a cache, a hash into the table's buckets and entries at distinct addresses, `destroy_bimap`
  -- frees each entry exactly once and leaves both tables empty.
  pub destroy_bimap-Perm :
      (es : List Entry) (m : Bimap)
      → ((k : ℕ) → hash k < 2 ^ bimap_bits)
      → m.entry_cache ≡ true
      → Holds hash es m
      → HasDistinctAddrs es
      → Perm (destroy_bimap m).0 (addrs es) × Holds hash [] (destroy_bimap m).1
  unfolding destroy_bimap
  destroy_bimap-Perm es m bound c h d =
      simp c (destroy_buckets-Holds (2 ^ bimap_bits) 0 es m h d (all_in_range es))
    where
      all_in_range : (xs : List Entry) → All (InRange 0 (2 ^ bimap_bits)) xs
      all_in_range [] = tt
      all_in_range (x ∷ xs) = ((omega arith, omega (arith, bound (x.sector))), all_in_range xs)
