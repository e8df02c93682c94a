-- ===== src/V1/Threads/Holds.antt =====
-- What the writes that overlap in src/driver/src/dynamap.c hold, and which pages they are about to
-- hit.
use dynaswap.Base.{
  ℕ, ◌/◌, ◌≡◌, ◌≢◌, refl, sym, ◌∙◌, Bool, true, false, ◌&&◌, ◌||◌, List, [], ◌∷◌, ◌++◌, All,
  All-map, ◌==◌, arith, Bool-cases, inl, inr, ==→ne,
}
use dynaswap.V1.Dynamap.{DynamapCtx, no_slot}
use dynaswap.V1.Dynamap.Valid.{entry}
use dynaswap.V1.Threads.{
  WriteStage, asking, looking, claiming, writing, ended, Writer, in_flight, is_writing,
}
use dynaswap.V1.Threads.Steps.{HoldsSlot}

-- The page's directory is there, and a write before its transfer holds the page's slot.
pub record Holds {Page : Type 0} (c : DynamapCtx) (w : Writer Page) : Type 0 where
  pub dir : c.has_dir (w.page_index / 512) ≡ true
  pub slot : HoldsSlot c w.page_index w.stage

holds_slot :
    (c c' : DynamapCtx) (i : ℕ) (stage : WriteStage)
    → (entry c i ≢ no_slot → entry c' i ≡ entry c i)
    → HoldsSlot c i stage
    → HoldsSlot c' i stage
holds_slot c c' i asking h g = tt
holds_slot c c' i looking h g = tt
holds_slot c c' i claiming h g = tt
holds_slot c c' i (writing p) h (e, ne) = (h (λ z. ne (sym e ∙ z)) ∙ e, ne)
holds_slot c c' i (ended status) h g = tt

in_flight-append :
    {Page : Type 0} (j : ℕ) (xs ys : List (Writer Page))
    → in_flight j (xs ++ ys) ≡ in_flight j xs || in_flight j ys
in_flight-append j [] ys = refl
in_flight-append j (x ∷ xs) ys = ground (arith, in_flight-append j xs ys)

abbrev pub is_busy : {Page : Type 0} → ℕ → Writer Page → Bool
is_busy j w = (w.page_index == j) && is_writing w.stage

-- A page is not in flight exactly if it is not in any part of the list.
pub none_in_flight :
    {Page : Type 0} (j : ℕ) (xs : List (Writer Page)) (w : Writer Page) (ys : List (Writer Page))
    → in_flight j (xs ++ w ∷ ys) ≡ false
    → (in_flight j xs ≡ false) × (is_busy j w ≡ false) × (in_flight j ys ≡ false)
none_in_flight j [] w ys z = (refl, ground arith, ground arith)
none_in_flight j (x ∷ xs) w ys z =
    let rest : in_flight j (xs ++ w ∷ ys) ≡ false = ground arith in
    let (a, b, c) = none_in_flight j xs w ys rest in (ground arith, b, c)

pub none_in_flight_all :
    {Page : Type 0} (j : ℕ) (xs : List (Writer Page)) (w : Writer Page) (ys : List (Writer Page))
    → in_flight j xs ≡ false
    → is_busy j w ≡ false
    → in_flight j ys ≡ false
    → in_flight j (xs ++ w ∷ ys) ≡ false
none_in_flight_all j xs w ys a b c = ground (arith, in_flight-append j xs (w ∷ ys))

pub All-kept :
    {Page : Type 0} (c c' : DynamapCtx) (ws : List (Writer Page))
    → ((dir : ℕ) → c'.has_dir dir ≡ c.has_dir dir)
    → ((j : ℕ) → entry c j ≢ no_slot → entry c' j ≡ entry c j)
    → All (Holds c) ws
    → All (Holds c') ws
All-kept c c' ws hd hk = All-map (Holds c) (Holds c') ws (λ w h. record {
  dir = hd (w.page_index / 512) ∙ h.dir;
  slot = holds_slot c c' w.page_index w.stage (hk w.page_index) h.slot;
})

-- A write of the page that is discarded holds no slot.
holds_idle :
    (c : DynamapCtx) (i : ℕ) (stage : WriteStage) → is_writing stage ≡ false → HoldsSlot c i stage
holds_idle c i asking h = tt
holds_idle c i looking h = tt
holds_idle c i claiming h = tt
holds_idle c i (writing p) h = ground arith
holds_idle c i (ended status) h = tt

pub All-idle :
    {Page : Type 0} (c c' : DynamapCtx) (i : ℕ) (ws : List (Writer Page))
    → ((dir : ℕ) → c'.has_dir dir ≡ c.has_dir dir)
    → ((j : ℕ) → j ≢ i → entry c' j ≡ entry c j)
    → in_flight i ws ≡ false
    → All (Holds c) ws
    → All (Holds c') ws
All-idle c c' i [] hd hk z h = tt
All-idle c c' i (w ∷ ws) hd hk z (h, hs) =
    let (_, busy, idle) = none_in_flight i [] w ws z in
    (
      record {
        dir = hd (w.page_index / 512) ∙ h.dir;
        slot = elim (Bool-cases (w.page_index == i)) [
          | inl e ↦ holds_idle c' w.page_index w.stage (ground arith)
          | inr ne ↦
              holds_slot c c' w.page_index w.stage (λ _. hk w.page_index (==→ne w.page_index i ne))
                h.slot
        ];
      },
      All-idle c c' i ws hd hk idle hs,
    )
