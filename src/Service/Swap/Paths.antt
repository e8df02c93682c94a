-- ===== src/Service/Swap/Paths.antt =====
-- The paths of the chunks of src/service/src/swaphandler.c.
use dynaswap.Base.{
  ℕ, ◌^◌, ◌≤◌, ◌<◌, ◌≡◌, ◌≢◌, sym, ap, ◌∙◌, List, [], ◌∷◌, ◌++◌, arith, length, length-append,
  decimal, cut_all, undecimal, undecimal-decimal, length-decimal,
}
use dynaswap.Service.Swap.{chunk_path}

abbrev pub rest : List ℕ → List ℕ
rest [] = []
rest (b ∷ bs) = bs

append_cancel : (pre bs cs : List ℕ) → pre ++ bs ≡ pre ++ cs → bs ≡ cs
append_cancel [] bs cs h = h
append_cancel (a ∷ r) bs cs h = append_cancel r bs cs (ap rest h)

chunk_path_injective :
    (dir : List ℕ) (a b : ℕ)
    → length dir ≤ 4079
    → a < 2 ^ 31
    → b < 2 ^ 31
    → chunk_path dir a ≡ chunk_path dir b
    → a ≡ b
unfolding chunk_path
chunk_path_injective dir a b room small_a small_b e =
    let digits = append_cancel dir _ _ (sym (whole a) ∙ e ∙ whole b) in
    let same = ap rest (ap rest (ap rest (ap rest (ap rest (ap rest digits))))) in
    sym (undecimal-decimal 10 a [] (omega arith))
    ∙ ap (undecimal 0) same
    ∙ undecimal-decimal 10 b [] (omega arith)
  where
    whole : (n : ℕ) → chunk_path dir n ≡ dir ++ 47 ∷ 67 ∷ 104 ∷ 117 ∷ 110 ∷ 107 ∷ decimal 10 n []
    whole n = cut_all 4095 _ (
        omega (
          arith,
          room,
          length-append dir (47 ∷ 67 ∷ 104 ∷ 117 ∷ 110 ∷ 107 ∷ decimal 10 n []),
          length-decimal 10 n [],
        ))

-- With a directory whose path leaves room in the buffer, chunks of different numbers have different
-- paths.
pub chunk_path_apart :
    (dir : List ℕ) (a b : ℕ)
    → length dir ≤ 4079
    → a < 2 ^ 31
    → b < 2 ^ 31
    → a ≢ b
    → chunk_path dir a ≢ chunk_path dir b
chunk_path_apart dir a b room small_a small_b n e =
    n (chunk_path_injective dir a b room small_a small_b e)
