-- ===== src/Service/Config/Sizes.antt =====
-- The blanks and the letter after the number of a size, as src/service/src/config.c reads them.
use dynaswap.Base.{
  ℕ, ◌≤◌, ◌^◌, ◌≡◌, ◌↔◌, refl, ap, ◌⊎◌, true, false, List, [], ◌∷◌, ◌++◌, some, arith, All,
  if_cases, ◌∙◌,
}
use dynaswap.Service.Config.{is_space, skip_space, multiplier}

-- A space, or one of the characters from tab to carriage return.
abbrev pub IsBlank : ℕ → Type 0
IsBlank c = (c ≡ 32) ⊎ ((9 ≤ c) × (c ≤ 13))

-- The letters of the sizes, large and small.
abbrev pub Suffix : ℕ → ℕ → Type 0
Suffix c n =
    (((c ≡ 71) ⊎ (c ≡ 103)) × (n ≡ 2 ^ 30))
    ⊎ (((c ≡ 77) ⊎ (c ≡ 109)) × (n ≡ 2 ^ 20))
    ⊎ (((c ≡ 75) ⊎ (c ≡ 107)) × (n ≡ 2 ^ 10))

is_space-IsBlank : (c : ℕ) → is_space c ≡ true → IsBlank c
is_space-IsBlank c e = ground arith

is_space_of_blank : (c : ℕ) → IsBlank c → is_space c ≡ true
is_space_of_blank c h = ground arith

multiplier-Suffix : (c n : ℕ) (rest : List ℕ) → (multiplier (c ∷ rest) ≡ some n) ↔ Suffix c n
unfolding multiplier
multiplier-Suffix c n rest = (λ e. ground arith, λ h. ground arith)

-- The text begins with blanks, and a letter of a size follows.
pub record Sized (text : List ℕ) (n : ℕ) : Type 0 where
  pub blanks : List ℕ
  pub letter : ℕ
  pub rest : List ℕ
  pub parts : text ≡ blanks ++ letter ∷ rest
  pub blank : All IsBlank blanks
  pub suffix : Suffix letter n

no_letter : {n : ℕ} → multiplier [] ≡ some n → ⊥
unfolding multiplier
no_letter e = ground arith

pub Sized-skip : (text : List ℕ) (n : ℕ) → multiplier (skip_space text) ≡ some n → Sized text n
unfolding skip_space
Sized-skip [] n e = absurd (no_letter e)
Sized-skip (c ∷ cs) n e =
    if_cases (λ l. multiplier l ≡ some n → Sized (c ∷ cs) n) (is_space c)
      (λ b q.
        let r = Sized-skip cs n q in
        record {
          blanks = c ∷ r.blanks;
          letter = r.letter;
          rest = r.rest;
          parts = ap (λ l. c ∷ l) r.parts;
          blank = (is_space-IsBlank c b, r.blank);
          suffix = r.suffix;
        })
      (λ b q. record {
        blanks = [];
        letter = c;
        rest = cs;
        parts = refl;
        blank = tt;
        suffix = (multiplier-Suffix c n cs).0 q;
      })
      e

no_blank : (c n : ℕ) → Suffix c n → is_space c ≡ false
no_blank c n h = ground arith

skip-blanks :
    (blanks : List ℕ) (letter n : ℕ) (rest : List ℕ)
    → All IsBlank blanks
    → Suffix letter n
    → skip_space (blanks ++ letter ∷ rest) ≡ letter ∷ rest
unfolding skip_space
skip-blanks [] letter n rest b h = rw (no_blank letter n h) refl
skip-blanks (c ∷ cs) letter n rest (b, bs) h =
    rw (is_space_of_blank c b) (skip-blanks cs letter n rest bs h)

-- The letter is found behind the blanks.
pub skip-Sized : (text : List ℕ) (n : ℕ) → Sized text n → multiplier (skip_space text) ≡ some n
skip-Sized text n z =
    ap (λ l. multiplier (skip_space l)) z.parts
    ∙ ap multiplier (skip-blanks z.blanks z.letter n z.rest z.blank z.suffix)
    ∙ (multiplier-Suffix z.letter n z.rest).1 z.suffix
