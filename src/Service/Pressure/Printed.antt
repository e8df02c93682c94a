-- ===== src/Service/Pressure/Printed.antt =====
-- read_psi of src/service/src/sysstate.c reads what the kernel prints.
use dynaswap.Base.{
  cut_all, ℕ, ◌≤◌, ◌≡◌, refl, ap, ◌∙◌, Bool, true, false, not, ◌&&◌, List, [], ◌∷◌, ◌++◌, some,
  ◌==◌, All, All-append, All-map, length, arith,
}
use dynaswap.Service.Config.{skip_space}
use dynaswap.Service.Pressure.{
  Floats, PsiMetrics, until_nul, strip, strstr, Directive, space, float, bytes, some_word,
  full_word, avg10, avg60, avg300, line_format, sscanf, set_some, set_full, no_metrics, read_some,
  read_full, read_text, read_psi,
}

-- Neither the end of a text nor an 'f'.
abbrev pub is_plain : ℕ → Bool
is_plain b = not (b == 0) && not (b == 102)

abbrev pub Plain : List ℕ → Type 0
Plain bs = All (λ b. is_plain b ≡ true) bs

-- `text` prints numbers such that `%f` reads them back up to the blank behind them.
pub record PrintsFloats {F : Type 0} (fl : Floats F) (text : F → List ℕ) : Type 0 where
  pub reads : (x : F) (rest : List ℕ) → fl.scan_float (text x ++ 32 ∷ rest) ≡ some (x, 32 ∷ rest)
  pub plain : (x : F) → Plain (text x)

-- A line of /proc/pressure/memory, before `rest`.
abbrev pub print_line : {F : Type 0} → (F → List ℕ) → List ℕ → F → F → F → List ℕ → List ℕ
print_line text word x y z rest =
    word
    ++ (32
        ∷ (avg10
            ++ (text x
                ++ (32 ∷ (avg60 ++ (text y ++ (32 ∷ (avg300 ++ (text z ++ (32 ∷ rest))))))))))

-- The file, with the totals at the ends of the two lines.
abbrev pub printed : {F : Type 0} → (F → List ℕ) → PsiMetrics F → List ℕ → List ℕ → List ℕ
printed text m some_total full_total =
    print_line text some_word m.some_avg10 m.some_avg60 m.some_avg300
      (some_total ++ print_line text full_word m.full_avg10 m.full_avg60 m.full_avg300 full_total)

until_nul-All : (bs : List ℕ) → All (λ b. (b == 0) ≡ false) bs → until_nul bs ≡ bs
unfolding until_nul
until_nul-All [] h = refl
until_nul-All (b ∷ bs) h = ground (arith, until_nul-All bs h.1)

strstr_skip : (pre t : List ℕ) → Plain pre → strstr full_word (pre ++ t) ≡ strstr full_word t
unfolding strstr strip
strstr_skip [] t h = refl
strstr_skip (b ∷ pre) t (h, hs) = ground (arith, strstr_skip pre t hs)

module _ {F : Type 0} (fl : Floats F) (text : F → List ℕ) (p : PrintsFloats fl text) where
  sscanf-bytes :
      (w : List ℕ) (fs : List Directive) (t : List ℕ)
      → sscanf fl (bytes w fs) (w ++ t) ≡ sscanf fl fs t
  unfolding sscanf
  sscanf-bytes [] fs t = refl
  sscanf-bytes (c ∷ w) fs t = ground (arith, sscanf-bytes w fs t)

  sscanf-float :
      (x : F) (fs : List Directive) (t : List ℕ)
      → sscanf fl (float ∷ fs) (text x ++ 32 ∷ t) ≡ x ∷ sscanf fl fs (32 ∷ t)
  unfolding sscanf
  sscanf-float x fs t = ground (arith, p.reads x t)

  sscanf-print_line :
      (word : List ℕ) (x y z : F) (t : List ℕ)
      → sscanf fl (line_format word) (print_line text word x y z t) ≡ x ∷ y ∷ z ∷ []
  unfolding sscanf skip_space
  sscanf-print_line word x y z t =
      let last = sscanf-float z [] t in
      let middle =
        sscanf-float y (space ∷ bytes avg300 (float ∷ [])) (avg300 ++ (text z ++ (32 ∷ t))) in
      sscanf-bytes word
        (space
          ∷ bytes avg10 (float ∷ space ∷ bytes avg60 (float ∷ space ∷ bytes avg300 (float ∷ []))))
        (32
          ∷ (avg10
              ++ (text x ++ (32 ∷ (avg60 ++ (text y ++ (32 ∷ (avg300 ++ (text z ++ (32 ∷ t))))))))))
      ∙ sscanf-float x (space ∷ bytes avg60 (float ∷ space ∷ bytes avg300 (float ∷ [])))
          (avg60 ++ (text y ++ (32 ∷ (avg300 ++ (text z ++ (32 ∷ t))))))
      ∙ ap (λ l. x ∷ l) (middle ∙ ap (λ l. y ∷ l) last)

  -- Every byte of a line, by those of its parts.
  line-All :
      (P : ℕ → Type 0) (word : List ℕ) (x y z : F) (rest : List ℕ)
      → All P word
      → P 32
      → All P avg10
      → All P avg60
      → All P avg300
      → ((x : F) → All P (text x))
      → All P rest
      → All P (print_line text word x y z rest)
  line-All P word x y z rest w s a b c t r = All-append P word (32 ∷ _) w (
    s,
    All-append P avg10 _ a (
        All-append P (text x) _ (t x) (
          s,
          All-append P avg60 _ b (
              All-append P (text y) _ (t y)
                (s, All-append P avg300 _ c (All-append P (text z) _ (t z) (s, r)))),
        )),
  )

  skip_line :
      (x y z : F) (rest : List ℕ)
      → strstr full_word (print_line text some_word x y z rest) ≡ strstr full_word (32 ∷ rest)
  skip_line x y z rest =
      strstr_skip (some_word ++ (32 ∷ avg10)) _
        (refl, (refl, (refl, (refl, (refl, (refl, (refl, (refl, (refl, (refl, (refl, tt)))))))))))
      ∙ strstr_skip (text x) _ (p.plain x)
      ∙ strstr_skip (32 ∷ avg60) _ (refl, (refl, (refl, (refl, (refl, (refl, (refl, tt)))))))
      ∙ strstr_skip (text y) _ (p.plain y)
      ∙ strstr_skip (32 ∷ avg300) _
          (refl, (refl, (refl, (refl, (refl, (refl, (refl, (refl, tt))))))))
      ∙ strstr_skip (text z) _ (p.plain z)

  set_some_read :
      (buf line : List ℕ) (x y z : F) (m : PsiMetrics F)
      → strstr some_word buf ≡ some line
      → sscanf fl (line_format some_word) line ≡ x ∷ y ∷ z ∷ []
      → read_some fl buf m ≡ record m { some_avg10 = x; some_avg60 = y; some_avg300 = z }
  unfolding read_some set_some
  set_some_read buf line x y z m e f = ground (arith, e, f)

  set_full_read :
      (buf line : List ℕ) (x y z : F) (m : PsiMetrics F)
      → strstr full_word buf ≡ some line
      → sscanf fl (line_format full_word) line ≡ x ∷ y ∷ z ∷ []
      → read_full fl buf m ≡ record m { full_avg10 = x; full_avg60 = y; full_avg300 = z }
  unfolding read_full set_full
  set_full_read buf line x y z m e f = ground (arith, e, f)

  -- Where numbers print so that `%f` reads them back, and the totals hold no end of text and no 'f':
  -- of a file of at most 255 bytes as the kernel prints it, the metrics are read back.
  pub read_psi-printed :
      (m : PsiMetrics F) (some_total full_total : List ℕ)
      → Plain some_total
      → Plain full_total
      → length (printed text m some_total full_total) ≤ 255
      → read_psi fl (some (printed text m some_total full_total)) ≡ some m
  unfolding read_psi read_text strstr strip
  read_psi-printed m some_total full_total ps pf small =
      ap (read_text fl) (cut_all 255 file small)
      ∙ ap (λ buf. some (read_full fl buf (read_some fl buf (no_metrics fl)))) whole
      ∙ ap some (
          ap (read_full fl file) (
            set_some_read file file m.some_avg10 m.some_avg60 m.some_avg300 (no_metrics fl) refl
              (sscanf-print_line some_word m.some_avg10 m.some_avg60 m.some_avg300 _))
          ∙ set_full_read file second m.full_avg10 m.full_avg60 m.full_avg300 _ found
              (sscanf-print_line full_word m.full_avg10 m.full_avg60 m.full_avg300 full_total))
    where
      IsText : ℕ → Type 0
      IsText b = (b == 0) ≡ false

      not_nul : (bs : List ℕ) → Plain bs → All IsText bs
      not_nul bs h = All-map (λ b. is_plain b ≡ true) IsText bs (λ b q. ground arith) h

      texts : (x : F) → All IsText (text x)
      texts x = not_nul (text x) (p.plain x)

      second : List ℕ
      second = print_line text full_word m.full_avg10 m.full_avg60 m.full_avg300 full_total

      file : List ℕ
      file = printed text m some_total full_total

      whole : until_nul file ≡ file
      whole = until_nul-All file (
          line-All IsText some_word m.some_avg10 m.some_avg60 m.some_avg300 (some_total ++ second)
            (refl, (refl, (refl, (refl, tt)))) refl
            (refl, (refl, (refl, (refl, (refl, (refl, tt))))))
            (refl, (refl, (refl, (refl, (refl, (refl, tt))))))
            (refl, (refl, (refl, (refl, (refl, (refl, (refl, tt))))))) texts
            (All-append IsText some_total second (not_nul some_total ps) (
              line-All IsText full_word m.full_avg10 m.full_avg60 m.full_avg300 full_total
                (refl, (refl, (refl, (refl, tt)))) refl
                (refl, (refl, (refl, (refl, (refl, (refl, tt))))))
                (refl, (refl, (refl, (refl, (refl, (refl, tt))))))
                (refl, (refl, (refl, (refl, (refl, (refl, (refl, tt))))))) texts
                (not_nul full_total pf))))

      found : strstr full_word file ≡ some second
      found =
          skip_line m.some_avg10 m.some_avg60 m.some_avg300 (some_total ++ second)
          ∙ strstr_skip (32 ∷ some_total) second (refl, ps)
