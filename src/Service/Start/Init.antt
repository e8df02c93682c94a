-- ===== src/Service/Start/Init.antt =====
-- When the program of src/service/src/dynaswap.c enters its loop.
use dynaswap.Base.{
  ℕ, ◌≡◌, ◌↔◌, refl, sym, ap, subst, ◌∙◌, Bool, true, not, ℤ, List, [], ◌∷◌, Option, none, some,
  map, if◌then◌else◌, ◌==◌, arith, if_cases,
}
use dynaswap.Service.Config.{Numbers, ConfigFile, Settings, read_config}
use dynaswap.Service.Config.Taken.{Takes, read_config_iff}
use dynaswap.Service.Pressure.{Floats, PsiState, init_psi}
use dynaswap.Service.Swap.{no_swap, Outcome, running, exited, crashed, Grants, allocate_swap}
use dynaswap.Service.Start.{
  Opt, config_file, help, invalid, Or, quits, crashes, goes_on, parse_args, validated, read_args,
  Environment, Started, closed_psi, configured, entered, start_up, or_exit, with_args,
  init_dynaswap,
}

-- The last of some paths, or the one from before.
abbrev pub last_or : Option (List ℕ) → List (List ℕ) → Option (List ℕ)
last_or c [] = c
last_or c (p ∷ ps) = last_or (some p) ps

-- The path that the options name.
abbrev pub Names : List Opt → Option (List ℕ) → List ℕ → Type 0
Names opts c path =
    (paths : List (List ℕ)) × (opts ≡ map config_file paths) × (last_or c paths ≡ some path)

pub not_quits : {A : Type 0} {n : ℕ} {a : A} → quits n ≡ goes_on a → ⊥
not_quits e = ground arith

pub not_crashes : {A : Type 0} {a : A} → crashes ≡ goes_on a → ⊥
not_crashes e = ground arith

pub same : {A : Type 0} {a b : A} → goes_on a ≡ goes_on b → a ≡ b
same e = ground arith

parsed :
    (opts : List Opt) (c : Option (List ℕ)) (path : List ℕ)
    → parse_args opts c ≡ goes_on path
    → Names opts c path
unfolding parse_args
parsed [] none path e = absurd (not_quits e)
parsed [] (some q) path e = ([], refl, ap some (same e))
parsed (config_file q ∷ opts) c path e =
    let (paths, o, l) = parsed opts (some q) path e in
    (q ∷ paths, ap (λ os. config_file q ∷ os) o, l)
parsed (help ∷ opts) c path e = absurd (not_quits e)
parsed (invalid ∷ opts) c path e = absurd (not_quits e)

named :
    (paths : List (List ℕ)) (c : Option (List ℕ)) (path : List ℕ)
    → last_or c paths ≡ some path
    → parse_args (map config_file paths) c ≡ goes_on path
unfolding parse_args
named [] none path e = ground arith
named [] (some q) path e = ground arith
named (q ∷ paths) c path e = named paths (some q) path e

read_args_iff :
    (can_read : List ℕ → Bool) (opts : List Opt) (path : List ℕ)
    → (read_args can_read opts ≡ goes_on path) ↔ (Names opts none path × (can_read path ≡ true))
unfolding read_args
read_args_iff can_read opts path = (
  λ e. by_args (parse_args opts none) refl e,
  λ ((paths, o, l), c).
      ap (λ os. validated can_read (parse_args os none)) o
      ∙ ap (validated can_read) (named paths none path l)
      ∙ ap (λ b. if b then goes_on path else quits 1) c,
)
  where
    by_args :
        (r : Or (List ℕ))
        → parse_args opts none ≡ r
        → validated can_read r ≡ goes_on path
        → Names opts none path × (can_read path ≡ true)
    by_args (quits n) q e = absurd (not_quits e)
    by_args crashes q e = absurd (not_crashes e)
    by_args (goes_on p) q e =
        if_cases
          (λ (r : Or (List ℕ)). r ≡ goes_on path → Names opts none path × (can_read path ≡ true))
          (can_read p) (λ b f. (parsed opts none path (q ∙ f), ap can_read (sym (same f)) ∙ b))
          (λ b f. absurd (not_quits f)) e

module _ {F : Type 0} (fl : Floats F) (nb : Numbers F) (of_longlong : ℤ → F) (e : Environment F)
    (defaults : Settings F) where
  -- What the loop is entered with: the last configuration file that was named can be read and is
  -- accepted, with these settings.
  pub record Accepts (t : Settings F) : Type 0 where
    pub user : e.uid ≡ 0
    pub path : List ℕ
    pub named_last : Names e.options none path
    pub readable : e.can_read path ≡ true
    pub file : ConfigFile F
    pub found : e.config path ≡ some file
    pub taken : Takes nb e.is_dir file t

  -- And the first chunk was allocated.
  pub record Enters (g : Grants) (s : Started F) : Type 0 where
    pub accepts : Accepts s.settings
    pub first : allocate_swap s.settings.set_path g (no_swap e.answers) ≡ running s.swap
    pub watched : s.psi ≡ init_psi e.psi_open e.psi_write closed_psi

  start_up_iff :
      (g : Grants) (t : Settings F) (s : Started F)
      → start_up fl nb of_longlong e defaults g t ≡ goes_on s
      → Accepts t
      → Enters g s
  unfolding start_up
  start_up_iff g t s h a = by_outcome (allocate_swap t.set_path g (no_swap e.answers)) refl h
    where
      by_outcome :
          (o : Outcome)
          → allocate_swap t.set_path g (no_swap e.answers) ≡ o
          → entered fl nb of_longlong e defaults t (init_psi e.psi_open e.psi_write closed_psi) o
            ≡ goes_on s
          → Enters g s
      by_outcome (running sw) q k =
          subst (Enters g) (same k) (record { accepts = a; first = q; watched = refl })
      by_outcome (exited sw) q k = absurd (not_quits k)
      by_outcome (crashed sw) q k = absurd (not_crashes k)

  start_up_of :
      (g : Grants) (s : Started F)
      → Enters g s
      → start_up fl nb of_longlong e defaults g s.settings ≡ goes_on s
  unfolding start_up
  start_up_of g s h =
      ap
        (entered fl nb of_longlong e defaults s.settings
          (init_psi e.psi_open e.psi_write closed_psi))
        h.first
      ∙ ap (λ (p : PsiState). goes_on (record s { psi = p })) (sym h.watched)

  configured_iff :
      (path : List ℕ) (t : Settings F)
      → configured fl nb of_longlong e defaults path ≡ some t
      → (file : ConfigFile F) × (e.config path ≡ some file)
        × (read_config nb e.is_dir file defaults ≡ some t)
  configured_iff path t h = by_file (e.config path) refl h
    where
      by_file :
          (o : Option (ConfigFile F))
          → e.config path ≡ o
          → ◌≡◌ {A = Option (Settings F)}
              (elim o [ none ↦ none | some file ↦ read_config nb e.is_dir file defaults ])
              (some t)
          → (file : ConfigFile F) × (e.config path ≡ some file)
            × (read_config nb e.is_dir file defaults ≡ some t)
      by_file none q h = ground arith
      by_file (some file) q h = (file, q, h)

  -- The program enters its loop exactly for the superuser with only options -c, the last of which
  -- names a file that can be read and says what `Takes` asks for, and if the allocation of the first
  -- chunk neither exits nor follows a null pointer. The settings are then those of the file, the
  -- chunks those of the allocation, and the pressure file is as init_psi leaves it.
  pub init_dynaswap_iff :
      (g : Grants) (s : Started F)
      → (init_dynaswap fl nb of_longlong e defaults g ≡ goes_on s) ↔ Enters g s
  unfolding init_dynaswap
  init_dynaswap_iff g s = (
    λ h.
        if_cases (λ (r : Or (Started F)). r ≡ goes_on s → Enters g s) (not (e.uid == 0))
          (λ _ q. absurd (not_quits q))
          (λ u q. by_args (ground arith) (read_args e.can_read e.options) refl q) h,
    λ h.
        let a = h.accepts in
        ap
          (λ u.
            if not (u == 0)
            then quits 1
            else with_args fl nb of_longlong e defaults g (read_args e.can_read e.options))
          a.user
        ∙ ap (with_args fl nb of_longlong e defaults g)
            ((read_args_iff e.can_read e.options a.path).1 (a.named_last, a.readable))
        ∙ ap (or_exit fl nb of_longlong e defaults g) (settings_read s.settings a)
        ∙ start_up_of g s h,
  )
    where
      settings_read :
          (t : Settings F)
          → (a : Accepts t) → configured fl nb of_longlong e defaults a.path ≡ some t
      settings_read t a =
          ap
            (λ o. elim o as (λ _. Option (Settings F)) [
              | none ↦ none
              | some file ↦ read_config nb e.is_dir file defaults
            ])
            a.found
          ∙ (read_config_iff nb e.is_dir a.file defaults t).1 a.taken

      by_config :
          (path : List ℕ) (o : Option (Settings F))
          → e.uid ≡ 0
          → read_args e.can_read e.options ≡ goes_on path
          → configured fl nb of_longlong e defaults path ≡ o
          → or_exit fl nb of_longlong e defaults g o ≡ goes_on s
          → Enters g s
      by_config path none u r c q = absurd (not_quits q)
      by_config path (some t) u r c q =
          let (file, found, taken) = configured_iff path t c in
          let (names, can) = (read_args_iff e.can_read e.options path).0 r in
          start_up_iff g t s q (record {
            user = u;
            path = path;
            named_last = names;
            readable = can;
            file = file;
            found = found;
            taken = (read_config_iff nb e.is_dir file defaults t).0 taken;
          })

      by_args :
          e.uid ≡ 0
          → (r : Or (List ℕ)) → read_args e.can_read e.options ≡ r
          → with_args fl nb of_longlong e defaults g r ≡ goes_on s
          → Enters g s
      by_args u (quits n) r q = absurd (not_quits q)
      by_args u crashes r q = absurd (not_crashes q)
      by_args u (goes_on path) r q =
          by_config path (configured fl nb of_longlong e defaults path) u r refl q
