-- ===== src/Service/Config/Accepted.antt =====
-- Which configurations src/service/src/config.c accepts, in the terms of its own tests.
use dynaswap.Base.{
  ℕ, ◌≡◌, ◌↔◌, Bool, true, List, none, some, if◌then◌else◌, arith, inl, inr, Option-cases,
  Bool-cases,
}
use dynaswap.Service.Config.{
  Numbers, ConfigFile, ConfigList, Settings, ◌>>=◌, parse_size_string, parse_config, in_range,
  has_stress, is_valid, set_tested, validate_config, read_config,
}

module _ {F : Type 0} (fl : Numbers F) (is_dir : List ℕ → Bool) where
  -- The settings that a configuration stands for.
  abbrev pub settings : ConfigList F → ℕ → Settings F
  settings c size = record {
    set_full_threshold = c.swap_full_threshold;
    set_free_threshold = c.swap_free_threshold;
    set_some_stress = c.psi_some_stress;
    set_full_stress = c.psi_full_stress;
    set_path = c.swap_path;
    set_size = size;
  }

  -- All tests pass, and the size can be read.
  pub record IsAccepted (c : ConfigList F) (size : ℕ) : Type 0 where
    pub full : in_range fl is_dir c.swap_full_threshold ≡ true
    pub free : in_range fl is_dir c.swap_free_threshold ≡ true
    pub stress : has_stress fl is_dir c ≡ true
    pub path : is_dir c.swap_path ≡ true
    pub sized : parse_size_string fl is_dir c.swap_size ≡ some size

  tested :
      (c : ConfigList F) (size : ℕ) (t : Settings F)
      → is_valid fl is_dir c ≡ true
      → record (set_tested fl is_dir c t) { set_size = size } ≡ settings c size
  unfolding is_valid set_tested
  tested c size t v = ground arith

  accepted :
      (c : ConfigList F) (size : ℕ)
      → is_valid fl is_dir c ≡ true
      → parse_size_string fl is_dir c.swap_size ≡ some size
      → IsAccepted c size
  unfolding is_valid
  accepted c size v z = record {
    full = ground arith;
    free = ground arith;
    stress = ground arith;
    path = ground arith;
    sized = z;
  }

  valid_of_accepted :
      (c : ConfigList F) (size : ℕ) → IsAccepted c size → is_valid fl is_dir c ≡ true
  unfolding is_valid
  valid_of_accepted c size a = ground (arith, a.full, a.free, a.stress, a.path)

  -- Once the file is parsed.
  read_config_parsed :
      (f : ConfigFile F) (t : Settings F) (c : ConfigList F)
      → parse_config fl is_dir f ≡ some c
      → read_config fl is_dir f t
        ≡ (validate_config fl is_dir c t >>= λ r. if r.0 then some r.1 else none)
  unfolding read_config
  read_config_parsed f t c e = rw (e, read_config)

  validated :
      (c : ConfigList F) (size : ℕ) (t : Settings F)
      → parse_size_string fl is_dir c.swap_size ≡ some size
      → (validate_config fl is_dir c t >>= λ r. if r.0 then some r.1 else none) ≡ (
          if is_valid fl is_dir c
          then some (record (set_tested fl is_dir c t) { set_size = size })
          else none)
  unfolding validate_config
  validated c size t z = rw (z, validate_config)

  unreadable :
      (c : ConfigList F) (t : Settings F)
      → parse_size_string fl is_dir c.swap_size ≡ none
      → (validate_config fl is_dir c t >>= λ r. if r.0 then some r.1 else none) ≡ none
  unfolding validate_config
  unreadable c t z = rw (z, validate_config)

  -- In the terms of the code's own tests.
  pub read_config_parts :
      (f : ConfigFile F) (t u : Settings F)
      → (read_config fl is_dir f t ≡ some u) ↔ (
          (c : ConfigList F) × (size : ℕ) × (parse_config fl is_dir f ≡ some c)
          × IsAccepted c size
          × (u ≡ settings c size))
  unfolding read_config
  read_config_parts f t u = (
    λ h. elim (Option-cases (parse_config fl is_dir f)) [
      | inl e ↦ absurd (ground arith)
      | inr (c, e) ↦ elim (Option-cases (parse_size_string fl is_dir c.swap_size)) [
        | inl z ↦ ground (arith, read_config_parsed f t c e, unreadable c t z)
        | inr (size, z) ↦ elim (Bool-cases (is_valid fl is_dir c)) [
          | inl v ↦ (
            c,
            size,
            e,
            accepted c size v z,
            ground (arith, read_config_parsed f t c e, validated c size t z, tested c size t v),
          )
          | inr v ↦ ground (arith, read_config_parsed f t c e, validated c size t z)
        ]
      ]
    ],
    λ (c, size, e, a, q).
        let v = valid_of_accepted c size a in
        ground (arith, read_config_parsed f t c e, validated c size t a.sized, tested c size t v),
  )
