-- ===== src/Service/Config/Taken.antt =====
-- What a configuration file must say for src/service/src/config.c to take it, key by key.
use dynaswap.Base.{
  ℕ, zero, suc, ◌≡◌, ◌↔◌, refl, sym, subst, ap, ◌∙◌, Bool, true, List, Option, none, some, arith, ℤ,
  pos, negsuc, ltb_int,
}
use dynaswap.Service.Config.{
  Numbers, ConfigFile, ConfigList, Settings, ◌>>=◌, skip_space, multiplier, parse_size_string,
  parse_config, has_stress, read_config,
}
use dynaswap.Service.Config.Sizes.{Sized, Sized-skip, skip-Sized}
use dynaswap.Service.Config.Accepted.{settings, IsAccepted, read_config_parts}

module _ {F : Type 0} (fl : Numbers F) (is_dir : List ℕ → Bool) where
  -- The settings `u` are those of the file: each key is there, its value is that of its variable and
  -- within the limits, and the size is a number, blanks and a letter.
  pub record Takes (f : ConfigFile F) (u : Settings F) : Type 0 where
    pub path : f.swap_path_key ≡ some u.set_path
    pub directory : is_dir u.set_path ≡ true
    pub full : f.swap_full_threshold_key ≡ some u.set_full_threshold
    pub full_above : fl.above_zero u.set_full_threshold ≡ true
    pub full_most : fl.at_most_one u.set_full_threshold ≡ true
    pub free : f.swap_free_threshold_key ≡ some u.set_free_threshold
    pub free_above : fl.above_zero u.set_free_threshold ≡ true
    pub free_most : fl.at_most_one u.set_free_threshold ≡ true
    pub some_stress : f.psi_some_stress_key ≡ some u.set_some_stress
    pub some_above : (n : ℕ) × (u.set_some_stress ≡ pos (suc n))
    pub full_stress : f.psi_full_stress_key ≡ some u.set_full_stress
    pub full_stress_above : (n : ℕ) × (u.set_full_stress ≡ pos (suc n))
    pub size :
        (text end : List ℕ) × (number : F) × (n : ℕ) × (f.swap_part_size_key ≡ some text)
        × (fl.strtod text ≡ some (number, end))
        × Sized end n
        × (u.set_size ≡ fl.scaled number n)

  parse_config-keys :
      (f : ConfigFile F) (c : ConfigList F)
      → parse_config fl is_dir f ≡ some c
      → (f.swap_path_key ≡ some c.swap_path)
        × (f.swap_part_size_key ≡ some c.swap_size)
        × (f.swap_full_threshold_key ≡ some c.swap_full_threshold)
        × (f.swap_free_threshold_key ≡ some c.swap_free_threshold)
        × (f.psi_some_stress_key ≡ some c.psi_some_stress)
        × (f.psi_full_stress_key ≡ some c.psi_full_stress)
  unfolding parse_config
  parse_config-keys f c e = ground arith

  keys-parse_config :
      (f : ConfigFile F) (c : ConfigList F)
      → f.swap_path_key ≡ some c.swap_path
      → f.swap_part_size_key ≡ some c.swap_size
      → f.swap_full_threshold_key ≡ some c.swap_full_threshold
      → f.swap_free_threshold_key ≡ some c.swap_free_threshold
      → f.psi_some_stress_key ≡ some c.psi_some_stress
      → f.psi_full_stress_key ≡ some c.psi_full_stress
      → parse_config fl is_dir f ≡ some c
  unfolding parse_config
  keys-parse_config f c path size full free some_stress full_stress =
      rw (path, size, full, free, some_stress, full_stress) refl

  above_zero : (z : ℤ) → ltb_int (pos 0) z ≡ true → (n : ℕ) × (z ≡ pos (suc n))
  above_zero (pos zero) e = absurd (ground arith)
  above_zero (pos (suc n)) e = (n, refl)
  above_zero (negsuc n) e = absurd (ground arith)

  parse_size-parts :
      (text : List ℕ) (size : ℕ)
      → parse_size_string fl is_dir text ≡ some size
      → (number : F) × (end : List ℕ) × (n : ℕ) × (fl.strtod text ≡ some (number, end))
        × (multiplier (skip_space end) ≡ some n)
        × (size ≡ fl.scaled number n)
  unfolding parse_size_string
  parse_size-parts text size e = by_number (fl.strtod text) refl e
    where
      by_end :
          (number : F) (end : List ℕ) (o : Option ℕ)
          → fl.strtod text ≡ some (number, end)
          → multiplier (skip_space end) ≡ o
          → (o >>= λ n. some (fl.scaled number n)) ≡ some size
          → (number : F) × (end : List ℕ) × (n : ℕ) × (fl.strtod text ≡ some (number, end))
            × (multiplier (skip_space end) ≡ some n)
            × (size ≡ fl.scaled number n)
      by_end number end none d m e = absurd (ground arith)
      by_end number end (some n) d m e = (number, end, n, d, m, ground arith)

      by_number :
          (o : Option (F × List ℕ))
          → fl.strtod text ≡ o
          → (o >>= λ r. multiplier (skip_space r.1) >>= λ n. some (fl.scaled r.0 n)) ≡ some size
          → (number : F) × (end : List ℕ) × (n : ℕ) × (fl.strtod text ≡ some (number, end))
            × (multiplier (skip_space end) ≡ some n)
            × (size ≡ fl.scaled number n)
      by_number none d e = absurd (ground arith)
      by_number (some (number, end)) d e = by_end number end (multiplier (skip_space end)) d refl e

  accepted-Takes :
      (f : ConfigFile F) (c : ConfigList F) (size : ℕ)
      → parse_config fl is_dir f ≡ some c
      → IsAccepted fl is_dir c size
      → Takes f (settings fl is_dir c size)
  accepted-Takes f c size e a =
      let (path, text, full, free, some_stress, full_stress) = parse_config-keys f c e in
      let (number, end, n, read, letter, scaled) = parse_size-parts c.swap_size size a.sized in
      record {
        path = path;
        directory = a.path;
        full = full;
        full_above = ground (arith, a.full);
        full_most = ground (arith, a.full);
        free = free;
        free_above = ground (arith, a.free);
        free_most = ground (arith, a.free);
        some_stress = some_stress;
        some_above = above_zero c.psi_some_stress (ground (arith, a.stress));
        full_stress = full_stress;
        full_stress_above = above_zero c.psi_full_stress (ground (arith, a.stress));
        size = (c.swap_size, end, number, n, text, read, Sized-skip end n letter, scaled);
      }

  sized :
      (text end : List ℕ) (number : F) (n : ℕ)
      → fl.strtod text ≡ some (number, end)
      → Sized end n
      → parse_size_string fl is_dir text ≡ some (fl.scaled number n)
  unfolding parse_size_string
  sized text end number n read z = rw (read, skip-Sized end n z) refl

  pub read_config_iff :
      (f : ConfigFile F) (t u : Settings F) → (read_config fl is_dir f t ≡ some u) ↔ Takes f u
  read_config_iff f t u = (
    λ e.
        let (c, size, parsed, a, same) = (read_config_parts fl is_dir f t u).0 e in
        subst (Takes f) (sym same) (accepted-Takes f c size parsed a),
    λ h.
        let (text, end, number, n, key, read, z, scaled) = h.size in
        let c : ConfigList F = record {
          swap_full_threshold = u.set_full_threshold;
          swap_free_threshold = u.set_free_threshold;
          psi_some_stress = u.set_some_stress;
          psi_full_stress = u.set_full_stress;
          swap_path = u.set_path;
          swap_size = text;
        } in
        (read_config_parts fl is_dir f t u).1 (
          c,
          u.set_size,
          keys-parse_config f c h.path key h.full h.free h.some_stress h.full_stress,
          record {
            full = rw (h.full_above, h.full_most) refl;
            free = rw (h.free_above, h.free_most) refl;
            stress = positive c h.some_above h.full_stress_above;
            path = h.directory;
            sized = sized text end number n read z ∙ ap some (sym scaled);
          },
          refl,
        ),
  )
    where
      positive :
          (c : ConfigList F)
          → (n : ℕ) × (c.psi_some_stress ≡ pos (suc n))
          → (n : ℕ) × (c.psi_full_stress ≡ pos (suc n))
          → has_stress fl is_dir c ≡ true
      positive c (n, e) (m, q) = ground (arith, e, q)
