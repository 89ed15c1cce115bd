-- ===== src/Config/Load/Precedence.antt =====
-- Which file Load of config.go reads, and what it does when there is none.
use flowc.Prelude.{
  ℕ, String, List, [], ◌∷◌, Option, Bool, true, false, ◌≡◌, ◌≢◌, ◌⊎◌, inl, inr, refl, arith, eq_iff,
  string_eq, Bool-cases, ◌∙◌, ap, subst, sym,
}
use mathlib.Core.List.{Memᴰ}
use flowc.Config.Settings.{Config, Parsers}
use flowc.Config.Defaults.{default}
use flowc.Config.Load.{config_paths, first_existing, find_config_file, load_path, load}

module _ (exists : String → Bool) where
  -- The paths before a path in a list.
  abbrev pub Earliest : String → List String → Type 0
  Earliest path [] = path ≡ ""
  Earliest path (p ∷ paths) =
      ((exists p ≡ true) × (path ≡ p)) ⊎ ((exists p ≡ false) × Earliest path paths)

  first_existing-Earliest : (paths : List String) → Earliest (first_existing exists paths) paths
  unfolding first_existing
  first_existing-Earliest [] = refl
  first_existing-Earliest (p ∷ paths) = elim (Bool-cases (exists p)) [
    | inl there ↦ inl (there, rw (there, first_existing) refl)
    | inr gone ↦
        let same : first_existing exists (p ∷ paths) ≡ first_existing exists paths = ground arith in
        inr (gone, subst (λ q. Earliest q paths) (sym same) (first_existing-Earliest paths))
  ]

  none_there :
      (paths : List String)
      → ((p : String) → Memᴰ p paths → exists p ≡ false)
      → first_existing exists paths ≡ ""
  unfolding first_existing
  none_there [] h = refl
  none_there (p ∷ paths) h =
      rw (h p (Memᴰ.head refl), first_existing) (none_there paths (λ q m. h q (Memᴰ.tail m)))

module _ (getenv : String → String) (exists : String → Bool) where
  not_named :
      (getenv "FLOWC_CONFIG" ≡ "") ⊎ (exists (getenv "FLOWC_CONFIG") ≡ false)
      → find_config_file getenv exists ≡ first_existing exists config_paths
  unfolding find_config_file
  not_named (inl unset) = ground (arith, eq_iff (getenv "FLOWC_CONFIG") "")
  not_named (inr gone) = ground (arith, gone)

  -- The file is the one that FLOWC_CONFIG names, if that is set and exists, and else the first of the
  -- six locations that exists, and none where none does.
  pub find_config_file_lem :
      ((getenv "FLOWC_CONFIG" ≢ "") × (exists (getenv "FLOWC_CONFIG") ≡ true)
        → find_config_file getenv exists ≡ getenv "FLOWC_CONFIG")
      × ((getenv "FLOWC_CONFIG" ≡ "") ⊎ (exists (getenv "FLOWC_CONFIG") ≡ false)
          → Earliest exists (find_config_file getenv exists) config_paths)
  unfolding find_config_file
  find_config_file_lem = (
    λ (given, there). ground (arith, eq_iff (getenv "FLOWC_CONFIG") ""),
    λ unset.
        subst (λ q. Earliest exists q config_paths) (sym (not_named unset))
          (first_existing-Earliest exists config_paths),
  )

  -- Where no file is given and none is found, Load returns the built-in defaults, whatever the
  -- environment's overrides say.
  pub load_unfound :
      (std : Parsers) (unmarshal : List ℕ → Option Config) (read_file : String → Option (List ℕ))
      → (getenv "FLOWC_CONFIG" ≡ "") ⊎ (exists (getenv "FLOWC_CONFIG") ≡ false)
      → ((p : String) → Memᴰ p config_paths → exists p ≡ false)
      → load std getenv unmarshal exists read_file "" ≡ inr default
  unfolding load load_path
  load_unfound std unmarshal read_file unset gone =
      ap (load_path std getenv unmarshal read_file)
        (not_named unset ∙ none_there exists config_paths gone)
