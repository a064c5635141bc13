-- ===== src/Installer/Precedence.antt =====
-- Where a flag takes its value from: the command line, then the environment and the configuration
-- file, then its default.
use runtime_class_manager.Base.{
  ◌≡◌, ◌≢◌, refl, sym, ap, ◌⊎◌, ◌∙◌, Bool, true, false, List, [], ◌∷◌, Text, text_eq, ◌==◌, ==_iff,
  arith, inl, inr, contains, if◌then◌else◌, Bool-cases, Option-cases,
}
use runtime_class_manager.Go.Outcome.{Error, ok, err}
use runtime_class_manager.Installer.Binding.{
  Flag, FlagSet, Viper, config_name, bind_flag, bind_each, bind_flags, located, with_env,
  initialize_config,
}

-- What pflag documents of `Set`: it is about one flag, and a flag that holds a string takes any value.
pub record HoldsStrings {F : Type 0} (flags : FlagSet F) (IsString : Text → Type 0) : Type 0 where
  pub set_other : (n m t : Text) (s : F) → m ≢ n → flags.flag m (flags.set n t s).1 ≡ flags.flag m s
  pub set_string :
      (n t : Text) (s : F)
      → IsString n
      → flags.flag n (flags.set n t s).1 ≡ record { value = t; changed = true }

module _ {V : Type 0} (viper : Viper V) where
  -- The precedence, as a function of the flag that the command line left.
  abbrev pub preferred : V → Text → Flag → Flag
  preferred v key f =
      if f.changed
      then f
      else if viper.is_set v key
      then record { value = viper.get v key; changed = true }
      else f

module _ {V F : Type 0} (viper : Viper V) (flags : FlagSet F) (IsString : Text → Type 0)
    (holds : HoldsStrings flags IsString) where
  bind_flag-same :
      (v : V) (n : Text) (s : F)
      → IsString n
      → flags.flag n (bind_flag viper flags v n s)
        ≡ preferred viper v (config_name n) (flags.flag n s)
  unfolding bind_flag
  bind_flag-same v n s string =
      ground (arith, holds.set_string n (viper.get v (config_name n)) s string)

  bind_flag-other :
      (v : V) (n m : Text) (s : F)
      → m ≢ n
      → flags.flag m (bind_flag viper flags v n s) ≡ flags.flag m s
  unfolding bind_flag
  bind_flag-other v n m s other =
      ground (arith, holds.set_other n m (viper.get v (config_name n)) s other)

  preferred-preferred :
      (v : V) (key : Text) (f : Flag)
      → preferred viper v key (preferred viper v key f) ≡ preferred viper v key f
  preferred-preferred v key f = ground arith

  bind_twice :
      (b : Bool) (v : V) (key : Text) (f : Flag)
      → (if b then preferred viper v key (preferred viper v key f) else preferred viper v key f)
        ≡ preferred viper v key f
  bind_twice true v key f = preferred-preferred v key f
  bind_twice false v key f = refl

  pub bind_each-flag :
      (v : V) (n : Text) (names : List Text) (s : F)
      → IsString n
      → flags.flag n (bind_each viper flags v names s) ≡ (
          if contains names n
          then preferred viper v (config_name n) (flags.flag n s)
          else flags.flag n s)
  unfolding bind_each
  bind_each-flag v n [] s string = refl
  bind_each-flag v n (m ∷ names) s string =
      let rest = bind_each-flag v n names (bind_flag viper flags v m s) string in
      elim (Bool-cases (n == m)) [
        | inl same ↦
            let bound : flags.flag n (bind_flag viper flags v m s)
                ≡ preferred viper v (config_name n) (flags.flag n s) =
              ap (λ k. flags.flag n (bind_flag viper flags v k s)) (sym ((==_iff n m).0 same))
              ∙ bind_flag-same v n s string in
            rest
            ∙ rw (bound, same) (bind_twice (contains names n) v (config_name n) (flags.flag n s))
        | inr other ↦
            let kept : flags.flag n (bind_flag viper flags v m s) ≡ flags.flag n s =
              bind_flag-other v m n s (λ e. absurd (ground (arith, other, (==_iff n m).1 e))) in
            rest ∙ rw (kept, other) refl
      ]

  -- The flags after `initializeConfig`, of which one is given that holds a string, where setting a
  -- flag is about that flag only, and one that holds a string takes any value. If it went through,
  -- the flag keeps a value of the command line, else takes that of the environment and the
  -- configuration file under its name with underscores, if there is one, else keeps its default.
  -- An error of the file other than that there is none ends it, and leaves every flag as it was.
  initialize_config-flag :
      (n : Text) (s : F)
      → IsString n
      → contains (flags.names s) n ≡ true
      → let v = with_env viper (viper.read_in_config (located viper)).1 in
        let r = initialize_config viper flags s in
        ((r.0 ≡ ok tt) × (flags.flag n r.1 ≡ preferred viper v (config_name n) (flags.flag n s)))
        ⊎ ((e : Error) × (viper.is_config_file_not_found e ≡ false) × (r ≡ (err e, s)))
  unfolding initialize_config bind_flags
  initialize_config-flag n s string member =
      let (read_error, v) = viper.read_in_config (located viper) in
      let bound = bind_each-flag (with_env viper v) n (flags.names s) s string in
      elim (Option-cases (viper.read_in_config (located viper)).0) [
        | inl none_read ↦ inl (ground arith, ground (arith, bound, member))
        | inr (e, failed) ↦ elim (Bool-cases (viper.is_config_file_not_found e)) [
          | inl missing ↦ inl (ground arith, ground (arith, bound, member))
          | inr other ↦ inr (e, other, ground arith)
        ]
      ]
