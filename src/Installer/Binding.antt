-- ===== src/Installer/Binding.antt =====
-- cmd/node-installer/root.go: flags that take their values from the configuration file or the
-- environment, over pflag and viper as parameters.
use runtime_class_manager.Base.{
  ℕ, Bool, true, false, not, ◌&&◌, none, some, List, [], ◌∷◌, Text, txt, ◌=ℕ◌, map, if◌then◌else◌,
}
use runtime_class_manager.Go.Outcome.{Error, Err, ok, err, Action}

-- `pflag.Flag`, by the fields that are read.
pub record Flag : Type 0 where
  pub value : Text
  pub changed : Bool

-- `pflag.FlagSet`, by the calls that are made, over an unknown state.
pub record FlagSet (F : Type 0) : Type 0 where
  -- the names, in the order of `VisitAll`
  pub names : F → List Text
  -- `flags.Lookup(name)`
  pub flag : Text → F → Flag
  -- `flags.Set(name, value)`
  pub set : Text → Text → F → Err × F

-- `viper.Viper`, by the calls that are made, in one environment.
pub record Viper (V : Type 0) : Type 0 where
  pub empty : V
  pub set_config_name : Text → V → V
  pub add_config_path : Text → V → V
  pub read_in_config : V → Err × V
  -- `errors.As(err, &viper.ConfigFileNotFoundError{})`
  pub is_config_file_not_found : Error → Bool
  pub set_env_prefix : Text → V → V
  -- with the replacer of one text by another
  pub set_env_key_replacer : Text → Text → V → V
  pub automatic_env : V → V
  pub is_set : V → Text → Bool
  -- `fmt.Sprintf("%v", v.Get(key))`
  pub get : V → Text → Text

dash : ℕ
dash = 45

underscore : ℕ
underscore = 95

-- `configName`
unfoldable pub config_name : Text → Text
unfolding dash underscore
config_name name = map (λ b. if b =ℕ dash then underscore else b) name

module _ {V : Type 0} (viper : Viper V) where
  -- The instance before it reads the file.
  unfoldable pub located : V
  located =
      viper.add_config_path (txt "/etc")
        (viper.add_config_path (txt ".") (viper.set_config_name (txt "rcm") viper.empty))

  -- The instance with the environment.
  unfoldable pub with_env : V → V
  with_env v =
      viper.automatic_env
        (viper.set_env_key_replacer (txt "-") (txt "_") (viper.set_env_prefix (txt "RCM") v))

module _ {V F : Type 0} (viper : Viper V) (flags : FlagSet F) where
  -- The function that `bindFlags` has `VisitAll` call; an error of `Set` is dropped.
  unfoldable pub bind_flag : V → Text → F → F
  bind_flag v name s =
      let key = config_name name in
      if not (flags.flag name s).changed && viper.is_set v key
      then (flags.set name (viper.get v key) s).1
      else s

  unfoldable pub bind_each : V → List Text → F → F
  bind_each v [] s = s
  bind_each v (name ∷ names) s = bind_each v names (bind_flag v name s)

  -- `bindFlags`
  unfoldable pub bind_flags : V → F → F
  bind_flags v s = bind_each v (flags.names s) s

  -- `initializeConfig`
  unfoldable pub initialize_config : Action F (Unit {0})
  unfolding located with_env bind_flags
  initialize_config s =
      let (read_error, v) = viper.read_in_config (located viper) in
      elim read_error [
        | none ↦ (ok tt, bind_flags (with_env viper v) s)
        | some e ↦ elim (viper.is_config_file_not_found e) [
          | true ↦ (ok tt, bind_flags (with_env viper v) s)
          | false ↦ (err e, s)
        ]
      ]
