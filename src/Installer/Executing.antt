-- ===== src/Installer/Executing.antt =====
-- Which configuration the commands of the node installer run with.
use runtime_class_manager.Base.{Text, txt, text_eq, contains, if◌then◌else◌, ℕ}
use runtime_class_manager.Go.Outcome.{Outcome}
use runtime_class_manager.Machine.{Machine}
use runtime_class_manager.Installer.Detect.{Locations}
use runtime_class_manager.Installer.Flags.{Config}
use runtime_class_manager.Installer.Binding.{Viper, config_name, located, with_env}
use runtime_class_manager.Installer.Precedence.{HoldsStrings, preferred}
use runtime_class_manager.Installer.Process.{Command, Cobra, run_command, status_of}

-- The names of the flags that are bound to `config`.
pub data IsBound : Text → Type 0 where
  runtime : IsBound (txt "runtime")
  runtime_config : IsBound (txt "runtime-config")
  rcm_path : IsBound (txt "rcm-path")
  asset_path : IsBound (txt "asset-path")
  host_root : IsBound (txt "host-root")

module _ {V F : Type 0} (viper : Viper V) (cobra : Cobra F) where
  -- The value of a flag of the command, by the precedence.
  abbrev pub settled : Command → F → Text → Text
  settled c s n =
      let flags = cobra.flags c in
      let v = with_env viper (viper.read_in_config (located viper)).1 in
      (if contains (flags.names s) n
        then preferred viper v (config_name n) (flags.flag n s)
        else flags.flag n s).value

module _ {W V F : Type 0} (machine_at : Text → Machine W) (locations : Locations W)
    (viper : Viper V) (cobra : Cobra F)
    (holds : (c : Command) → HoldsStrings (cobra.flags c) IsBound) where
  -- A run of the command with a configuration, to its exit status.
  abbrev pub ran : Command → Config → W → Outcome ℕ × W
  ran c config w =
      let (result, w') = run_command machine_at locations c config w in (status_of result, w')
