-- ===== src/Installer/Process.antt =====
-- cmd/node-installer: the process, from its arguments to its exit status, over cobra as a parameter.
use runtime_class_manager.Base.{ℕ, Option, none, some, [], Text, txt}
use runtime_class_manager.Go.Outcome.{Outcome, ok, err, panic, Action}
use runtime_class_manager.Machine.{Machine}
use runtime_class_manager.Installer.{install_command, uninstall_command}
use runtime_class_manager.Installer.Flags.{Config}
use runtime_class_manager.Installer.Detect.{Locations}
use runtime_class_manager.Installer.Binding.{FlagSet, Viper, initialize_config}

-- `installCmd` and `uninstallCmd`
pub data Command : Type 0 where
  install_cmd uninstall_cmd : Command

-- `cobra.Command`, by what the process asks of the root: it reads the arguments into the flags, and
-- finds the command that is to run, none for the help; a command has its own flags and those of the
-- root.
pub record Cobra (F : Type 0) : Type 0 where
  pub parse : F → Outcome (Option Command) × F
  pub flags : Command → FlagSet F

-- The variable `config`, by the values of the flags that are bound to it.
unfoldable pub config_of : (Text → Text) → Config
config_of value = record {
  runtime_name = value (txt "runtime");
  config_path = value (txt "runtime-config");
  options = [];
  rcm_path = value (txt "rcm-path");
  asset_path = value (txt "asset-path");
  root_path = value (txt "host-root");
}

-- `os.Exit(1)` on an error
unfoldable pub status_of : Outcome (Unit {0}) → Outcome ℕ
status_of (ok _) = ok 0
status_of (err _) = ok 1
status_of (panic t) = panic t

module _ {W : Type 0} (machine_at : Text → Machine W) (locations : Locations W) where
  -- `Run` of the commands, on the host below the root path; an error ends the process with status 1.
  unfoldable pub run_command : Command → Config → Action W (Unit {0})
  run_command install_cmd config = install_command (machine_at config.root_path) locations config
  run_command uninstall_cmd config =
      uninstall_command (machine_at config.root_path) locations config

  module _ {V F : Type 0} (viper : Viper V) (cobra : Cobra F) where
    -- `Run` behind `PersistentPreRunE`, whose error is that of `rootCmd.Execute`.
    unfoldable pub run_initialized : Command → Outcome (Unit {0}) × F → Action W ℕ
    unfolding status_of
    run_initialized command (ok _, s) w =
        let value : Text → Text = λ n. ((cobra.flags command).flag n s).value in
        let (result, w') = run_command command (config_of value) w in (status_of result, w')
    run_initialized command (err _, s) w = (ok 1, w)
    run_initialized command (panic t, s) w = (panic t, w)

    -- `PersistentPreRunE`, and then `Run`
    unfoldable pub run_with : Command → F → Action W ℕ
    run_with command s = run_initialized command (initialize_config viper (cobra.flags command) s)

    -- `Execute`
    unfoldable pub execute : F → Action W ℕ
    execute s w =
        let (r, s') = cobra.parse s in
        elim r [
          | ok command ↦ elim command [ none ↦ (ok 0, w) | some c ↦ run_with c s' w ]
          | err _ ↦ (ok 1, w)
          | panic t ↦ (panic t, w)
        ]
