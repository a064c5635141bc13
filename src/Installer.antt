-- ===== src/Installer.antt =====
-- cmd/node-installer: the commands `install` and `uninstall`.
pub mod Flags
pub mod Detect
pub mod Binding
pub mod Precedence
pub mod Process
pub mod Executing
pub mod Choosing
pub mod Hosting
pub mod Running
pub mod Refinement
mod Tests
mod ChoosingTests
mod RefinementTests
use runtime_class_manager.Base.{
  ◌≡◌, Bool, true, false, not, ◌||◌, Option, none, some, List, [], ◌∷◌, ◌++◌, Text, txt, text_eq,
  ◌==◌,
}
use runtime_class_manager.Base.Dict.{Dict, insert}
use runtime_class_manager.Go.Paths.{path_join, dir}
use runtime_class_manager.Go.Json.Value.{Value, null, str, obj, Fields, end, field}
use runtime_class_manager.Go.Json.Parse.{unmarshal}
use runtime_class_manager.Go.Outcome.{
  Error, failure, Err, Outcome, ok, err, panic, Action, pure, raise, wrap, ◌>>=◌, ◌>>◌, when,
}
use runtime_class_manager.Machine.{Fs, Machine, FileInfo}
use runtime_class_manager.Preset.{Settings}
use runtime_class_manager.Shim
use runtime_class_manager.Shim.{runtime_name, install, uninstall}
use runtime_class_manager.Containerd
use runtime_class_manager.Containerd.{add_runtime, remove_runtime}
use runtime_class_manager.Containerd.Restart.{list_systemd_units, restart}
use runtime_class_manager.Containerd.Dbus.{install_dbus}
use runtime_class_manager.Installer.Flags.{Config, containerd_config, shim_config}
use runtime_class_manager.Installer.Detect.{Locations, detect_distro}

-- `json.Unmarshal` into a `map[string]string`: a null gives the empty text.
unfoldable pub read_options : Fields → Dict Text Text → Option (Dict Text Text)
read_options end d = some d
read_options (field k (str t) fs) d = read_options fs (insert k t d)
read_options (field k null fs) d = read_options fs (insert k [] d)
read_options (field k _ fs) d = none

options_of_value : Option Value → Option (Dict Text Text)
unfolding read_options
options_of_value (some null) = some []
options_of_value (some (obj fs)) = read_options fs []
options_of_value _ = none

abbrev or_raise : {W A : Type 0} → Error → Option A → Action W A
or_raise e none = raise e
or_raise e (some a) = pure a

module _ {W : Type 0} (m : Machine W) where
  -- `RuntimeOptions`
  unfoldable pub runtime_options : Action W (Dict Text Text)
  unfolding options_of_value
  runtime_options =
      let text = m.getenv (txt "RUNTIME_OPTIONS") in
      elim (text == []) [
        | true ↦ pure []
        | false ↦
            or_raise (failure (txt "failed to unmarshal runtime options JSON"))
              (options_of_value (unmarshal text))
      ]

  -- The files to install, and the directory that holds them.
  unfoldable pub assets : Text → Action W (List FileInfo × Text)
  assets asset_path = do
    info ← m.root_fs.stat asset_path
    elim info.is_dir [
      | true ↦ do files ← m.root_fs.read_dir asset_path; pure (files, asset_path)
      | false ↦ pure (info ∷ [], dir asset_path)
    ]

  -- The body of the loop of `RunInstall`: was there a new version?
  unfoldable pub install_file : Shim.Config → Containerd.Config → Text → Action W Bool
  install_file sc cc file_name = do
    (bin_path, changed) ←
        wrap (txt "failed to install shim '" ++ (runtime_name file_name ++ txt "'"))
          (install m sc file_name)
    wrap (txt "failed to write containerd config") (add_runtime m.host_fs cc bin_path)
    pure changed

  -- The loop: has anything changed?
  unfoldable pub install_files :
      Shim.Config → Containerd.Config → List FileInfo → Bool → Action W Bool
  install_files sc cc [] changed w = (ok changed, w)
  install_files sc cc (file ∷ files) changed w =
      (install_file sc cc file.name >>= λ now. install_files sc cc files (changed || now)) w

  -- With systemd, D-Bus has to run.
  unfoldable pub ensure_dbus : Action W (Unit {0})
  ensure_dbus w =
      let (units, w') = list_systemd_units m w in
      elim units [
        | ok _ ↦ wrap (txt "failed to install D-Bus") (install_dbus m) w'
        | _ ↦ (ok tt, w')
      ]

  -- What follows the loop.
  unfoldable pub finish_install : Action W (Unit {0}) → Bool → Action W (Unit {0})
  finish_install restarter changed =
      when changed (do ensure_dbus; wrap (txt "failed to restart containerd") restarter)

  -- `RunInstall`
  unfoldable pub run_install : Config → Action W (Unit {0}) → Action W (Unit {0})
  run_install config restarter = do
    (files, asset_path) ← assets config.asset_path
    changed ← install_files (shim_config config asset_path) (containerd_config config) files false
    finish_install restarter changed

  -- `RunUninstall`
  unfoldable pub run_uninstall : Config → Action W (Unit {0}) → Action W (Unit {0})
  run_uninstall config restarter = do
    let shim_name = config.runtime_name
    let name = path_join (config.rcm_path ∷ txt "bin" ∷ shim_name ∷ [])
    bin_path ←
        wrap (txt "failed to delete shim '" ++ (name ++ txt "'"))
          (uninstall m (shim_config config config.asset_path) shim_name)
    changed ←
        wrap (txt "failed to write containerd config for shim '" ++ (name ++ txt "'"))
          (remove_runtime m.host_fs (containerd_config config) bin_path)
    when changed (wrap (txt "failed to restart containerd") restarter)

  -- The command `install`; an error stands for exit status 1. `locations` is the order in which the
  -- loop of `DetectDistro` meets the map.
  unfoldable pub install_command : Locations W → Config → Action W (Unit {0})
  install_command locations config = do
    distro ← detect_distro locations config.config_path m.host_fs
    distro.setup m.host_fs distro.config_path
    options ← runtime_options
    run_install (record config { config_path = distro.config_path; options = options })
        (restart m distro.restarter)

  -- The command `uninstall`
  unfoldable pub uninstall_command : Locations W → Config → Action W (Unit {0})
  uninstall_command locations config = do
    distro ← detect_distro locations config.config_path m.host_fs
    options ← runtime_options
    run_uninstall (record config { config_path = distro.config_path; options = options })
        (restart m distro.restarter)
