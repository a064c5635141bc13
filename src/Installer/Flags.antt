-- ===== src/Installer/Flags.antt =====
-- cmd/node-installer/config.go, and the configurations that the commands derive from it.
use runtime_class_manager.Base.{Text, txt, []}
use runtime_class_manager.Base.Dict.{Dict}
use runtime_class_manager.Shim
use runtime_class_manager.Containerd

-- `Config`: `Runtime.Name`, `Runtime.ConfigPath`, `Runtime.Options`, `RCM.Path`, `RCM.AssetPath` and
-- `Host.RootPath`.
pub record Config : Type 0 where
  pub runtime_name : Text
  pub config_path : Text
  pub options : Dict Text Text
  pub rcm_path : Text
  pub asset_path : Text
  pub root_path : Text

-- The defaults of the flags.
abbrev pub default_config : Config
default_config = record {
  runtime_name = txt "containerd";
  config_path = [];
  options = [];
  rcm_path = txt "/opt/rcm";
  asset_path = txt "/assets";
  root_path = txt "/";
}

-- `containerd.NewConfig`
abbrev pub containerd_config : Config → Containerd.Config
containerd_config c = record { config_path = c.config_path; runtime_options = c.options }

-- `shim.NewConfig`
abbrev pub shim_config : Config → Text → Shim.Config
shim_config c asset_path = record { asset_path = asset_path; rcm_path = c.rcm_path }
